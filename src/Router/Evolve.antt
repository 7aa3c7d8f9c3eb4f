-- ===== src/Router/Evolve.antt =====
-- What a publish may do to a connection.
use monoblok.Shared.{
  ℕ, ◌≤◌, ◌≡◌, refl, sym, ap, subst, ◌∙◌, inl, inr, true, none, [], ◌++◌, append-nil, append_assoc,
  Bytes, length, ◌==◌, Bool-cases, ==_iff,
}
use monoblok.Buffer.{Buf}
use monoblok.Buffer.Laws.{IsValid}
use monoblok.Router.State.{Conn, World, update, max_pending}

-- The output of a connection, extended by what one publish writes to it.
pub record Extends (old new : Buf) : Type 0 where
  pub valid : IsValid new
  pub bounded : length new.bytes ≤ max_pending
  pub rest : Bytes
  pub appended : new.bytes ≡ old.bytes ++ rest

-- A connection before and after. The output is spoken of where the router writes the frames itself.
pub record Evolves (old new : Conn) : Type 0 where
  pub measures : new.msg_len ≡ old.msg_len
  pub writes : new.write_msg ≡ old.write_msg
  pub stays_closed : old.closed ≡ true → new.closed ≡ true
  pub output :
      old.msg_len ≡ none
      → old.write_msg ≡ none
      → IsValid old.out
      → length old.out.bytes ≤ max_pending
      → Extends old.out new.out

-- The same output.
pub Extends-refl : (b : Buf) → IsValid b → length b.bytes ≤ max_pending → Extends b b
Extends-refl b v h = record {
  valid = v;
  bounded = h;
  rest = [];
  appended = sym (append-nil b.bytes);
}

pub Evolves-kept :
    (old new : Conn)
    → new.msg_len ≡ old.msg_len
    → new.write_msg ≡ old.write_msg
    → new.out ≡ old.out
    → (old.closed ≡ true → new.closed ≡ true)
    → Evolves old new
Evolves-kept old new p q r c = record {
  measures = p;
  writes = q;
  stays_closed = c;
  output = λ _ _ v h. rw r (Extends-refl old.out v h);
}

pub Evolves-refl : (c : Conn) → Evolves c c
Evolves-refl c = Evolves-kept c c refl refl refl (λ h. h)

pub Evolves-trans : (a b c : Conn) → Evolves a b → Evolves b c → Evolves a c
Evolves-trans a b c p q = record {
  measures = q.measures ∙ p.measures;
  writes = q.writes ∙ p.writes;
  stays_closed = λ h. q.stays_closed (p.stays_closed h);
  output = λ m w v h.
      let x = p.output m w v h in
      let y = q.output (p.measures ∙ m) (p.writes ∙ w) x.valid x.bounded in
      record {
        valid = y.valid;
        bounded = y.bounded;
        rest = x.rest ++ y.rest;
        appended =
            y.appended ∙ ap (λ z. z ++ y.rest) x.appended ∙ append_assoc a.out.bytes x.rest y.rest;
      };
}

-- Every connection of a store, before and after.
abbrev pub Evolved : World → World → Type 0
Evolved v w = (c : ℕ) → Evolves (v.conns c) (w.conns c)

pub Evolved-refl : (w : World) → Evolved w w
Evolved-refl w c = Evolves-refl (w.conns c)

pub Evolved-trans : (u v w : World) → Evolved u v → Evolved v w → Evolved u w
Evolved-trans u v w p q c = Evolves-trans (u.conns c) (v.conns c) (w.conns c) (p c) (q c)

-- One connection is changed.
pub update-Evolves :
    (conns : ℕ → Conn) (k : ℕ) (new : Conn)
    → Evolves (conns k) new
    → (c : ℕ) → Evolves (conns c) (update conns k new c)
update-Evolves conns k new h c = elim (Bool-cases (c == k)) [
  | inl e ↦ rw e (subst (λ j. Evolves (conns j) new) (sym ((==_iff c k).0 e)) h)
  | inr e ↦ rw e (Evolves-refl (conns c))
]
