-- ===== src/Router/Match/Relation.antt =====
-- What it is for a subject to match a filter, and that `subject_matches` decides it.
use monoblok.Shared.{
  ℕ, zero, suc, ◌+◌, ◌<◌, ◌≡◌, refl, sym, ap, subst, ◌∙◌, ◌≢◌, ◌↔◌, ◌⊎◌, inl, inr, Bool, true,
  false, not, ◌&&◌, Option, none, some, List, [], ◌∷◌, arith, Bytes, length, ◌==◌, if◌then◌else◌,
  Bool-cases, ==_iff,
}
use monoblok.Slice.{slice_eq, slice_eq_iff}
use monoblok.Proto.Subjects.{is_byte}
use monoblok.Subject.{tokens, star, tail, split_at_dot}
use monoblok.Subject.Tokens.{Split, last, more, split_at_dot-Split, tokens-ne-nil, length-tokens-le}
use monoblok.Proto.Subjects.Grammar.{
  TokenAllowed, literal, one, rest, TokensAllowed, ValidSubject, TokensAllowed-cons, WildcardFree,
}
use monoblok.Router.Match.{
  Cursor, past_end, next_subject_token, match_subject, match_round, match_from, subject_matches,
  some, Bool, Option, not, false, is_byte, length, true, slice_eq, first_token,
}

-- A filter, by its tokens, against the tokens of a subject. `>` takes what is left, also where
-- nothing is.
pub data Matches : List Bytes → List Bytes → Type 0 where
  done : Matches [] []
  tail_matches : {f : Bytes} {ts : List Bytes} → f ≡ tail → Matches (f ∷ []) ts
  star_matches :
      {f t : Bytes} {fs ts : List Bytes} → f ≡ star → Matches fs ts → Matches (f ∷ fs) (t ∷ ts)
  same_matches :
      {f t : Bytes} {fs ts : List Bytes} → f ≡ t → Matches fs ts → Matches (f ∷ fs) (t ∷ ts)

-- The tokens from a position on.
abbrev cursor_tokens : Cursor → List Bytes
cursor_tokens none = []
cursor_tokens (some s) = tokens s

-- What stands at a position of a valid filter or subject.
abbrev CursorAllowed : Bool → Cursor → Type 0
CursorAllowed allow none = Unit
CursorAllowed allow (some s) = TokensAllowed allow (tokens s)

TokenAllowed-ne-nil :
    {allow ends : Bool} {t : Bytes} → TokenAllowed allow t ends → (length t == 0) ≡ false
TokenAllowed-ne-nil {t = []} (literal h) = absurd (h.0 refl)
TokenAllowed-ne-nil {t = c ∷ t} (literal h) = ground arith
TokenAllowed-ne-nil (one e _) = rw e
TokenAllowed-ne-nil (rest e _ _) = rw e

-- A scan at a valid position: it is past the end, or it takes off a token.
data Scan (allow : Bool) : Cursor → Option (Bytes × Cursor) → Type 0 where
  ended : Scan allow none none
  took :
      {c : Cursor} (next : Cursor) (t : Bytes)
      → cursor_tokens c ≡ t ∷ cursor_tokens next
      → TokenAllowed allow t (past_end next)
      → CursorAllowed allow next
      → Scan allow c (some (t, next))

Scan-Split :
    (allow : Bool) (s : Bytes) (p : Bytes × Option Bytes)
    → Split s p
    → TokensAllowed allow (tokens s)
    → Scan allow (some s) (if length p.0 == 0 then none else some p)
Scan-Split allow s _ (last t ts _) h =
    let a : TokenAllowed allow t true = subst (TokensAllowed allow) ts h in
    rw (TokenAllowed-ne-nil a) (took none t ts a tt)
Scan-Split allow s _ (more t r ts _ _) h =
    let (a, b) =
      (TokensAllowed-cons allow t (tokens r) (tokens-ne-nil r)).1
        (subst (TokensAllowed allow) ts h) in
    rw (TokenAllowed-ne-nil a) (took (some r) t ts a b)

scan : (allow : Bool) (c : Cursor) → CursorAllowed allow c → Scan allow c (next_subject_token c)
unfolding next_subject_token
scan allow none h = ended
scan allow (some s) h = Scan-Split allow s (split_at_dot s) (split_at_dot-Split s) h

-- The rules read backwards.
Matches-nil : {ts : List Bytes} → Matches [] ts → ts ≡ []
Matches-nil done = refl

data Cons (f : Bytes) (fs ts : List Bytes) : Type 0 where
  by_tail : f ≡ tail → fs ≡ [] → Cons f fs ts
  by_token :
      (t : Bytes) (us : List Bytes)
      → ts ≡ t ∷ us
      → (f ≡ star) ⊎ (f ≡ t)
      → Matches fs us
      → Cons f fs ts

Matches-Cons : {f : Bytes} {fs ts : List Bytes} → Matches (f ∷ fs) ts → Cons f fs ts
Matches-Cons (tail_matches e) = by_tail e refl
Matches-Cons (star_matches {t = t} {ts = ts} e m) = by_token t ts refl (inl e) m
Matches-Cons (same_matches {t = t} {ts = ts} e m) = by_token t ts refl (inr e) m

pub is_byte_iff : (c : ℕ) (t : Bytes) → (is_byte c t ≡ true) ↔ (t ≡ c ∷ [])
unfolding is_byte
is_byte_iff c [] = (λ h. cc, λ h. cc)
is_byte_iff c (d ∷ []) = (λ h. ap (λ x. x ∷ []) ((==_iff d c).0 h), λ h. ground arith)
is_byte_iff c (d ∷ e ∷ t) = (λ h. cc, λ h. cc)

-- The test of a round of the loop against the rule for a token.
accepts_iff :
    (f t : Bytes) → ((not (is_byte b'*' f) && not (slice_eq f t)) ≡ false) ↔ ((f ≡ star) ⊎ (f ≡ t))
accepts_iff f t = (
  λ h. elim (Bool-cases (is_byte b'*' f)) [
    | inl y ↦ inl ((is_byte_iff b'*' f).0 y)
    | inr n ↦ inr ((slice_eq_iff f t).0 (ground arith))
  ],
  λ h. elim h [
    | inl e ↦ ground (arith, (is_byte_iff b'*' f).1 e)
    | inr e ↦ ground (arith, (slice_eq_iff f t).1 e)
  ],
)

module _ (continue : Cursor → Cursor → Bool) (fp : Cursor)
    (goes : (sp : Cursor)
      → CursorAllowed false sp
      → (continue fp sp ≡ true) ↔ Matches (cursor_tokens fp) (cursor_tokens sp)) where
  -- The part of a round that scans the subject, at a token `f` of the filter that is not `>`.
  match_subject_iff :
      (f : Bytes) (sp : Cursor) (o : Option (Bytes × Cursor))
      → f ≢ tail
      → Scan false sp o
      → (match_subject continue f fp o ≡ true) ↔ Matches (f ∷ cursor_tokens fp) (cursor_tokens sp)
  unfolding match_subject
  match_subject_iff f _ _ n ended = (
    λ h. cc,
    λ m. elim (Matches-Cons m) [ by_tail e _ ↦ absurd (n e) | by_token t us e _ _ ↦ cc ],
  )
  match_subject_iff f sp _ n (took next t e _ b) = rw e (
    λ h.
        let refused = not (is_byte b'*' f) && not (slice_eq f t) in
        let h' : ((if refused then false else continue fp next) ≡ true) = h in
        let open_lane : refused ≡ false = ground arith in
        step ((accepts_iff f t).0 open_lane) ((goes next b).0 (ground arith)),
    λ m. back (Matches-Cons m),
  )
    where
      step :
          (f ≡ star) ⊎ (f ≡ t)
          → Matches (cursor_tokens fp) (cursor_tokens next)
          → Matches (f ∷ cursor_tokens fp) (t ∷ cursor_tokens next)
      step (inl s) m = star_matches s m
      step (inr s) m = same_matches s m

      back :
          Cons f (cursor_tokens fp) (t ∷ cursor_tokens next)
          → (if not (is_byte b'*' f) && not (slice_eq f t) then false else continue fp next) ≡ true
      back (by_tail s _) = absurd (n s)
      back (by_token u us q o m) =
          let o' : (f ≡ star) ⊎ (f ≡ t) = subst (λ w. (f ≡ star) ⊎ (f ≡ w)) (cc) o in
          let m' : Matches (cursor_tokens fp) (cursor_tokens next) =
            subst (Matches (cursor_tokens fp)) (cc) m in
          rw ((accepts_iff f t).1 o') ((goes next b).1 m')

-- A round of the loop, on what the scan of the filter returns.
module _ (continue : Cursor → Cursor → Bool) (sp : Cursor) (h : CursorAllowed false sp) where
  match_ended : (past_end sp ≡ true) ↔ Matches [] (cursor_tokens sp)
  match_ended = go sp
    where
      go : (c : Cursor) → (past_end c ≡ true) ↔ Matches [] (cursor_tokens c)
      go none = (λ _. done, λ _. refl)
      go (some s) = (λ e. cc, λ m. absurd (tokens-ne-nil s (Matches-nil m)))

  match_tail :
      (f : Bytes) (next : Cursor)
      → f ≡ tail
      → TokenAllowed true f (past_end next)
      → (past_end next ≡ true) ↔ Matches (f ∷ cursor_tokens next) (cursor_tokens sp)
  match_tail f none e a = (λ _. tail_matches e, λ _. refl)
  match_tail f (some r) e (literal l) = absurd ((subst WildcardFree e l.1).0.1 refl)
  match_tail f (some r) e (one s _) = let q : star ≡ tail = sym s ∙ e in absurd (ground arith)
  match_tail f (some r) e (rest _ _ q) = cc

  match_round_iff :
      (fp : Cursor) (o : Option (Bytes × Cursor))
      → Scan true fp o
      → ((next sq : Cursor)
          → length (cursor_tokens next) < length (cursor_tokens fp)
          → CursorAllowed true next
          → CursorAllowed false sq
          → (continue next sq ≡ true) ↔ Matches (cursor_tokens next) (cursor_tokens sq))
      → (match_round continue sp o ≡ true) ↔ Matches (cursor_tokens fp) (cursor_tokens sp)
  unfolding match_round
  match_round_iff _ _ ended ih = match_ended
  match_round_iff fp _ (took next f e a b) ih = elim (Bool-cases (is_byte b'>' f)) [
    | inl t ↦ rw (e, t) (match_tail f next ((is_byte_iff b'>' f).0 t) a)
    | inr n ↦
        rw (e, n)
          (match_subject_iff continue next (λ sq. ih next sq (rw e (omega arith)) b) f sp
            (next_subject_token sp) (λ q. cc (n, (is_byte_iff b'>' f).1 q)) (scan false sp h))
  ]

match_from_iff :
    (fuel : ℕ) (fp sp : Cursor)
    → length (cursor_tokens fp) < fuel
    → CursorAllowed true fp
    → CursorAllowed false sp
    → (match_from fuel fp sp ≡ true) ↔ Matches (cursor_tokens fp) (cursor_tokens sp)
unfolding match_from
match_from_iff zero fp sp l a b = absurd (omega arith)
match_from_iff (suc fuel) fp sp l a b =
    match_round_iff (match_from fuel) sp b fp (next_subject_token fp) (scan true fp a)
      λ next sq m. match_from_iff fuel next sq (omega arith)

-- On a valid filter and a valid subject `subject_matches` decides the relation `Matches` on their
-- tokens.
pub subject_matches_iff :
    (filter subject : Bytes)
    → ValidSubject true filter
    → ValidSubject false subject
    → (subject_matches filter subject ≡ true) ↔ Matches (tokens filter) (tokens subject)
unfolding subject_matches
subject_matches_iff filter subject v w =
    match_from_iff (length filter + 2) (some filter) (some subject)
      (omega (arith, length-tokens-le filter)) v.1 w.1

-- The first token of a valid subject heads its tokens.
pub tokens-first_token :
    (allow : Bool) (s : Bytes)
    → ValidSubject allow s
    → (ts : List Bytes) × (tokens s ≡ first_token s ∷ ts)
unfolding first_token
tokens-first_token allow s v = go (next_subject_token (some s)) refl (scan allow (some s) v.1)
  where
    go :
        (o : Option (Bytes × Cursor))
        → next_subject_token (some s) ≡ o
        → Scan allow (some s) o
        → (ts : List Bytes) × (tokens s ≡ first_token s ∷ ts)
    go _ q (took next t e _ _) = (cursor_tokens next, rw (q, first_token) e)
