-- ===== src/Patchbay/Gates/Runs.antt =====
-- What the gates let through over a run of messages.
use monoblok.Shared.{
  ℕ, ◌+◌, ◌-◌, ◌^◌, ◌≤◌, ◌≡◌, refl, ap₂, inl, inr, Bool, true, false, not, ◌&&◌, ◌||◌, Option, none,
  some, List, [], ◌∷◌, map, arith, All, ltb, leb, ◌==◌, if◌then◌else◌, Bool-cases, ltb→lt, ltb→le,
}
use monoblok.Patchbay.Floats.{Floats}
use monoblok.Patchbay.Value.{Value, nil, boolean, Result, ok}
use monoblok.Patchbay.Entry.{empty, number_kind, Entry}
use monoblok.Patchbay.Slot.{Outcome, passes, suppresses}
use monoblok.Patchbay.Gates.{
  is_empty, is_number, keep_number, flag, flagged, hold_off_step, edge_step,
}

-- The results of a form over a run of inputs, which share an entry.
unfoldable pub run {ℓ} :
    {A : Type ℓ} {N : Type 0} → (A → Entry N → Outcome N) → List A → Entry N → List (Result N)
run step [] e = []
run step (x ∷ xs) e = let o = step x e in o.result ∷ run step xs o.entry

-- What is known of floating-point numbers: the integers up to `2 ^ 53` are exact.
pub record ExactIntegers (F : Floats) : Type 0 where
  pub lt_exact : (a b : ℕ) → a ≤ 2 ^ 53 → b ≤ 2 ^ 53 → F.lt (F.of_nat a) (F.of_nat b) ≡ ltb a b
  pub eq_exact : (a b : ℕ) → a ≤ 2 ^ 53 → b ≤ 2 ^ 53 → F.eq (F.of_nat a) (F.of_nat b) ≡ (a == b)
  pub add_exact : (a b : ℕ) → a + b ≤ 2 ^ 53 → F.add (F.of_nat a) (F.of_nat b) ≡ F.of_nat (a + b)
  pub sub_exact :
      (a b : ℕ) → b ≤ a → a ≤ 2 ^ 53 → F.sub (F.of_nat a) (F.of_nat b) ≡ F.of_nat (a - b)

-- Whether `hold-off` lets a message through: the time of the last that passed, and the time of this.
unfoldable pub spaced : ℕ → Option ℕ → ℕ → Bool
spaced window none now = true
spaced window (some last) now = leb (last + window) now

-- Which of the messages at the times `ts` pass.
unfoldable pub reference_hold_off : ℕ → Option ℕ → List ℕ → List Bool
reference_hold_off window last [] = []
reference_hold_off window last (t ∷ ts) =
    spaced window last t
    ∷ reference_hold_off window (if spaced window last t then some t else last) ts

-- Whether a condition is the edge that is looked for, after the one before.
pub is_edge : Bool → Option Bool → Bool → Bool
is_edge rising none b = false
is_edge true (some prev) b = not prev && b
is_edge false (some prev) b = prev && not b

-- Which of the conditions are an edge.
pub reference_edges : Bool → Option Bool → List Bool → List Bool
reference_edges rising prev [] = []
reference_edges rising prev (b ∷ bs) = is_edge rising prev b ∷ reference_edges rising (some b) bs

module _ (F : Floats) where
  -- The results of a gate: the value where it passes, nil where it does not.
  unfoldable pub passed : Value F.Num → Bool → Result F.Num
  passed v b = ok (if b then v else nil)

  -- The entry of `hold-off` and of an edge.
  pub data Holds : Option ℕ → Entry F.Num → Type 0 where
    fresh : (e : Entry F.Num) → e.kind ≡ empty → Holds none e
    since :
        (e : Entry F.Num) (t : ℕ)
        → t ≤ 2 ^ 53
        → e.kind ≡ number_kind
        → e.number ≡ F.of_nat t
        → Holds (some t) e

  -- The test of `hold-off`, where the numbers are exact.
  hold_off_test :
      (x : ExactIntegers F) (window t now : ℕ)
      → t ≤ 2 ^ 53
      → window ≤ 2 ^ 53
      → now ≤ 2 ^ 53
      → (F.lt (F.of_nat now) (F.of_nat t)
          || F.lt (F.sub (F.of_nat now) (F.of_nat t)) (F.of_nat window))
        ≡ not (leb (t + window) now)
  hold_off_test x window t now b w n =
      let early : F.lt (F.of_nat now) (F.of_nat t) ≡ ltb now t = x.lt_exact now t n b in
      elim (Bool-cases (ltb now t)) [
        | inl h ↦ ground (arith, early, h, ltb→lt now t h)
        | inr h ↦
            let le : t ≤ now = ltb→le now t h in
            let gap = x.sub_exact now t le n in
            let late = x.lt_exact (now - t) window (omega arith) w in
            rw (early, h, gap, late) (ground (arith, le))
      ]

  pub hold_off_step-Holds :
      (x : ExactIntegers F) (window : ℕ) (last : Option ℕ) (now : ℕ) (v : Value F.Num)
      (e : Entry F.Num)
      → Holds last e
      → window ≤ 2 ^ 53
      → now ≤ 2 ^ 53
      → ((hold_off_step F (F.of_nat window) now v e).result ≡ passed v (spaced window last now))
        × Holds
            (if spaced window last now then some now else last)
            (hold_off_step F (F.of_nat window) now v e).entry
  unfolding hold_off_step spaced passed is_empty is_number passes suppresses keep_number
  hold_off_step-Holds x window none now v e (fresh _ q) w n =
      rw q (refl, since (keep_number F e (F.of_nat now)) now n refl refl)
  hold_off_step-Holds x window (some t) now v e (since _ _ b k q) w n =
      let test = hold_off_test x window t now b w n in
      elim (Bool-cases (leb (t + window) now)) [
        | inl c ↦ rw (k, q, test, c) (refl, since _ now n refl refl)
        | inr c ↦ rw (k, q, test, c) (refl, since _ t b refl refl)
      ]

  -- Where integers up to 2^53 are exact and the window and the times are such integers, `hold-off`
  -- lets through, of a run of messages at the times `ts`, exactly those that the reference does:
  -- the first, and then each that is at least the window after the last that passed. `last` is the
  -- one that passed before the run, if any, which the entry holds.
  pub run-hold_off :
      (x : ExactIntegers F) (window : ℕ) (v : Value F.Num) (ts : List ℕ) (last : Option ℕ)
      (e : Entry F.Num)
      → Holds last e
      → window ≤ 2 ^ 53
      → All (λ t. t ≤ 2 ^ 53) ts
      → run (λ t. hold_off_step F (F.of_nat window) t v) ts e
        ≡ map (passed v) (reference_hold_off window last ts)
  unfolding run reference_hold_off
  run-hold_off x window v [] last e h w a = refl
  run-hold_off x window v (t ∷ ts) last e h w (n, a) =
      let (r, h') = hold_off_step-Holds x window last t v e h w n in
      let next = if spaced window last t then some t else last in
      ap₂ ◌∷◌ r
        (run-hold_off x window v ts next (hold_off_step F (F.of_nat window) t v e).entry h' w a)

  -- The entry of an edge.
  pub data HoldsFlag : Option Bool → Entry F.Num → Type 0 where
    no_flag : (e : Entry F.Num) → e.kind ≡ empty → HoldsFlag none e
    the_flag :
        (e : Entry F.Num) (b : Bool)
        → e.kind ≡ number_kind
        → e.number ≡ flag F b
        → HoldsFlag (some b) e

  flagged-flag : (x : ExactIntegers F) (b : Bool) → flagged F (flag F b) ≡ b
  unfolding flagged flag
  flagged-flag x true = rw (x.eq_exact 1 0 (omega arith) (omega arith)) refl
  flagged-flag x false = rw (x.eq_exact 0 0 (omega arith) (omega arith)) refl

  edge_step-HoldsFlag :
      (x : ExactIntegers F) (rising : Bool) (prev : Option Bool) (b : Bool) (e : Entry F.Num)
      → HoldsFlag prev e
      → ((edge_step F rising b e).result ≡ passed (boolean true) (is_edge rising prev b))
        × HoldsFlag (some b) (edge_step F rising b e).entry
  unfolding edge_step is_edge passed is_empty is_number passes suppresses keep_number
  edge_step-HoldsFlag x rising none b e (no_flag _ q) = rw q (refl, the_flag _ b refl refl)
  edge_step-HoldsFlag x true (some prev) b e (the_flag _ _ k q) =
      elim (Bool-cases (not prev && b)) [
        | inl c ↦ rw (k, q, flagged-flag x prev, c) (refl, the_flag _ b refl refl)
        | inr c ↦ rw (k, q, flagged-flag x prev, c) (refl, the_flag _ b refl refl)
      ]
  edge_step-HoldsFlag x false (some prev) b e (the_flag _ _ k q) =
      elim (Bool-cases (prev && not b)) [
        | inl c ↦ rw (k, q, flagged-flag x prev, c) (refl, the_flag _ b refl refl)
        | inr c ↦ rw (k, q, flagged-flag x prev, c) (refl, the_flag _ b refl refl)
      ]

  -- Where integers up to 2^53 are exact, over a run of conditions `rising-edge` (`rising` is true)
  -- and `falling-edge` answer true at exactly the edges, and nil at the others and at the first
  -- condition; the entry holds the condition before the run, if any.
  pub run-edge :
      (x : ExactIntegers F) (rising : Bool) (bs : List Bool) (prev : Option Bool) (e : Entry F.Num)
      → HoldsFlag prev e
      → run (edge_step F rising) bs e ≡ map (passed (boolean true)) (reference_edges rising prev bs)
  unfolding run reference_edges
  run-edge x rising [] prev e h = refl
  run-edge x rising (b ∷ bs) prev e h =
      let (r, h') = edge_step-HoldsFlag x rising prev b e h in
      ap₂ ◌∷◌ r (run-edge x rising bs (some b) (edge_step F rising b e).entry h')
