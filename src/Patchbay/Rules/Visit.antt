-- ===== src/Patchbay/Rules/Visit.antt =====
-- The rules that a publish evaluates are those whose filters match, in their order.
use monoblok.Shared.{
  ℕ, zero, suc, ◌+◌, ◌≤◌, ◌<◌, ◌≡◌, refl, ap, inl, inr, Bool, false, ◌&&◌, ◌||◌, List, [], ◌∷◌,
  arith, Bytes, length, All, size_max, Bool-cases, lt→ltb, le→ltb, if-both,
}
use monoblok.Patchbay.Rules.{first_ref, merge_refs}
use monoblok.Patchbay.Rules.Filed.{positions}

first_ref-positions :
    (p : Bytes → Bool) (i : ℕ) (fs : List Bytes)
    → i + length fs ≤ size_max
    → i ≤ first_ref (positions p i fs)
unfolding positions first_ref
first_ref-positions p i [] h = omega arith
first_ref-positions p i (f ∷ fs) h =
    if-both (λ is. i ≤ first_ref is) (p f) (λ _. omega arith)
      (λ _. omega (arith, first_ref-positions p (i + 1) fs (omega arith)))

-- The loop takes the rules of two lists in their order.
pub merge_refs-positions :
    (p q : Bytes → Bool) (i : ℕ) (fs : List Bytes) (rounds : ℕ)
    → rounds ≡ length (positions p i fs) + length (positions q i fs)
    → All (λ f. (p f && q f) ≡ false) fs
    → i + length fs ≤ size_max
    → merge_refs rounds (positions p i fs) (positions q i fs) ≡ positions (λ f. p f || q f) i fs
unfolding positions merge_refs first_ref
merge_refs-positions p q i [] zero e a h = refl
merge_refs-positions p q i [] (suc rounds) e a h = absurd (omega arith)
merge_refs-positions p q i (f ∷ fs) rounds e (d, a) h =
    let ps = positions p (i + 1) fs in
    let qs = positions q (i + 1) fs in
    let past_p = first_ref-positions p (i + 1) fs (omega arith) in
    let past_q = first_ref-positions q (i + 1) fs (omega arith) in
    let out = positions (λ f. p f || q f) (i + 1) fs in
    let later : (n : ℕ) → n ≡ length ps + length qs → merge_refs n ps qs ≡ out =
      λ n r. merge_refs-positions p q (i + 1) fs n r a (omega arith) in
    elim (Bool-cases (p f)) [
      | inl c ↦ elim (Bool-cases (q f)) [
        | inl c' ↦ absurd (ground arith)
        | inr c' ↦ rw (c, c') (take_left i ps qs rounds out (rw (c, c') at e) (omega arith) later)
      ]
      | inr c ↦ elim (Bool-cases (q f)) [
        | inl c' ↦ rw (c, c') (take_right i ps qs rounds out (rw (c, c') at e) (omega arith) later)
        | inr c' ↦ rw (c, c') (later rounds (rw (c, c') at e))
      ]
    ]
  where
    take_left :
        (i : ℕ) (ps qs : List ℕ) (rounds : ℕ) (out : List ℕ)
        → rounds ≡ length (i ∷ ps) + length qs
        → i < first_ref qs
        → ((n : ℕ) → n ≡ length ps + length qs → merge_refs n ps qs ≡ out)
        → merge_refs rounds (i ∷ ps) qs ≡ i ∷ out
    take_left i ps qs zero out e l h = absurd (omega arith)
    take_left i ps qs (suc n) out e l h =
        rw (lt→ltb i (first_ref qs) l) (ap (◌∷◌ i) (h n (omega arith)))

    take_right :
        (i : ℕ) (ps qs : List ℕ) (rounds : ℕ) (out : List ℕ)
        → rounds ≡ length ps + length (i ∷ qs)
        → i < first_ref ps
        → ((n : ℕ) → n ≡ length ps + length qs → merge_refs n ps qs ≡ out)
        → merge_refs rounds ps (i ∷ qs) ≡ i ∷ out
    take_right i ps qs zero out e l h = absurd (omega arith)
    take_right i ps qs (suc n) out e l h =
        rw (le→ltb (first_ref ps) i (omega arith)) (ap (◌∷◌ i) (h n (omega arith)))
