-- ===== src/Patchbay/Ring/Slices.antt =====
-- The elements of a ring under the writes and moves that the operations make.
use native.Mathlib.Nat.{mod-add-mod, mod-eq_of_lt, mod-eq-sub-mod, mod-lt}
use monoblok.Shared.{
  ℕ, zero, suc, ◌+◌, ◌-◌, ◌*◌, ◌/◌, ◌%◌, ◌^◌, ◌≤◌, ◌<◌, ◌≡◌, refl, sym, ap, ap₂, subst, ◌∙◌, ◌≢◌,
  inl, inr, List, [], ◌∷◌, ◌++◌, append-nil, append_assoc, arith, length, set, take, replicate, ltb,
  size_max, Bool-cases, ltb→lt, ltb→le, length-append, take-append, get_elem?-set_self,
  get_elem?-length, get_elem?-set_ne, length-replicate,
}
use monoblok.Patchbay.Ring.{elem_or, elem, ring_index, ring_slice, new_array}

-- Fewer than `cap` steps do not come back to the same place.
step-mod-ne : (cap h k : ℕ) → h < cap → suc k < cap → (h + suc k) % cap ≢ h
step-mod-ne cap h k hh hk = elim (Bool-cases (ltb (h + suc k) cap)) [
  | inl p ↦ omega (arith, mod-eq_of_lt (ltb→lt (h + suc k) cap p))
  | inr p ↦ omega (
    arith,
    ltb→le (h + suc k) cap p,
    mod-eq-sub-mod {n = h + suc k} {m = cap} (ltb→le (h + suc k) cap p),
    mod-eq_of_lt {n = h + suc k - cap} {m = cap} (omega (arith, ltb→le (h + suc k) cap p)),
  )
]

pub index-ne : (cap start i d : ℕ) → suc d < cap → (start + (i + suc d)) % cap ≢ (start + i) % cap
index-ne cap start i d h e =
    step-mod-ne cap ((start + i) % cap) d (mod-lt (start + i) (omega arith)) h
      (mod-add-mod (start + i) cap (suc d) ∙ ap (λ k. k % cap) (omega arith) ∙ e)

pub ring_index-pos : (cap start i : ℕ) → 0 < cap → ring_index cap start i ≡ (start + i) % cap
unfolding ring_index
ring_index-pos cap start i h = ground arith

pub index-next :
    (cap start i : ℕ)
    → 0 < cap
    → ring_index cap ((start + 1) % cap) i ≡ ring_index cap start (i + 1)
index-next cap start i h =
    ring_index-pos cap ((start + 1) % cap) i h
    ∙ mod-add-mod (start + 1) cap i
    ∙ ap (λ k. k % cap) (omega arith)
    ∙ sym (ring_index-pos cap start (i + 1) h)

module _ {ℓ} {A : Type ℓ} (z : A) where
  elem-set_self : (xs : List A) (k : ℕ) (v : A) → k < length xs → elem z (set xs k v) k ≡ v
  unfolding elem elem_or
  elem-set_self xs k v h = ap (elem_or z) (get_elem?-set_self xs k v h)

  elem-set_ne : (xs : List A) (k j : ℕ) (v : A) → k ≢ j → elem z (set xs k v) j ≡ elem z xs j
  unfolding elem elem_or
  elem-set_ne xs k j v h = ap (elem_or z) (get_elem?-set_ne xs k j v h)

  pub length-ring_slice :
      (xs : List A) (cap start i n : ℕ) → length (ring_slice z xs cap start i n) ≡ n
  unfolding ring_slice
  length-ring_slice xs cap start i zero = refl
  length-ring_slice xs cap start i (suc n) = ap suc (length-ring_slice xs cap start (i + 1) n)

  -- A write just past a slice extends it.
  pub ring_slice-set :
      (xs : List A) (cap start i n k : ℕ) (v : A)
      → n < cap
      → cap ≤ length xs
      → k ≡ (start + (i + n)) % cap
      → ring_slice z (set xs k v) cap start i (suc n) ≡ ring_slice z xs cap start i n ++ v ∷ []
  unfolding ring_slice
  ring_slice-set xs cap start i zero k v h l e =
      let q : k ≡ (start + i) % cap = e ∙ ap (λ m. (start + m) % cap) (omega arith) in
      let b : k < length xs = omega (arith, q, mod-lt (start + i) {m = cap} (omega arith)) in
      ap (λ y. y ∷ [])
        (ap (elem z (set xs k v)) (ring_index-pos cap start i (omega arith) ∙ sym q)
          ∙ elem-set_self xs k v b)
  ring_slice-set xs cap start i (suc n) k v h l e =
      ap₂ ◌∷◌
        (elem-set_ne xs k (ring_index cap start i) v
          (λ r. index-ne cap start i n h (sym e ∙ r ∙ ring_index-pos cap start i (omega arith))))
        (ring_slice-set xs cap start (i + 1) n k v (omega arith) l
          (e ∙ ap (λ m. (start + m) % cap) (omega arith)))

  pub ring_slice-push :
      (xs : List A) (cap start n : ℕ) (v : A)
      → n < cap
      → cap ≤ length xs
      → ring_slice z (set xs ((start + n) % cap) v) cap start 0 (n + 1)
        ≡ ring_slice z xs cap start 0 n ++ v ∷ []
  ring_slice-push xs cap start n v h l =
      ap (ring_slice z (set xs ((start + n) % cap) v) cap start 0) (omega arith)
      ∙ ring_slice-set xs cap start 0 n ((start + n) % cap) v h l
          (ap (λ m. (start + m) % cap) (omega arith))

  -- The start moves by one.
  pub ring_slice-next :
      (xs : List A) (cap start i n : ℕ)
      → 0 < cap
      → ring_slice z xs cap ((start + 1) % cap) i n ≡ ring_slice z xs cap start (i + 1) n
  unfolding ring_slice
  ring_slice-next xs cap start i zero h = refl
  ring_slice-next xs cap start i (suc n) h =
      ap₂ ◌∷◌ (ap (elem z xs) (index-next cap start i h)) (ring_slice-next xs cap start (i + 1) n h)

  -- Elements that stand from a place on in an array whose ring starts at 0.
  ring_slice-inside :
      (before ys after : List A) (cap : ℕ)
      → length before + length ys ≤ cap
      → ring_slice z (before ++ (ys ++ after)) cap 0 (length before) (length ys) ≡ ys
  unfolding ring_slice elem elem_or
  ring_slice-inside before [] after cap h = refl
  ring_slice-inside before (y ∷ ys) after cap h =
      let at : ring_index cap 0 (length before) ≡ length before =
        ring_index-pos cap 0 (length before) (omega arith)
        ∙ ap (λ k. k % cap) (omega arith)
        ∙ mod-eq_of_lt (omega arith) in
      ap₂ ◌∷◌
        (ap (elem z (before ++ y ∷ (ys ++ after))) at
          ∙ ap (elem_or z) (get_elem?-length before (ys ++ after) y))
        (subst (λ n. ring_slice z (before ++ y ∷ (ys ++ after)) cap 0 n (length ys) ≡ ys)
          (length-append before (y ∷ []))
          (subst (λ xs. ring_slice z xs cap 0 (length (before ++ y ∷ [])) (length ys) ≡ ys)
            (append_assoc before (y ∷ []) (ys ++ after))
            (ring_slice-inside (before ++ y ∷ []) ys after cap
              (omega (arith, length-append before (y ∷ []))))))

  pub new_array-eq :
      (ys : List A) (cap : ℕ)
      → length ys ≤ cap
      → cap * 8 ≤ size_max
      → new_array z ys cap ≡ ys ++ replicate (cap - length ys) z
  unfolding new_array
  new_array-eq ys cap h s =
      let room : cap * 8 % 2 ^ 64 / 8 ≡ cap = omega arith in
      let n : length (ys ++ replicate (cap - length ys) z) ≡ cap = omega (
        arith,
        length-append ys (replicate (cap - length ys) z),
        length-replicate (cap - length ys) z,
      ) in
      ap (λ m. take m (ys ++ replicate (m - length ys) z)) room
      ∙ ap (λ m. take m (ys ++ replicate (cap - length ys) z)) (sym n)
      ∙ ap (take (length (ys ++ replicate (cap - length ys) z)))
          (sym (append-nil (ys ++ replicate (cap - length ys) z)))
      ∙ take-append (ys ++ replicate (cap - length ys) z) []

  pub ring_slice-new_array :
      (ys : List A) (cap : ℕ)
      → length ys ≤ cap
      → cap * 8 ≤ size_max
      → ring_slice z (new_array z ys cap) cap 0 0 (length ys) ≡ ys
  ring_slice-new_array ys cap h s =
      ap (λ xs. ring_slice z xs cap 0 0 (length ys)) (new_array-eq ys cap h s)
      ∙ ring_slice-inside [] ys (replicate (cap - length ys) z) cap (omega arith)
