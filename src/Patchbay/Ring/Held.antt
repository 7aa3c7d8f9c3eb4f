-- ===== src/Patchbay/Ring/Held.antt =====
-- What the operations of a ring do to the values and the times that it holds.
use native.Mathlib.Nat.{mod-lt, mod-eq_of_lt, mod-eq-sub-mod}
use monoblok.Shared.{
  ℕ, zero, suc, ◌+◌, ◌-◌, ◌%◌, ◌≤◌, ◌<◌, ◌≡◌, refl, sym, ap, ◌∙◌, List, [], ◌∷◌, ◌++◌, arith,
  length, set, drop, ltb, if◌then◌else◌, ltb→lt, lt→ltb, le→ltb, if-both, length-set,
}
use monoblok.Patchbay.Floats.{Floats}
use monoblok.Patchbay.Entry.{Ring}
use monoblok.Patchbay.Ring.{ring_slice, ring_push_count, held, held_times}
use monoblok.Patchbay.Ring.Slices.{
  length-ring_slice, ring_slice-set, ring_slice-push, ring_slice-next,
}

-- A ring that holds no more than its capacity, in an array as long as that, which starts inside it.
pub record IsValid (F : Floats) (r : Ring F.Num) : Type 0 where
  pub within : r.len ≤ r.cap
  pub begins : r.start ≤ r.cap - 1
  pub room : r.cap ≤ length r.values

-- A ring with times as well.
pub record IsTimed (F : Floats) (r : Ring F.Num) : Type 0 where
  pub valid : IsValid F r
  pub times_room : r.cap ≤ length r.times

-- The values that a window of `n` values holds after one more: the oldest goes if it was full.
pub slide {ℓ} : {A : Type ℓ} → ℕ → List A → A → List A
slide n xs x = if ltb (length xs) n then xs ++ x ∷ [] else drop 1 xs ++ x ∷ []

module _ (F : Floats) where
  pub length-held : (r : Ring F.Num) → length (held F r) ≡ r.len
  unfolding held
  length-held r = length-ring_slice (F.of_nat 0) r.values r.cap r.start 0 r.len

  pub length-held_times : (r : Ring F.Num) → length (held_times F r) ≡ r.len
  unfolding held_times
  length-held_times r = length-ring_slice 0 r.times r.cap r.start 0 r.len

  -- A full ring writes over its oldest value.
  full_slice {ℓ} :
      {A : Type ℓ} (z : A) (xs : List A) (cap start : ℕ) (x : A)
      → 0 < cap
      → start < cap
      → cap ≤ length xs
      → ring_slice z (set xs start x) cap ((start + 1) % cap) 0 cap
        ≡ drop 1 (ring_slice z xs cap start 0 cap) ++ x ∷ []
  unfolding ring_slice
  full_slice z xs zero start x p h l = elim p [ ]
  full_slice z xs (suc m) start x p h l =
      let round : start ≡ (start + (1 + m)) % suc m = sym (
        mod-eq-sub-mod {n = start + (1 + m)} {m = suc m} (omega arith)
        ∙ ap (λ k. k % suc m) (omega arith)
        ∙ mod-eq_of_lt h) in
      ring_slice-next z (set xs start x) (suc m) start 0 (suc m) p
      ∙ ring_slice-set z xs (suc m) start 1 m start x (omega arith) l round

  slide_more {ℓ} :
      {A : Type ℓ} (n : ℕ) (xs : List A) (x : A) → length xs < n → slide n xs x ≡ xs ++ x ∷ []
  unfolding slide
  slide_more n xs x h = rw (lt→ltb (length xs) n h) refl

  slide_full {ℓ} :
      {A : Type ℓ} (n : ℕ) (xs : List A) (x : A)
      → n ≤ length xs
      → slide n xs x ≡ drop 1 xs ++ x ∷ []
  unfolding slide
  slide_full n xs x h = rw (le→ltb (length xs) n h) refl

  -- A ring whose length is within its capacity, which is not 0, whose start lies inside, and whose
  -- array is as long as the capacity, is such a ring after `ring_push_count`, and holds the values
  -- that it held with the new one at the end and, where it was full, without the oldest.
  pub ring_push_count-held :
      (r : Ring F.Num) (x : F.Num)
      → IsValid F r
      → 0 < r.cap
      → IsValid F (ring_push_count F r x)
        × (held F (ring_push_count F r x) ≡ slide r.cap (held F r) x)
  unfolding ring_push_count held
  ring_push_count-held r x v p =
      let P : Ring F.Num → Type 0 = λ q. IsValid F q × (held F q ≡ slide r.cap (held F r) x) in
      if-both P (ltb r.len r.cap)
        (λ more.
          let h : r.len < r.cap = ltb→lt r.len r.cap more in
          let k = (r.start + r.len) % r.cap in
          (
            record {
              within = omega arith;
              begins = v.begins;
              room = omega (arith, v.room, length-set r.values k x);
            },
            ring_slice-push (F.of_nat 0) r.values r.cap r.start r.len x h v.room
                ∙ sym (slide_more r.cap (held F r) x (omega (arith, length-held r))),
          ))
        (λ full.
          let e : r.len ≡ r.cap = ground (arith, v.within) in
          (
            record {
              within = v.within;
              begins = omega (arith, mod-lt (r.start + 1) {m = r.cap} p);
              room = omega (arith, v.room, length-set r.values r.start x);
            },
            ap (ring_slice (F.of_nat 0) (set r.values r.start x) r.cap ((r.start + 1) % r.cap) 0) e
                ∙ full_slice (F.of_nat 0) r.values r.cap r.start x p (omega (arith, v.begins))
                    v.room
                ∙ ap (λ n. drop 1 (ring_slice (F.of_nat 0) r.values r.cap r.start 0 n) ++ x ∷ [])
                    (sym e)
                ∙ sym (slide_full r.cap (held F r) x (omega (arith, length-held r))),
          ))
