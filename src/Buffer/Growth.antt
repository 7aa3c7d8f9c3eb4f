-- ===== src/Buffer/Growth.antt =====
-- The doubling loop of array.c and buf.c ends by its test.
use native.Mathlib.Nat.{pow-suc, le-div_iff_mul-le}
use monoblok.Shared.{
  ℕ, zero, suc, ◌*◌, ◌^◌, ◌≤◌, ◌<◌, ◌≡◌, refl, arith, size_max, Bool, some, ltb, Bool-cases, inl,
  inr, if◌then◌else◌, ◌/◌, ◌≢◌, ◌==◌,
}
use monoblok.Buffer.{double_until, array_reserve}

pub pow_step : (n k : ℕ) → n * 2 ^ suc k ≡ n * 2 * 2 ^ k
pow_step n k = rw pow-suc (omega arith)

-- With `fuel` rounds left the loop reaches what is asked, if doubling that often passes SIZE_MAX.
pub le-double_until :
    (fuel next needed : ℕ)
    → needed ≤ size_max
    → 2 ^ 64 ≤ next * 2 ^ fuel
    → needed ≤ double_until fuel next needed
unfolding double_until
le-double_until zero next needed h p = omega arith
le-double_until (suc fuel) next needed h p =
    let ih = le-double_until fuel (next * 2) needed h (omega (arith, pow_step next fuel)) in
    ground (arith, ih)

-- The loop never shrinks the capacity, and it never leaves `size_t`.
pub double_until_bounds :
    (fuel next needed : ℕ)
    → needed ≤ size_max
    → next ≤ size_max
    → (next ≤ double_until fuel next needed) × (double_until fuel next needed ≤ size_max)
unfolding double_until
double_until_bounds zero next needed h p = (omega arith, omega arith)
double_until_bounds (suc fuel) next needed h p = elim (Bool-cases (ltb (size_max / 2) next)) [
  | inl big ↦ ground arith
  | inr small ↦ ground (arith, double_until_bounds fuel (next * 2) needed h (ground arith))
]

-- What the loop leaves when it is called as array.c and buf.c call it.
pub grown_bounds :
    (start needed : ℕ)
    → 0 < start
    → needed ≤ size_max
    → start ≤ size_max
    → (needed ≤ double_until 64 start needed)
      × (start ≤ double_until 64 start needed)
      × (double_until 64 start needed ≤ size_max)
grown_bounds start needed z h p =
    let (up, in_range) = double_until_bounds 64 start needed h p in
    (le-double_until 64 start needed h (omega arith), up, in_range)

div_bound : (n d : ℕ) → d ≢ 0 → n ≤ size_max / d → n * d ≤ size_max
div_bound n d z h = (le-div_iff_mul-le {k = d} {x = n} {y = size_max} (omega arith)).0 h

-- An array of elements of some size has no more elements than bytes.
le_of_mul : (n d : ℕ) → d ≢ 0 → n * d ≤ size_max → n ≤ size_max
le_of_mul n zero z h = absurd (z refl)
le_of_mul n (suc d) z h = grind arith

-- Where the number of elements asked and the initial capacity are within SIZE_MAX, and so is the
-- byte size of the array, `mb_array_reserve`, if not refused, leaves at least the capacity that is
-- asked and the one that was there, and the byte size stays within SIZE_MAX.
pub array_reserve_bounds :
    (alloc : ℕ → Bool) (cap needed elem_size initial_cap : ℕ) {next : ℕ}
    → needed ≤ size_max
    → initial_cap ≤ size_max
    → cap * elem_size ≤ size_max
    → array_reserve alloc cap needed elem_size initial_cap ≡ some next
    → (needed ≤ next) × (cap ≤ next) × (next * elem_size ≤ size_max)
unfolding array_reserve
array_reserve_bounds alloc cap needed elem_size initial_cap {next} h p q e =
    let start = if cap == 0 then initial_cap else cap in
    let first = if start == 0 then 1 else start in
    ground (
      arith,
      grown_bounds first needed,
      div_bound (double_until 64 first needed) elem_size,
      le_of_mul cap elem_size,
    )
