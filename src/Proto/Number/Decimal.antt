-- ===== src/Proto/Number/Decimal.antt =====
-- Printed numbers: their length, and that reading gives them back.
use monoblok.Shared.{
  ℕ, zero, suc, ◌+◌, ◌/◌, ◌%◌, ◌^◌, ◌≤◌, ◌<◌, ◌≡◌, refl, ◌∙◌, ◌≢◌, inl, inr, false, some, [], ◌∷◌,
  arith, Bytes, length, ltb, ◌==◌, size_max, Bool-cases, ==_iff, ltb→lt,
}
use native.Mathlib.Nat.{pow-suc}
use monoblok.Proto.Number.{
  digits_from, parse_usize, decimal_from, decimal, decimal_len_from, decimal_len,
}

ten_step : (n f : ℕ) → n < 10 ^ suc f → n / 10 < 10 ^ f
ten_step n f h = let e = pow-suc 10 f in omega arith

below_ten : (n : ℕ) → n < 10 ^ 0 → n ≡ 0
below_ten n h = omega arith

decimal_from-zero : (room : ℕ) (tmp : Bytes) → decimal_from room 0 tmp ≡ tmp
unfolding decimal_from
decimal_from-zero zero tmp = refl
decimal_from-zero (suc room) tmp = refl

-- The last digit to be written.
decimal_from_digit :
    (room n : ℕ) (tmp : Bytes)
    → n ≢ 0
    → n < 10
    → decimal_from (suc room) n tmp ≡ (b'0' + n % 10) ∷ tmp
unfolding decimal_from
decimal_from_digit room n tmp z h =
    let none_left : n / 10 ≡ 0 = omega arith in
    let not_zero : (n == 0) ≡ false = ground arith in
    rw (not_zero, none_left) (decimal_from-zero room ((b'0' + n % 10) ∷ tmp))

length-decimal_from-le : (room n : ℕ) (tmp : Bytes) → length tmp ≤ length (decimal_from room n tmp)
unfolding decimal_from
length-decimal_from-le zero n tmp = omega arith
length-decimal_from-le (suc room) n tmp =
    ground (arith, length-decimal_from-le room (n / 10) ((b'0' + n % 10) ∷ tmp))

-- The two loops count the same digits.
length-decimal_from :
    (room fuel n len : ℕ) (tmp : Bytes)
    → n ≢ 0
    → n < 10 ^ room
    → n < 10 ^ suc fuel
    → length (decimal_from room n tmp) + len ≡ decimal_len_from fuel n len + length tmp + 1
unfolding decimal_from decimal_len_from
length-decimal_from zero fuel n len tmp z h k = absurd (z (below_ten n h))
length-decimal_from (suc room) zero n len tmp z h k =
    rw (decimal_from_digit room n tmp z (omega arith)) (omega arith)
length-decimal_from (suc room) (suc fuel) n len tmp z h k = elim (Bool-cases (ltb n 10)) [
  | inl small ↦ rw (decimal_from_digit room n tmp z (ltb→lt n 10 small), small) (omega arith)
  | inr large ↦
      let not_zero : (n == 0) ≡ false = ground arith in
      let ih =
        length-decimal_from room fuel (n / 10) (len + 1) ((b'0' + n % 10) ∷ tmp) (ground arith)
          (ten_step n room h) (ten_step n (suc fuel) k) in
      rw (not_zero, large) (omega (arith, ih))
]

-- `decimal_len` is the number of bytes that `append_decimal` appends for a `size_t`.
pub length-decimal : (n : ℕ) → n ≤ size_max → length (decimal n) ≡ decimal_len n
unfolding decimal decimal_len
length-decimal n h = elim (Bool-cases (n == 0)) [
  | inl z ↦ rw ((==_iff n 0).0 z) (unfold decimal_len_from in refl)
  | inr nz ↦
      rw nz
        (omega (arith, length-decimal_from 32 20 n 1 [] (ground arith) (omega arith) (omega arith)))
]

-- Reading what is printed goes on behind it with the number.
digits_from-decimal_from :
    (room n : ℕ) (tmp : Bytes)
    → n ≤ size_max
    → n < 10 ^ room
    → digits_from (decimal_from room n tmp) 0 ≡ digits_from tmp n
unfolding decimal_from digits_from
digits_from-decimal_from zero n tmp h k = rw (below_ten n k)
digits_from-decimal_from (suc room) n tmp h k = elim (Bool-cases (n == 0)) [
  | inl z ↦ rw ((==_iff n 0).0 z)
  | inr nz ↦ rw nz (
      digits_from-decimal_from room (n / 10) ((b'0' + n % 10) ∷ tmp) (omega arith)
        (ten_step n room k)
      ∙ one_digit)
]
  where
    one_digit : digits_from ((b'0' + n % 10) ∷ tmp) (n / 10) ≡ digits_from tmp n
    one_digit = ground arith

decimal_from_pos : (room n : ℕ) → (n == 0) ≡ false → 0 < length (decimal_from (suc room) n [])
unfolding decimal_from
decimal_from_pos room n z =
    rw z (omega (arith, length-decimal_from-le room (n / 10) ((b'0' + n % 10) ∷ [])))

-- `parse_usize` reads back every `size_t` that is printed.
pub parse_usize-decimal : (n : ℕ) → n ≤ size_max → parse_usize (decimal n) ≡ some n
unfolding parse_usize decimal
parse_usize-decimal n h = elim (Bool-cases (n == 0)) [
  | inl z ↦ rw ((==_iff n 0).0 z) (unfold digits_from in refl)
  | inr nz ↦
      let written : (length (decimal_from 32 n []) == 0) ≡ false =
        ground (arith, decimal_from_pos 31 n nz) in
      rw (nz, written) (unfold digits_from in digits_from-decimal_from 32 n [] h (omega arith))
]
