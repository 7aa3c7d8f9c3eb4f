-- ===== src/Proto/Number.antt =====
-- src/proto.c: decimal numbers, read with overflow checks and printed.
pub mod Decimal
use monoblok.Shared.{
  ℕ, zero, suc, ◌+◌, ◌-◌, ◌*◌, ◌/◌, ◌%◌, Bool, true, false, ◌||◌, Option, none, some, List, [], ◌∷◌,
  Bytes, length, ltb, ◌==◌, if◌then◌else◌, size_max,
}

-- The loop of `parse_usize`, with the digits that are left and the value so far.
unfoldable pub digits_from : Bytes → ℕ → Option ℕ
digits_from [] v = some v
digits_from (c ∷ s) v =
    let digit = c - b'0' in
    let rest = digits_from s (v * 10 + digit) in
    if ltb c b'0' || ltb b'9' c
    then none
    else if ltb ((size_max - digit) / 10) v
    then none
    else rest

unfoldable pub parse_usize : Bytes → Option ℕ
parse_usize s = if length s == 0 then none else digits_from s 0

-- `while (n != 0) { i -= 1; tmp[i] = '0' + n % 10; n /= 10; }`: `room` is the `i` that is left of
-- the 32 bytes of `tmp`, `tmp` what stands from `i` on.
unfoldable pub decimal_from : ℕ → ℕ → Bytes → Bytes
decimal_from zero n tmp = tmp
decimal_from (suc room) n tmp =
    let rest = decimal_from room (n / 10) ((b'0' + n % 10) ∷ tmp) in if n == 0 then tmp else rest

-- The bytes that `append_decimal` and `append_u64_decimal` append.
unfoldable pub decimal : ℕ → Bytes
decimal n = if n == 0 then b'0' ∷ [] else decimal_from 32 n []

-- `decimal_len`; a `size_t` has at most 20 digits.
unfoldable pub decimal_len_from : ℕ → ℕ → ℕ → ℕ
decimal_len_from zero n len = len
decimal_len_from (suc fuel) n len =
    let rest = decimal_len_from fuel (n / 10) (len + 1) in if ltb n 10 then len else rest

unfoldable pub decimal_len : ℕ → ℕ
decimal_len n = decimal_len_from 20 n 1
