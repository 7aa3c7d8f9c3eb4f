-- ===== src/Tests/Bytes.antt =====
-- Runs of the buffers, the numbers and the frames, and the theorems on them.
use monoblok.Shared.{
  ℕ, ◌*◌, ◌≤◌, ◌≡◌, refl, Bool, true, false, none, some, [], ◌∷◌, ◌++◌, arith, Bytes, length, leb,
  if◌then◌else◌, size_max,
}
use monoblok.Buffer.{Buf, empty_buf, array_reserve, append}
use monoblok.Buffer.Growth.{array_reserve_bounds}
use monoblok.Buffer.Laws.{IsValid, Keeps, append-Keeps}
use monoblok.Proto.Number.{decimal, decimal_len, parse_usize}
use monoblok.Proto.Number.Decimal.{length-decimal, parse_usize-decimal}
use monoblok.Proto.Frame.{msg_frame_len, write_msg}
use monoblok.Proto.Frame.Laws.{frame, msg_frame_len-eq}
use monoblok.Proto.Frame.Whole.{write_msg-Keeps}

abbrev pub granted : ℕ → Bool
granted n = true

abbrev refused : ℕ → Bool
refused n = false

-- `ab`
abbrev two_bytes : Bytes
two_bytes = b'a' ∷ b'b' ∷ []

-- `abc`
abbrev three_bytes : Bytes
three_bytes = b'a' ∷ b'b' ∷ b'c' ∷ []

abbrev small_buf : Buf
small_buf = record { bytes = two_bytes; cap = 4 }

small_buf-IsValid : IsValid small_buf
small_buf-IsValid = record { within = omega arith; in_range = omega arith }

append-refused : append refused small_buf three_bytes ≡ (false, small_buf)
unfolding append monoblok.Buffer.reserve monoblok.Buffer.double_until
append-refused = refl

three_reserved : array_reserve granted 8 9 24 8 ≡ some 16
unfolding array_reserve monoblok.Buffer.double_until
three_reserved = refl

printed : decimal 1024 ≡ b'1' ∷ b'0' ∷ b'2' ∷ b'4' ∷ []
unfolding decimal monoblok.Proto.Number.decimal_from
printed = refl

array_reserve_bounds_example : (9 ≤ 16) × (8 ≤ 16) × (16 * 24 ≤ size_max)
array_reserve_bounds_example =
    array_reserve_bounds granted 8 9 24 8 (omega arith) (omega arith) (omega arith) three_reserved

append-Keeps_example :
    Keeps small_buf (two_bytes ++ three_bytes) (append granted small_buf three_bytes)
append-Keeps_example = append-Keeps granted small_buf three_bytes small_buf-IsValid

length-decimal_example : length (decimal 1024) ≡ decimal_len 1024
length-decimal_example = length-decimal 1024 (omega arith)

parse_usize-decimal_example : parse_usize (decimal 1024) ≡ some 1024
parse_usize-decimal_example = parse_usize-decimal 1024 (omega arith)

msg_frame_len-eq_example : msg_frame_len (length two_bytes) three_bytes two_bytes [] three_bytes ≡ (
    if leb (length (frame two_bytes three_bytes two_bytes [] three_bytes)) size_max
    then some (length (frame two_bytes three_bytes two_bytes [] three_bytes))
    else none)
msg_frame_len-eq_example =
    msg_frame_len-eq two_bytes three_bytes two_bytes [] three_bytes (omega arith)

write_msg-Keeps_example :
    Keeps small_buf
      (two_bytes ++ frame [] three_bytes two_bytes two_bytes three_bytes)
      (write_msg granted small_buf [] three_bytes two_bytes two_bytes three_bytes)
write_msg-Keeps_example =
    write_msg-Keeps granted small_buf [] three_bytes two_bytes two_bytes three_bytes
      small_buf-IsValid (omega arith)
