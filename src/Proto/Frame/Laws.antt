-- ===== src/Proto/Frame/Laws.antt =====
-- A frame is written whole or not at all, and is as long as it was measured.
use monoblok.Shared.{
  ℕ, suc, ◌+◌, ◌-◌, ◌≤◌, ◌≡◌, subst, inl, inr, false, Option, none, some, [], ◌∷◌, ◌++◌, arith,
  Bytes, length, ltb, leb, ◌==◌, if◌then◌else◌, size_max, Bool-cases, codes, length-append,
}
use monoblok.Proto.Number.{decimal, decimal_len}
use monoblok.Proto.Number.Decimal.{length-decimal}
use monoblok.Proto.Frame.{◌>>=◌, add_size, crlf, add_reply, msg_frame_len}

abbrev pub reply_part : Bytes → Bytes
reply_part reply_to = if length reply_to == 0 then [] else reply_to ++ codes " "

-- The bytes of `MSG <prefix><subject> <sid> [<reply-to> ]<length>`, a line end, the payload, and
-- another.
unfoldable pub frame : Bytes → Bytes → Bytes → Bytes → Bytes → Bytes
frame prefix subject sid reply_to payload =
    codes "MSG "
    ++ (prefix
        ++ (subject
            ++ (codes " "
                ++ (sid
                    ++ (codes " "
                        ++ (reply_part reply_to
                            ++ (decimal (length payload) ++ (crlf ++ (payload ++ crlf)))))))))

length-frame :
    (prefix subject sid reply_to payload : Bytes)
    → length payload ≤ size_max
    → length (frame prefix subject sid reply_to payload)
      ≡ 4
        + length prefix
        + length subject
        + 1
        + length sid
        + 1
        + length (reply_part reply_to)
        + decimal_len (length payload)
        + 2
        + length payload
        + 2
unfolding frame
length-frame prefix subject sid reply_to payload h =
    omega (arith, length-append {0} {A = ℕ}, length-decimal (length payload) h)

abbrev capped : ℕ → Option ℕ
capped n = if leb n size_max then some n else none

-- One checked addition on the way to the sum `whole`.
add_then :
    (whole total n : ℕ) (k : ℕ → Option ℕ)
    → total ≤ size_max
    → total + n ≤ whole
    → (total + n ≤ size_max → k (total + n) ≡ capped whole)
    → (add_size total n >>= k) ≡ capped whole
unfolding add_size
add_then whole total n k t le next = elim (Bool-cases (ltb (size_max - total) n)) [
  | inl over ↦ rw over (ground arith)
  | inr fits ↦ rw fits (next (ground arith))
]

add_last :
    (whole total n : ℕ) → total ≤ size_max → total + n ≡ whole → add_size total n ≡ capped whole
unfolding add_size
add_last whole total n t e = ground arith

pub suc_nonzero : (n : ℕ) → (suc n == 0) ≡ false
suc_nonzero n = ground arith

add_reply_step :
    (whole total n : ℕ) (k : ℕ → Option ℕ)
    → total ≤ size_max
    → total + suc n + 1 ≤ whole
    → (total + suc n + 1 ≤ size_max → k (total + suc n + 1) ≡ capped whole)
    → ((if suc n == 0 then some total else add_size total (suc n) >>= (λ m. add_size m 1)) >>= k)
      ≡ capped whole
unfolding add_size
add_reply_step whole total n k t le next = elim (Bool-cases (ltb (size_max - total) (suc n))) [
  | inl over ↦ rw (suc_nonzero n, over) (ground arith)
  | inr fits ↦ rw (suc_nonzero n, fits) (add_then whole (total + suc n) 1 k (ground arith) le next)
]

add_reply_then :
    (whole total : ℕ) (reply_to : Bytes) (k : ℕ → Option ℕ)
    → total ≤ size_max
    → total + length (reply_part reply_to) ≤ whole
    → (total + length (reply_part reply_to) ≤ size_max
        → k (total + length (reply_part reply_to)) ≡ capped whole)
    → (add_reply reply_to total >>= k) ≡ capped whole
add_reply_then whole total [] k t le next =
    let e : total + 0 ≡ total = omega arith in
    subst (λ n. k n ≡ capped whole) e (next (omega arith))
add_reply_then whole total (x ∷ r) k t le next =
    let n = length (x ∷ r) in
    let grown : length ((x ∷ r) ++ codes " ") ≡ n + 1 = length-append (x ∷ r) (codes " ") in
    let e : total + length (reply_part (x ∷ r)) ≡ total + n + 1 =
      rw (suc_nonzero (length r)) (omega (arith, grown)) in
    let last : total + n + 1 ≤ size_max → k (total + n + 1) ≡ capped whole =
      subst (λ m. m ≤ size_max → k m ≡ capped whole) e next in
    add_reply_step whole total (length r) k t (omega (arith, e)) last

-- For a payload within SIZE_MAX the measured length is that of the frame, and there is none just
-- where the frame is longer than SIZE_MAX.
pub msg_frame_len-eq :
    (prefix subject sid reply_to payload : Bytes)
    → length payload ≤ size_max
    → msg_frame_len (length prefix) subject sid reply_to payload ≡ (
        if leb (length (frame prefix subject sid reply_to payload)) size_max
        then some (length (frame prefix subject sid reply_to payload))
        else none)
unfolding msg_frame_len
msg_frame_len-eq prefix subject sid reply_to payload h =
    let whole = length (frame prefix subject sid reply_to payload) in
    let sum = length-frame prefix subject sid reply_to payload h in
    add_then whole 0 4 _ (omega arith) (omega (arith, sum)) λ b0.
      add_then whole _ (length prefix) _ (omega arith) (omega (arith, sum)) λ b1.
        add_then whole _ (length subject) _ (omega arith) (omega (arith, sum)) λ b2.
          add_then whole _ 1 _ (omega arith) (omega (arith, sum)) λ b3.
            add_then whole _ (length sid) _ (omega arith) (omega (arith, sum)) λ b4.
              add_then whole _ 1 _ (omega arith) (omega (arith, sum)) λ b5.
                add_reply_then whole _ reply_to _ (omega arith) (omega (arith, sum)) λ b6.
                  add_then whole _ (decimal_len (length payload)) _ (omega arith)
                    (omega (arith, sum))
                    λ b7. add_then whole _ 2 _ (omega arith) (omega (arith, sum)) λ b8.
                      add_then whole _ (length payload) _ (omega arith) (omega (arith, sum))
                        λ b9. add_last whole _ 2 (omega arith) (omega (arith, sum))
