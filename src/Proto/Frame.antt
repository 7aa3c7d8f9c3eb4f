-- ===== src/Proto/Frame.antt =====
-- src/proto.c: the MSG frame of a delivery, measured and written.
pub mod Laws
pub mod Whole
use monoblok.Shared.{
  ℕ, zero, suc, ◌+◌, ◌-◌, ◌*◌, ◌/◌, ◌%◌, ◌^◌, ◌≤◌, ◌<◌, min, ◌≡◌, refl, sym, ap, ap₂, subst, ◌∙◌,
  ◌≢◌, ◌↔◌, ◌⊎◌, inl, inr, Bool, true, false, not, ◌&&◌, ◌||◌, Option, none, some, List, [], ◌∷◌,
  ◌++◌, map, append-nil, append_assoc, arith, Bytes, length, get_elem?, set, take, drop, replicate,
  All, ltb, leb, ◌==◌, if◌then◌else◌, size_max, Bool-cases, Option-cases, &&_split, &&_both, ==_iff,
  codes, ltb→lt, ltb→le, lt→ltb, le→ltb, leb→le, le→leb, length-append, length-drop, length-take,
  take-append, drop-append,
}
use monoblok.Buffer.{Buf, reserve, append, append_byte, and_then}
use monoblok.Proto.Number.{decimal, decimal_len}

-- `add_size`: `none` where the sum would overflow.
pub add_size : ℕ → ℕ → Option ℕ
add_size total n = if ltb (size_max - total) n then none else some (total + n)

infixl 5 ◌>>=◌
abbrev pub ◌>>=◌ : Option ℕ → (ℕ → Option ℕ) → Option ℕ
none >>= k = none
some n >>= k = k n

abbrev pub crlf : Bytes
crlf = 13 ∷ 10 ∷ []

abbrev pub add_reply : Bytes → ℕ → Option ℕ
add_reply reply_to total =
    if length reply_to == 0
    then some total
    else do n ← add_size total (length reply_to); add_size n 1

-- `mb_msg_frame_len_prefixed_with_reply`; an empty `reply_to` is none.
pub msg_frame_len : ℕ → Bytes → Bytes → Bytes → Bytes → Option ℕ
msg_frame_len prefix_len subject sid reply_to payload = do
  a ← add_size 0 4
  b ← add_size a prefix_len
  c ← add_size b (length subject)
  d ← add_size c 1
  e ← add_size d (length sid)
  f ← add_size e 1
  g ← add_reply reply_to f
  h ← add_size g (decimal_len (length payload))
  i ← add_size h 2
  j ← add_size i (length payload)
  add_size j 2

module _ (alloc : ℕ → Bool) where
  abbrev pub write_reply : Bytes → Buf → Bool × Buf
  write_reply reply_to b =
      if length reply_to == 0
      then (true, b)
      else and_then (append alloc b reply_to) (λ c. append_byte alloc c b' ')

  -- The calls that append, after the frame was measured and its room reserved.
  pub write_parts : Bytes → Bytes → Bytes → Bytes → Bytes → Buf → Bool × Buf
  write_parts prefix subject sid reply_to payload b0 =
      and_then (append alloc b0 (codes "MSG ")) λ b1. and_then (append alloc b1 prefix) λ b2.
        and_then (append alloc b2 subject) λ b3. and_then (append_byte alloc b3 b' ') λ b4.
          and_then (append alloc b4 sid) λ b5. and_then (append_byte alloc b5 b' ') λ b6.
            and_then (write_reply reply_to b6) λ b7.
              and_then (append alloc b7 (decimal (length payload))) λ b8.
                and_then (append alloc b8 crlf)
                  λ b9. and_then (append alloc b9 payload) λ b10. append alloc b10 crlf

  -- `mb_write_msg_prefixed_with_reply`
  pub write_msg : Buf → Bytes → Bytes → Bytes → Bytes → Bytes → Bool × Buf
  write_msg out prefix subject sid reply_to payload =
      elim (msg_frame_len (length prefix) subject sid reply_to payload) [
        | none ↦ (false, out)
        | some frame_len ↦
            and_then (reserve alloc out frame_len) (write_parts prefix subject sid reply_to payload)
      ]
