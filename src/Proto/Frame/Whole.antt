-- ===== src/Proto/Frame/Whole.antt =====
-- A frame is written whole or not at all: the room is reserved first, so no call after that fails.
use monoblok.Shared.{
  ℕ, ◌+◌, ◌≤◌, ◌≡◌, refl, ap, ◌∙◌, inl, inr, Bool, true, false, none, some, [], ◌∷◌, ◌++◌,
  append-nil, append_assoc, arith, Bytes, length, leb, ◌==◌, if◌then◌else◌, size_max, Bool-cases,
  codes, length-append,
}
use monoblok.Buffer.{Buf, reserve, append, append_byte, and_then}
use monoblok.Buffer.Laws.{IsValid, Keeps, reserve-Keeps, append_fits, append_byte_fits}
use monoblok.Proto.Number.{decimal}
use monoblok.Proto.Frame.{crlf, msg_frame_len, write_reply, write_parts, write_msg}
use monoblok.Proto.Frame.Laws.{reply_part, frame, msg_frame_len-eq}

-- With room for `tail` in the buffer, `k` succeeds and appends it.
abbrev Appends : (Buf → Bool × Buf) → Bytes → Type 0
Appends k tail =
    (b : Buf)
    → IsValid b
    → length b.bytes + length tail ≤ b.cap
    → k b ≡ (true, record b { bytes = b.bytes ++ tail })

-- The first of two calls leaves the room for the second.
then-Appends :
    (m k : Buf → Bool × Buf) (src rest : Bytes)
    → Appends m src
    → Appends k rest
    → Appends (λ b. and_then (m b) k) (src ++ rest)
then-Appends m k src rest am ak b v h =
    let c = record b { bytes = b.bytes ++ src } in
    let grown = length-append b.bytes src in
    let both = length-append src rest in
    let vc : IsValid c = record { within = omega (arith, grown, both); in_range = v.in_range } in
    rw (am b v (omega (arith, both)))
      (rw (← append_assoc b.bytes src rest) (ak c vc (omega (arith, grown, both))))

module _ (alloc : ℕ → Bool) where
  append-Appends : (src : Bytes) → Appends (λ b. append alloc b src) src
  append-Appends src b v h = append_fits alloc b src v h

  append_byte-Appends : (x : ℕ) → Appends (λ b. append_byte alloc b x) (x ∷ [])
  append_byte-Appends x b v h = append_byte_fits alloc b x v h

  write_reply-Appends :
      (reply_to : Bytes) → Appends (write_reply alloc reply_to) (reply_part reply_to)
  write_reply-Appends reply_to = go (length reply_to == 0)
    where
      go :
          (z : Bool)
          → Appends
              (λ b.
                if z
                then (true, b)
                else and_then (append alloc b reply_to) (λ c. append_byte alloc c b' '))
              (if z then [] else reply_to ++ codes " ")
      go true b v h = rw append-nil
      go false b v h =
          then-Appends (λ b. append alloc b reply_to) (λ c. append_byte alloc c b' ') reply_to
            (b' ' ∷ []) (append-Appends reply_to) (append_byte-Appends b' ') b v h

  write_parts-Appends :
      (prefix subject sid reply_to payload : Bytes)
      → Appends
          (write_parts alloc prefix subject sid reply_to payload)
          (frame prefix subject sid reply_to payload)
  unfolding write_parts frame
  write_parts-Appends prefix subject sid reply_to payload =
      then-Appends _ _ _ _ (append-Appends (codes "MSG ")) (
        then-Appends _ _ _ _ (append-Appends prefix) (
          then-Appends _ _ _ _ (append-Appends subject) (
            then-Appends _ _ _ _ (append_byte-Appends b' ') (
              then-Appends _ _ _ _ (append-Appends sid) (
                then-Appends _ _ _ _ (append_byte-Appends b' ') (
                  then-Appends _ _ _ _ (write_reply-Appends reply_to) (
                    then-Appends _ _ _ _ (append-Appends (decimal (length payload))) (
                      then-Appends _ _ _ _ (append-Appends crlf) (
                        then-Appends _ _ _ _ (append-Appends payload) (append-Appends crlf))))))))))

-- From a valid buffer and a payload within SIZE_MAX, `mb_write_msg_prefixed_with_reply` appends the
-- frame and returns true, or returns false and leaves the buffer as it was; the result is valid.
pub write_msg-Keeps :
    (alloc : ℕ → Bool) (out : Buf) (prefix subject sid reply_to payload : Bytes)
    → IsValid out
    → length payload ≤ size_max
    → Keeps out
        (out.bytes ++ frame prefix subject sid reply_to payload)
        (write_msg alloc out prefix subject sid reply_to payload)
unfolding write_msg
write_msg-Keeps alloc out prefix subject sid reply_to payload v h =
    let f = frame prefix subject sid reply_to payload in
    elim (Bool-cases (leb (length f) size_max)) [
      | inl fits ↦
          let m : msg_frame_len (length prefix) subject sid reply_to payload ≡ some (length f) =
            msg_frame_len-eq prefix subject sid reply_to payload h
            ∙ ap (λ z. if z then some (length f) else none) fits in
          rw (m, write_msg)
            (reserved (reserve alloc out (length f)).0 (reserve alloc out (length f)).1
              (reserve-Keeps alloc out (length f) v))
      | inr over ↦
          let m : msg_frame_len (length prefix) subject sid reply_to payload ≡ none =
            msg_frame_len-eq prefix subject sid reply_to payload h
            ∙ ap (λ z. if z then some (length f) else none) over in
          rw (m, write_msg)
            (record { done = λ z. cc; undone = λ z. refl; valid = v; wider = omega arith })
    ]
  where
    f : Bytes
    f = frame prefix subject sid reply_to payload

    reserved :
        (ok : Bool) (b : Buf)
        → Keeps out out.bytes (ok, b)
          × (ok ≡ true → length out.bytes + length f ≤ b.cap)
          × (b.bytes ≡ out.bytes)
        → Keeps out
            (out.bytes ++ f)
            (and_then (ok, b) (write_parts alloc prefix subject sid reply_to payload))
    reserved false b (k, room, same) = record {
      done = λ z. cc;
      undone = k.undone;
      valid = k.valid;
      wider = k.wider;
    }
    reserved true b (k, room, same) =
        rw
          (write_parts-Appends alloc prefix subject sid reply_to payload b k.valid
            (rw same (room refl)))
          (record {
            done = λ z. ap (λ x. x ++ f) same;
            undone = λ z. cc;
            valid = record {
              within =
                  omega
                    (arith, length-append b.bytes f, ap (λ (x : Bytes). length x) same, room refl);
              in_range = k.valid.in_range;
            };
            wider = k.wider;
          })
