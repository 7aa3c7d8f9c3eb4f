-- ===== src/Buffer/Laws.antt =====
-- The buffers of buf.c: what each operation leaves, whether the allocator grants the memory or not.
use monoblok.Shared.{
  ℕ, ◌+◌, ◌≤◌, ◌≡◌, Bool, true, false, [], ◌∷◌, ◌++◌, arith, Bytes, length, length-append,
  length-drop, drop, drop_past, ◌==◌, size_max, append-nil, if◌then◌else◌,
}
use monoblok.Buffer.{Buf, reserve, append, append_byte, consume}
use monoblok.Buffer.Growth.{grown_bounds}

pub record IsValid (b : Buf) : Type 0 where
  pub within : length b.bytes ≤ b.cap
  pub in_range : b.cap ≤ size_max

-- What a call may leave of `b`: the bytes `want` if it returns true, and else `b` itself.
pub record Keeps (b : Buf) (want : Bytes) (r : Bool × Buf) : Type 0 where
  pub done : r.0 ≡ true → r.1.bytes ≡ want
  pub undone : r.0 ≡ false → r.1 ≡ b
  pub valid : IsValid r.1
  pub wider : b.cap ≤ r.1.cap

module _ (alloc : ℕ → Bool) where
  -- `mb_buf_reserve` changes no byte; where it returns true the room is there.
  pub reserve-Keeps :
      (b : Buf) (n : ℕ)
      → IsValid b
      → Keeps b b.bytes (reserve alloc b n)
        × ((reserve alloc b n).0 ≡ true → length b.bytes + n ≤ (reserve alloc b n).1.cap)
        × ((reserve alloc b n).1.bytes ≡ b.bytes)
  unfolding reserve
  reserve-Keeps b n v =
      let start = if b.cap == 0 then 1024 else b.cap in
      ground (arith, grown_bounds start (length b.bytes + n))

  -- From a valid buffer, `mb_buf_append` appends all bytes and returns true, or returns false and
  -- leaves the buffer as it was; the result is valid and no capacity is lost.
  pub append-Keeps :
      (b : Buf) (src : Bytes) → IsValid b → Keeps b (b.bytes ++ src) (append alloc b src)
  unfolding append
  append-Keeps b [] v = ground (arith, append-nil b.bytes)
  append-Keeps b (x ∷ src) v =
      ground (arith, reserve-Keeps b (length (x ∷ src)) v, length-append b.bytes (x ∷ src))

  pub append_byte-Keeps :
      (b : Buf) (x : ℕ) → IsValid b → Keeps b (b.bytes ++ x ∷ []) (append_byte alloc b x)
  unfolding append_byte
  append_byte-Keeps b x v = ground (arith, reserve-Keeps b 1 v, length-append b.bytes (x ∷ []))

  -- Inside the capacity no allocation is made, so no call fails.
  reserve_fits :
      (b : Buf) (n : ℕ) → IsValid b → length b.bytes + n ≤ b.cap → reserve alloc b n ≡ (true, b)
  unfolding reserve
  reserve_fits b n v h = ground arith

  pub append_fits :
      (b : Buf) (src : Bytes)
      → IsValid b
      → length b.bytes + length src ≤ b.cap
      → append alloc b src ≡ (true, record b { bytes = b.bytes ++ src })
  unfolding append
  append_fits b [] v h = ground (arith, append-nil b.bytes)
  append_fits b (x ∷ src) v h = ground (arith, reserve_fits b (length (x ∷ src)) v h)

  pub append_byte_fits :
      (b : Buf) (x : ℕ)
      → IsValid b
      → length b.bytes + 1 ≤ b.cap
      → append_byte alloc b x ≡ (true, record b { bytes = b.bytes ++ x ∷ [] })
  unfolding append_byte
  append_byte_fits b x v h = ground (arith, reserve_fits b 1 v h)

-- `mb_buf_consume` drops the first `n` bytes, or all.
pub consume_lem :
    (b : Buf) (n : ℕ) → IsValid b → IsValid (consume b n) × ((consume b n).bytes ≡ drop n b.bytes)
unfolding consume
consume_lem b n v = ground (arith, drop_past n b.bytes, length-drop n b.bytes)
