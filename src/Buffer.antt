-- ===== src/Buffer.antt =====
-- src/array.c and src/buf.c. `alloc n` says whether the allocator grants `n` bytes; a call that
-- appends returns the status of the C function and the buffer that it leaves.
pub mod Growth
pub mod Laws
use monoblok.Shared.{
  ℕ, zero, suc, ◌+◌, ◌-◌, ◌*◌, ◌/◌, Bool, true, false, Option, none, some, List, [], ◌∷◌, ◌++◌,
  Bytes, length, drop, ltb, leb, ◌==◌, if◌then◌else◌, size_max,
}

-- `while (next < needed)` of both files. Each round doubles `next` or ends the loop, so the
-- 64 rounds that the callers give are enough (`Growth.le-double_until`).
unfoldable pub double_until : ℕ → ℕ → ℕ → ℕ
double_until zero next needed = next
double_until (suc fuel) next needed =
    let rest = double_until fuel (next * 2) needed in
    if ltb next needed then if ltb (size_max / 2) next then needed else rest else next

-- The capacity that `mb_array_reserve` leaves, or `none` where it returns false.
module _ (alloc : ℕ → Bool) where
  unfoldable pub array_reserve : ℕ → ℕ → ℕ → ℕ → Option ℕ
  array_reserve cap needed elem_size initial_cap =
      if elem_size == 0
      then none
      else if leb needed cap
      then some cap
      else let start = if cap == 0 then initial_cap else cap in
        let next = double_until 64 (if start == 0 then 1 else start) needed in
        if ltb (size_max / elem_size) next
        then none
        else if alloc (next * elem_size)
        then some next
        else none

-- `mb_buf`: the first `len` bytes behind `ptr`, and the capacity.
pub record Buf : Type 0 where
  pub bytes : Bytes
  pub cap : ℕ

abbrev pub empty_buf : Buf
empty_buf = record { bytes = []; cap = 0 }

-- `a(out) && b(out)`.
abbrev pub and_then : Bool × Buf → (Buf → Bool × Buf) → Bool × Buf
and_then (true, b) k = k b
and_then (false, b) k = (false, b)

module _ (alloc : ℕ → Bool) where
  unfoldable pub reserve : Buf → ℕ → Bool × Buf
  reserve b additional =
      if ltb (size_max - length b.bytes) additional
      then (false, b)
      else if leb (length b.bytes + additional) b.cap
      then (true, b)
      else let next =
          double_until 64 (if b.cap == 0 then 1024 else b.cap) (length b.bytes + additional) in
        if ltb (size_max / 1) next
        then (false, b)
        else if alloc (next * 1)
        then (true, record b { cap = next })
        else (false, b)

  -- `mb_buf_append` of the bytes of a source that is not null.
  unfoldable pub append : Buf → Bytes → Bool × Buf
  append b src =
      if length src == 0
      then (true, b)
      else and_then (reserve b (length src)) (λ c. (true, record c { bytes = c.bytes ++ src }))

  pub append_byte : Buf → ℕ → Bool × Buf
  append_byte b byte =
      and_then (reserve b 1) (λ c. (true, record c { bytes = c.bytes ++ byte ∷ [] }))

pub consume : Buf → ℕ → Buf
consume b n =
    if leb (length b.bytes) n then record b { bytes = [] } else record b { bytes = drop n b.bytes }

unfoldable pub clear : Buf → Buf
clear b = record b { bytes = [] }
