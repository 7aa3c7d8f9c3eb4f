-- ===== src/Patchbay/Arena.antt =====
-- src/patchbay/pb_arena.c: blocks of memory in which allocations follow each other, and are freed
-- together. An address is a number; a block is the address of its bytes, and how many of them are used.
pub mod Safe
pub mod Trim
use Prim.Native.Nat.{bit_and}
use monoblok.Shared.{
  ℕ, zero, suc, ◌+◌, ◌-◌, ◌*◌, ◌/◌, ◌%◌, ◌^◌, ◌≤◌, ◌<◌, min, ◌≡◌, refl, sym, ap, ap₂, subst, ◌∙◌,
  ◌≢◌, ◌↔◌, ◌⊎◌, inl, inr, Bool, true, false, not, ◌&&◌, ◌||◌, Option, none, some, List, [], ◌∷◌,
  ◌++◌, map, append-nil, append_assoc, arith, Bytes, length, get_elem?, set, take, drop, replicate,
  All, ltb, leb, ◌==◌, if◌then◌else◌, size_max, Bool-cases, Option-cases, &&_split, &&_both, ==_iff,
  codes, ltb→lt, ltb→le, lt→ltb, le→ltb, leb→le, le→leb, length-append, length-drop, length-take,
  take-append, drop-append,
}

-- `pb_arena_block`; the list of blocks is the arena.
pub record Block : Type 0 where
  pub base : ℕ
  pub used : ℕ
  pub cap : ℕ

unfoldable pub is_power_of_two : ℕ → Bool
is_power_of_two n = not (n == 0) && bit_and n (n - 1) == 0

-- `align_ptr_offset`. An alignment is a power of two, so that `& ~mask` leaves a multiple of it.
unfoldable pub align_ptr_offset : ℕ → ℕ → ℕ → Option ℕ
align_ptr_offset base used align =
    let addr = base + used in
    let mask = align - 1 in
    let aligned = (addr + mask) / align * align in
    if not (is_power_of_two align)
    then none
    else if ltb (size_max - base) used
    then none
    else if ltb (size_max - mask) addr
    then none
    else if ltb aligned base
    then none
    else some (aligned - base)

-- What the loop over the blocks ends with: NULL, a pointer and the blocks, or no block with room.
pub data Placed : Type 0 where
  failed : Placed
  placed : ℕ → List Block → Placed
  no_room : Placed

pub place_later : Block → Placed → Placed
place_later b failed = failed
place_later b (placed p bs) = placed p (b ∷ bs)
place_later b no_room = no_room

unfoldable pub place_at : Block → List Block → ℕ → Placed → Option ℕ → Placed
place_at b bs size later none = failed
place_at b bs size later (some off) =
    if leb off b.cap && leb size (b.cap - off)
    then placed (b.base + off) (record b { used = off + size } ∷ bs)
    else place_later b later

unfoldable pub place : List Block → ℕ → ℕ → Placed
place [] size align = no_room
place (b ∷ bs) size align =
    place_at b bs size (place bs size align) (align_ptr_offset b.base b.used align)

-- `while (cap < min_cap)`: 64 rounds are enough, since a capacity doubles in each.
pub block_cap_from : ℕ → ℕ → ℕ → ℕ
block_cap_from zero cap min_cap = min_cap
block_cap_from (suc rounds) cap min_cap =
    let rest = block_cap_from rounds (cap * 2) min_cap in
    if ltb cap min_cap then if ltb (size_max / 2) cap then min_cap else rest else cap

pub block_cap : ℕ → ℕ
block_cap min_cap = block_cap_from 64 4096 min_cap

-- `malloc` answers with an address for the blocks that there are and a size; a block has 24 bytes
-- before its own.
module _ (malloc : List Block → ℕ → Option ℕ) where
  pub place_in_new : List Block → ℕ → ℕ → ℕ → Option ℕ → Option ℕ × List Block
  place_in_new bs size align cap none = (none, bs)
  place_in_new bs size align cap (some p) = elim (align_ptr_offset (p + 24) 0 align) [
    | none ↦ (none, bs)
    | some off ↦
        if ltb cap off || ltb (cap - off) size
        then (none, bs)
        else (some (p + 24 + off), record { base = p + 24; used = off + size; cap = cap } ∷ bs)
  ]

  pub grow_arena : List Block → ℕ → ℕ → Option ℕ × List Block
  grow_arena bs size align =
      let cap = block_cap (size + align) in
      if ltb (size_max - align) size
      then (none, bs)
      else if ltb (size_max - 24) cap
      then (none, bs)
      else place_in_new bs size align cap (malloc bs (24 + cap))

  unfoldable pub take_placed : List Block → ℕ → ℕ → Placed → Option ℕ × List Block
  take_placed bs size align failed = (none, bs)
  take_placed bs size align (placed p bs') = (some p, bs')
  take_placed bs size align no_room = grow_arena bs size align

  -- `pb_arena_alloc`: the pointer, `none` where it is NULL, and the arena.
  unfoldable pub arena_alloc : List Block → ℕ → ℕ → Option ℕ × List Block
  arena_alloc bs size align =
      let a = if align == 0 then 8 else align in
      if is_power_of_two a then take_placed bs size a (place bs size a) else (none, bs)

  -- The allocation of `pb_arena_memdup`.
  pub arena_memdup : List Block → ℕ → Option ℕ × List Block
  arena_memdup bs len = arena_alloc bs (if len == 0 then 1 else len) 1

-- `pb_arena_reset`
pub arena_reset : List Block → List Block
arena_reset [] = []
arena_reset (b ∷ bs) = record b { used = 0 } ∷ arena_reset bs

-- `pb_arena_trim` from a block on, with the capacity that was retained before it.
pub trim_from : ℕ → ℕ → List Block → List Block
trim_from keep retained [] = []
trim_from keep retained (b ∷ bs) =
    let dropped = trim_from keep retained bs in
    let kept =
      b
      ∷ trim_from keep (if ltb (size_max - b.cap) retained then size_max else retained + b.cap)
          bs in
    if b.used == 0 && (leb keep retained || ltb (keep - retained) b.cap) then dropped else kept

pub arena_trim : List Block → ℕ → List Block
arena_trim bs keep = trim_from keep 0 bs
