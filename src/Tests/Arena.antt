-- ===== src/Tests/Arena.antt =====
-- Runs of the arena.
use monoblok.Shared.{
  ℕ, ◌+◌, ◌≤◌, ◌≡◌, refl, Option, none, some, List, [], ◌∷◌, arith, leb, if◌then◌else◌, size_max,
}
use monoblok.Patchbay.Arena.{Block, arena_alloc, arena_reset, arena_trim}
use monoblok.Patchbay.Arena.Trim.{total, arena_trim-within}
use monoblok.Patchbay.Arena.Safe.{Mallocs, ValidArena, Gives, spans, ApartFrom, arena_alloc-Gives}

-- A `malloc` that gives one block of at most 2^20 bytes.
tiny_malloc : List Block → ℕ → Option ℕ
tiny_malloc [] n = if leb n 1048576 then some 4096 else none
tiny_malloc (b ∷ bs) n = none

tiny_malloc-Mallocs : Mallocs tiny_malloc
unfolding tiny_malloc spans
tiny_malloc-Mallocs = record { in_range = in_range; apart = apart }
  where
    in_range : (bs : List Block) (n p : ℕ) → tiny_malloc bs n ≡ some p → p + n ≤ size_max
    in_range [] n p h = ground arith
    in_range (b ∷ bs) n p h = cc

    apart : (bs : List Block) (n p : ℕ) → tiny_malloc bs n ≡ some p → ApartFrom p n (spans bs)
    apart [] n p h = tt
    apart (b ∷ bs) n p h = cc

-- A block of which five bytes are used.
abbrev used_block : Block
used_block = record { base = 4120; used = 5; cap = 4096 }

used_block-ValidArena : ValidArena (used_block ∷ [])
unfolding ValidArena spans
used_block-ValidArena = (omega arith, (omega arith, (tt, tt)))

aligned_to_eight :
    arena_alloc tiny_malloc (used_block ∷ []) 10 8
    ≡ (some 4128, record { base = 4120; used = 18; cap = 4096 } ∷ [])
unfolding arena_alloc monoblok.Patchbay.Arena.is_power_of_two monoblok.Patchbay.Arena.take_placed
    monoblok.Patchbay.Arena.place monoblok.Patchbay.Arena.place_at
    monoblok.Patchbay.Arena.align_ptr_offset
aligned_to_eight = refl

arena_alloc-Gives_example :
    Gives (used_block ∷ []) 10 8 (arena_alloc tiny_malloc (used_block ∷ []) 10 8)
arena_alloc-Gives_example =
    arena_alloc-Gives tiny_malloc tiny_malloc-Mallocs (used_block ∷ []) 10 8 used_block-ValidArena

arena_trim-within_example :
    total (arena_trim (arena_reset (used_block ∷ used_block ∷ [])) 5000) ≤ 5000
arena_trim-within_example = arena_trim-within 5000 (used_block ∷ used_block ∷ []) (omega arith)
