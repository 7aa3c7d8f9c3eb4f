-- ===== src/Router/Index.antt =====
-- src/router.c: the hash index with linear probing that stands beside each array of keys. The three
-- copies in the source (literal, wildcard, last values) differ in the array only, which is here the
-- list of its keys. A capacity is a power of two (`Growth.next_index_cap_lem`), so `& (cap - 1)` is
-- `% cap`; an index of capacity 0 is `[]`.
pub mod Growth
pub mod Probe
pub mod Filed
pub mod Locate
use monoblok.Shared.{
  ℕ, zero, suc, ◌+◌, ◌-◌, ◌*◌, ◌/◌, ◌%◌, ◌^◌, ◌≤◌, ◌<◌, min, ◌≡◌, refl, sym, ap, ap₂, subst, ◌∙◌,
  ◌≢◌, ◌↔◌, ◌⊎◌, inl, inr, Bool, true, false, not, ◌&&◌, ◌||◌, Option, none, some, List, [], ◌∷◌,
  ◌++◌, append-nil, append_assoc, arith, Bytes, length, get_elem?, set, take, drop, replicate, All,
  ltb, leb, ◌==◌, if◌then◌else◌, size_max, Bool-cases, Option-cases, &&_split, &&_both, ==_iff,
  codes, ltb→lt, ltb→le, lt→ltb, le→ltb, leb→le, le→leb, length-append, length-drop, length-take,
  take-append, drop-append,
}
use monoblok.Slice.{slice_eq, slice_hash}

-- `mb_router_index_entry` of an occupied slot.
pub record Entry : Type 0 where
  pub hash : ℕ
  pub index : ℕ

abbrev pub Table : Type 0
Table = List (Option Entry)

-- `entries[slot]`; `none` is a slot that is not occupied.
abbrev pub slot_at : Table → ℕ → Option Entry
slot_at table slot = elim (get_elem? table slot) [ none ↦ none | some e ↦ e ]

-- `while (cap < needed)`; `none` is the 0 that is returned where doubling would overflow.
pub next_index_cap_from : ℕ → ℕ → ℕ → Option ℕ
next_index_cap_from zero cap needed = if ltb cap needed then none else some cap
next_index_cap_from (suc fuel) cap needed =
    let rest = next_index_cap_from fuel (cap * 2) needed in
    if ltb cap needed then if ltb (size_max / 2) cap then none else rest else some cap

unfoldable pub next_index_cap : ℕ → Option ℕ
unfolding next_index_cap_from
next_index_cap needed = next_index_cap_from 64 16 needed

-- `while (entries[slot].occupied)`; `none` if no slot is free within the rounds.
pub free_slot : ℕ → Table → ℕ → Option ℕ
free_slot zero table slot = none
free_slot (suc fuel) table slot =
    let rest = free_slot fuel table ((slot + 1) % length table) in
    elim (slot_at table slot) [ none ↦ some slot | some e ↦ rest ]

-- The whole table is probed in `cap` rounds; a full one would hold the source in its loop.
unfoldable pub index_insert : Table → ℕ → ℕ → Table
unfolding free_slot
index_insert table hash index = elim (free_slot (length table) table (hash % length table)) [
  | none ↦ table
  | some slot ↦ set table slot (some (record { hash = hash; index = index }))
]

-- The loops that file the keys from position `i` on.
pub insert_all : Table → ℕ → List Bytes → Table
insert_all table i [] = table
insert_all table i (key ∷ keys) = insert_all (index_insert table (slice_hash key) i) (i + 1) keys

-- `literal_index_ensure` and its copies; `none` where they return false. An entry takes 24 bytes.
unfoldable pub index_ensure : (ℕ → Bool) → Table → List Bytes → ℕ → Option Table
unfolding insert_all next_index_cap
index_ensure alloc table keys needed =
    if not (length table == 0) && ltb needed (length table / 2)
    then some table
    else if ltb (size_max / 4) needed
    then none
    else elim (next_index_cap (if needed == 0 then 16 else needed * 4)) [
      | none ↦ none
      | some cap ↦ if alloc (cap * 24) then some (insert_all (replicate cap none) 0 keys) else none
    ]

-- `literal_index_refresh` and `wildcard_index_refresh`.
unfoldable pub index_refresh : Table → List Bytes → Table
unfolding insert_all
index_refresh table keys =
    if length table == 0 then table else insert_all (replicate (length table) none) 0 keys

-- What a search returns: a position, SIZE_MAX, or nothing within the rounds.
pub data Found : Type 0 where
  found : ℕ → Found
  missing : Found
  endless : Found

-- `entry->hash == hash && mb_slice_eq(keys[entry->index], key)`
pub entry_is : List Bytes → Bytes → ℕ → Entry → Bool
entry_is keys key hash e =
    e.hash == hash && elim (get_elem? keys e.index) [ none ↦ false | some k ↦ slice_eq k key ]

pub find_from : ℕ → Table → List Bytes → Bytes → ℕ → ℕ → Found
find_from zero table keys key hash slot = endless
find_from (suc fuel) table keys key hash slot =
    let rest = find_from fuel table keys key hash ((slot + 1) % length table) in
    elim (slot_at table slot) [
      | none ↦ missing
      | some e ↦ if entry_is keys key hash e then found e.index else rest
    ]

-- `literal_index_find` and its copies.
unfoldable pub index_find : Table → List Bytes → Bytes → ℕ → Found
unfolding find_from entry_is
index_find table keys key hash =
    if length table == 0
    then missing
    else find_from (length table) table keys key hash (hash % length table)

-- The scan of an array that has no index yet.
pub scan_keys : List Bytes → Bytes → Option ℕ
scan_keys [] key = none
scan_keys (k ∷ keys) key =
    if slice_eq k key
    then some 0
    else elim (scan_keys keys key) [ none ↦ none | some i ↦ some (suc i) ]

-- `literal_bucket`, `wildcard_bucket` and `lvc_entry_find` up to the point where they know whether
-- the key is there.
unfoldable pub locate : Table → List Bytes → Bytes → Option ℕ
unfolding scan_keys
locate table keys key = elim (index_find table keys key (slice_hash key)) [
  | found i ↦ some i
  | missing ↦ if length table == 0 then scan_keys keys key else none
  | endless ↦ none
]
