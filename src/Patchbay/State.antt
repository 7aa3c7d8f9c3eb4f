-- ===== src/Patchbay/State.antt =====
-- src/patchbay/pb_eval.c: the state of a rule, which finds its entries by operation and subject. The
-- index is that of `Router.Index`, whose code src/patchbay repeats, over keys of three parts.
pub mod Keys
use Prim.Native.Nat.{bit_xor}
use monoblok.Shared.{
  ℕ, zero, suc, ◌+◌, ◌*◌, ◌/◌, ◌%◌, ◌^◌, Bool, true, false, not, ◌&&◌, ◌||◌, Option, none, some,
  List, [], ◌∷◌, ◌++◌, Bytes, length, get_elem?, replicate, ltb, leb, ◌==◌, if◌then◌else◌, size_max,
}
use monoblok.Slice.{slice_eq, hash_from}
use monoblok.Buffer.{array_reserve}
use monoblok.Router.Index.{
  Table, slot_at, index_insert, next_index_cap, Found, found, missing, endless,
}
use monoblok.Patchbay.Entry.{Entry, fresh_entry}

-- `pb_eval_state`; the index is empty while its capacity is 0.
pub record State (N : Type 0) : Type 0 where
  pub items : List (Entry N)
  pub cap : ℕ
  pub index : Table

-- The bytes of a `size_t` in memory.
pub little_endian : ℕ → ℕ → Bytes
little_endian zero n = []
little_endian (suc size) n = (n % 256) ∷ little_endian size (n / 256)

-- `state_key_hash`
pub state_key_hash : ℕ → Bytes → Bytes → ℕ
state_key_hash rule_id op subject =
    let h = hash_from (hash_from 1469598103934665603 (little_endian 8 rule_id)) op in
    hash_from (bit_xor h 255 * 1099511628211 % 2 ^ 64) subject

-- `state_key_eq`
unfoldable pub state_key_eq : {N : Type 0} → Entry N → ℕ → Bytes → Bytes → Bool
state_key_eq e rule_id op subject =
    e.rule_id == rule_id && slice_eq e.op op && slice_eq e.subject subject

-- `state_index_cap_for`; `none` is its 0.
pub state_index_cap_for : ℕ → Option ℕ
state_index_cap_for needed =
    if ltb (size_max / 4) needed
    then none
    else next_index_cap (if needed == 0 then 16 else needed * 4)

-- The loop that files the entries from position `i` on.
pub insert_items : {N : Type 0} → Table → ℕ → List (Entry N) → Table
insert_items table i [] = table
insert_items table i (e ∷ items) =
    insert_items (index_insert table (state_key_hash e.rule_id e.op e.subject) i) (i + 1) items

-- `state_index_rebuild`; an entry of the index takes 24 bytes.
pub state_index_rebuild : {N : Type 0} → (ℕ → Bool) → State N → ℕ → Bool × State N
state_index_rebuild alloc s needed =
    if not (length s.index == 0) && ltb needed (length s.index / 2)
    then (true, s)
    else elim (state_index_cap_for needed) [
      | none ↦ (false, s)
      | some cap ↦
          if alloc (cap * 24)
          then (true, record s { index = insert_items (replicate cap none) 0 s.items })
          else (false, s)
    ]

-- `entry->hash == hash && state_key_eq(candidate, …)`
pub state_index_is : {N : Type 0} → List (Entry N) → ℕ → Bytes → Bytes → ℕ → ℕ → ℕ → Bool
state_index_is items rule_id op subject hash filed_hash i =
    filed_hash == hash
    && elim (get_elem? items i) [ none ↦ false | some e ↦ state_key_eq e rule_id op subject ]

-- The loop of `state_index_find`, in at most as many rounds as the index has slots.
pub state_find_from : {N : Type 0} → ℕ → State N → ℕ → Bytes → Bytes → ℕ → ℕ → Found
state_find_from zero s rule_id op subject hash slot = endless
state_find_from (suc rounds) s rule_id op subject hash slot =
    let rest = state_find_from rounds s rule_id op subject hash ((slot + 1) % length s.index) in
    elim (slot_at s.index slot) [
      | none ↦ missing
      | some e ↦
          if state_index_is s.items rule_id op subject hash e.hash e.index
          then found e.index
          else rest
    ]

-- `state_index_find`
pub state_index_find : {N : Type 0} → State N → ℕ → Bytes → Bytes → ℕ → Found
state_index_find s rule_id op subject hash =
    if length s.index == 0
    then missing
    else state_find_from (length s.index) s rule_id op subject hash (hash % length s.index)

-- The scan of a state that has no index.
pub scan_items : {N : Type 0} → List (Entry N) → ℕ → Bytes → Bytes → Option ℕ
scan_items [] rule_id op subject = none
scan_items (e ∷ items) rule_id op subject =
    let rest = scan_items items rule_id op subject in
    if state_key_eq e rule_id op subject
    then some 0
    else elim rest [ none ↦ none | some i ↦ some (suc i) ]

-- `state_slot` up to the point where it knows whether the entry is there.
pub state_find : {N : Type 0} → State N → ℕ → Bytes → Bytes → Option ℕ
state_find s rule_id op subject =
    elim (state_index_find s rule_id op subject (state_key_hash rule_id op subject)) [
      | found i ↦ some i
      | missing ↦ if length s.index == 0 then scan_items s.items rule_id op subject else none
      | endless ↦ none
    ]

module _ {N : Type 0} (z : N) (alloc : ℕ → Bool) where
  -- The rest of `state_slot`, once there is an index where one is wanted: room in the array (an
  -- entry takes 328 bytes), the copies of the key, the entry, and its place in the index.
  pub state_append : State N → ℕ → Bytes → Bytes → Option ℕ × State N
  state_append s rule_id op subject =
      let n = length s.items in
      let hash = state_key_hash rule_id op subject in
      let copied =
        alloc (if length op == 0 then 1 else length op)
        && alloc (if length subject == 0 then 1 else length subject) in
      elim (array_reserve alloc s.cap (n + 1) 328 8) [
        | none ↦ (none, s)
        | some cap ↦
            if copied
            then (
              some n,
              record {
                items = s.items ++ fresh_entry z rule_id op subject ∷ [];
                cap = cap;
                index = if length s.index == 0 then s.index else index_insert s.index hash n;
              },
            )
            else (none, record s { cap = cap })
      ]

  pub state_create : State N → ℕ → Bytes → Bytes → Option ℕ × State N
  state_create s rule_id op subject =
      let n = length s.items in
      let (indexed, s') =
        if not (length s.index == 0) || leb 8 n
        then state_index_rebuild alloc s (n + 1)
        else (true, s) in
      if indexed then state_append s' rule_id op subject else (none, s')

  -- `state_slot`: the position of the entry of an operation and a subject, `none` where it is NULL.
  pub state_slot : State N → ℕ → Bytes → Bytes → Option ℕ × State N
  state_slot s rule_id op subject =
      let n = length s.items in
      let s' : State N =
        if length s.index == 0 && leb 8 n then (state_index_rebuild alloc s n).1 else s in
      elim (state_find s' rule_id op subject) [
        | some i ↦ (some i, s')
        | none ↦ state_create s' rule_id op subject
      ]
