-- ===== src/Router/Index/Filed.antt =====
-- An index beside its array of keys: every key can be found, and the search ends.
use monoblok.Shared.{
  ℕ, zero, suc, ◌+◌, ◌*◌, ◌/◌, ◌%◌, ◌≤◌, ◌<◌, ◌≡◌, refl, ◌∙◌, ◌≢◌, ◌⊎◌, inl, inr, Bool, false, not,
  ◌&&◌, Option, none, some, List, [], ◌∷◌, ◌++◌, append-nil, append_assoc, arith, Bytes, length,
  get_elem?, set, replicate, ltb, ◌==◌, if◌then◌else◌, Bool-cases, Option-cases, ==_iff,
  length-append, length-set, length-replicate, get_elem?-snoc,
}
use monoblok.Slice.{slice_hash}
use monoblok.Router.Index.{
  Entry, Table, slot_at, free_slot, index_insert, insert_all, index_ensure, index_refresh,
  index_find, next_index_cap, Found, found, missing, endless, find_from,
}
use monoblok.Router.Index.Growth.{next_index_cap_lem}
use monoblok.Router.Index.Probe.{
  Reach, Reach-set, Vacant, Vacant-from, free_slot-Free, →entry_is, find_from-found,
  find_from-Reach, find_from-ends,
}

pub occupied : Table → ℕ
occupied [] = 0
occupied (none ∷ table) = occupied table
occupied (some e ∷ table) = suc (occupied table)

occupied-set :
    (table : Table) (v : ℕ) (e : Option Entry) → occupied (set table v e) ≤ occupied table + 1
unfolding occupied
occupied-set [] v e = omega arith
occupied-set (none ∷ t) zero none = omega arith
occupied-set (none ∷ t) zero (some e) = omega arith
occupied-set (some x ∷ t) zero none = omega arith
occupied-set (some x ∷ t) zero (some e) = omega arith
occupied-set (none ∷ t) (suc v) e = occupied-set t v e
occupied-set (some x ∷ t) (suc v) e = omega (arith, occupied-set t v e)

-- A table with fewer entries than slots has a vacant slot.
vacant_slot :
    (table : Table)
    → occupied table < length table
    → (v : ℕ) × (v < length table) × (slot_at table v ≡ none)
unfolding occupied
vacant_slot [] h = elim h [ ]
vacant_slot (none ∷ t) h = (0, omega arith, refl)
vacant_slot (some x ∷ t) h = let (v, l, e) = vacant_slot t (omega arith) in (suc v, omega arith, e)

abbrev entry_of : Bytes → ℕ → Entry
entry_of key i = record { hash = slice_hash key; index = i }

-- Every key is filed in a run of occupied slots from where its hash points.
pub record Indexed (table : Table) (keys : List Bytes) : Type 0 where
  pub filed :
      (i : ℕ) (key : Bytes)
      → get_elem? keys i ≡ some key
      → Reach table (entry_of key i) (slice_hash key % length table)
  pub spare : occupied table ≤ length keys
  pub room : length keys < length table

-- A vacant slot can be reached from any slot.
Vacant-reach :
    (table : Table) (s : ℕ)
    → s < length table
    → occupied table < length table
    → (d : ℕ) × (d < length table) × Vacant table s d
Vacant-reach table s h o = let (v, l, e) = vacant_slot table o in Vacant-from table s v h l e

pub length-index_insert :
    (table : Table) (hash i : ℕ) → length (index_insert table hash i) ≡ length table
unfolding index_insert
length-index_insert table hash i =
    elim (Option-cases (free_slot (length table) table (hash % length table))) [
      | inl e ↦ rw (e, index_insert)
      | inr (v, e) ↦ rw (e, index_insert) (length-set table v _)
    ]

-- One key more, under the next position.
pub index_insert-Indexed :
    (table : Table) (keys : List Bytes) (key : Bytes)
    → Indexed table keys
    → length keys + 1 < length table
    → Indexed (index_insert table (slice_hash key) (length keys)) (keys ++ key ∷ [])
unfolding index_insert
index_insert-Indexed table keys key ix h =
    let start = slice_hash key % length table in
    let (d, l, v) = Vacant-reach table start (omega arith) (omega (arith, ix.spare)) in
    let (s, e, f) = free_slot-Free (length table) table start d v l in
    let e' = entry_of key (length keys) in
    rw (e, index_insert)
      (record {
        filed = λ i k q. elim (get_elem?-snoc keys key k i q) [
          | inl old ↦ rw length-set (Reach-set s (some e') f.vacant (ix.filed i k old))
          | inr (last, same) ↦ rw (last, ← same, length-set) (f.run e')
        ];
        spare =
            omega (arith, occupied-set table s (some e'), length-append keys (key ∷ []), ix.spare);
        room = rw length-set (omega (arith, length-append keys (key ∷ [])));
      })

pub length-insert_all :
    (table : Table) (i : ℕ) (keys : List Bytes) → length (insert_all table i keys) ≡ length table
unfolding insert_all
length-insert_all table i [] = refl
length-insert_all table i (k ∷ keys) =
    length-insert_all (index_insert table (slice_hash k) i) (i + 1) keys
    ∙ length-index_insert table (slice_hash k) i

pub insert_all-Indexed :
    (table : Table) (filed keys : List Bytes)
    → Indexed table filed
    → length filed + length keys < length table
    → Indexed (insert_all table (length filed) keys) (filed ++ keys)
unfolding insert_all
insert_all-Indexed table filed [] ix h = rw append-nil ix
insert_all-Indexed table filed (k ∷ keys) ix h =
    let table' = index_insert table (slice_hash k) (length filed) in
    let one : length (filed ++ k ∷ []) ≡ length filed + 1 =
      omega (arith, length-append filed (k ∷ [])) in
    let room : length (filed ++ k ∷ []) + length keys < length table' =
      omega (arith, one, length-index_insert table (slice_hash k) (length filed)) in
    rw (← one, ← append_assoc filed (k ∷ []) keys)
      (insert_all-Indexed table' (filed ++ k ∷ []) keys
        (index_insert-Indexed table filed k ix (omega arith)) room)

occupied-replicate : (n : ℕ) → occupied (replicate n none) ≡ 0
unfolding occupied
occupied-replicate zero = refl
occupied-replicate (suc n) = occupied-replicate n

-- The loops that file all keys in a table that is cleared.
pub fresh-Indexed :
    (cap : ℕ) (keys : List Bytes)
    → length keys < cap
    → Indexed (insert_all (replicate cap none) 0 keys) keys
fresh-Indexed cap keys h =
    insert_all-Indexed (replicate cap none) [] keys
      (record {
        filed = λ i k q. cc;
        spare = omega (arith, occupied-replicate cap);
        room = omega (arith, length-replicate {A = Option Entry} cap none);
      })
      (omega (arith, length-replicate {A = Option Entry} cap none))

-- Between the calls of the router: an index that was never made, or one that files every key.
abbrev pub Consistent : Table → List Bytes → Type 0
Consistent table keys = (length table ≡ 0) ⊎ Indexed table keys

-- Where an index was never made or is in order, `…_index_ensure`, asked for one key more than there
-- are and not refused, leaves an index of all keys with room for one more.
pub index_ensure-Indexed :
    (alloc : ℕ → Bool) (table : Table) (keys : List Bytes) {table' : Table}
    → Consistent table keys
    → index_ensure alloc table keys (length keys + 1) ≡ some table'
    → Indexed table' keys × (length keys + 1 < length table')
unfolding index_ensure
index_ensure-Indexed alloc table keys {table'} c h =
    let needed = length keys + 1 in
    elim (Bool-cases (not (length table == 0) && ltb needed (length table / 2))) [
      | inl keep ↦
          let same : table ≡ table' = ground arith in
          rw (← same) (elim c [ inl nothing ↦ ground arith | inr ix ↦ (ix, ground arith) ])
      | inr grow ↦ elim (Option-cases (next_index_cap (if needed == 0 then 16 else needed * 4))) [
        | inl no_cap ↦ ground arith
        | inr (cap, e) ↦
            let (k, _, enough, _) = next_index_cap_lem (if needed == 0 then 16 else needed * 4) e in
            let wide : needed * 4 ≤ cap = ground arith in
            let made : insert_all (replicate cap none) 0 keys ≡ table' = ground arith in
            rw (← made) (
              fresh-Indexed cap keys (omega arith),
              omega (
                arith,
                length-insert_all (replicate cap none) 0 keys,
                length-replicate {A = Option Entry} cap none,
              ),
            )
      ]
    ]

-- Where an index was never made or is in order, `…_index_refresh` for no more keys than before
-- leaves one that was never made or files every key.
pub index_refresh-Consistent :
    (table : Table) (keys keys' : List Bytes)
    → Consistent table keys
    → length keys' ≤ length keys
    → Consistent (index_refresh table keys') keys'
unfolding index_refresh
index_refresh-Consistent table keys keys' c h = elim (Bool-cases (length table == 0)) [
  | inl e ↦ rw e (inl ((==_iff (length table) 0).0 e))
  | inr n ↦ rw n (elim c [
    | inl e ↦ absurd (ground arith)
    | inr ix ↦ inr (fresh-Indexed (length table) keys' (omega (arith, ix.room)))
  ])
]

-- What a search for a key returns: a position of the key, or that there is none.
pub data Search (keys : List Bytes) (key : Bytes) : Found → Type 0 where
  at : (i : ℕ) → get_elem? keys i ≡ some key → Search keys key (found i)
  nowhere : ((i : ℕ) → get_elem? keys i ≢ some key) → Search keys key missing

-- In an index that files every key `…_index_find` ends, and finds a position of the key, or that no
-- key is equal to it.
pub index_find-Search :
    (table : Table) (keys : List Bytes) (key : Bytes)
    → Indexed table keys
    → Search keys key (index_find table keys key (slice_hash key))
unfolding index_find
index_find-Search table keys key ix =
    rw (le_zero_ne (length table) (omega (arith, ix.room)))
      (go (find_from (length table) table keys key (slice_hash key) start) refl)
  where
    start : ℕ
    start = slice_hash key % length table

    le_zero_ne : (n : ℕ) → 0 < n → (n == 0) ≡ false
    le_zero_ne n h = ground arith

    go :
        (r : Found)
        → find_from (length table) table keys key (slice_hash key) start ≡ r
        → Search keys key r
    go (found i) e = at i (find_from-found (length table) table keys key (slice_hash key) start i e)
    go missing e = nowhere λ i q.
        find_from-Reach (length table) table keys key start (entry_of key i)
          (→entry_is keys key (slice_hash key) (entry_of key i) refl q) (ix.filed i key q) e
    go endless e =
        let (d, l, v) =
          Vacant-reach table start (omega (arith, ix.room)) (omega (arith, ix.spare, ix.room)) in
        absurd (find_from-ends (length table) table keys key (slice_hash key) start d v l e)
