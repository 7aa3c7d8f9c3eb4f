-- ===== src/Router/Lvc.antt =====
-- src/router.c: the last-value cache, the `lvc_…` fields of `mb_router`.
pub mod Entries
pub mod Valid
pub mod Values
pub mod Store
pub mod Latest
use monoblok.Shared.{
  ℕ, zero, suc, ◌+◌, ◌-◌, ◌*◌, ◌/◌, ◌%◌, ◌^◌, ◌≤◌, ◌<◌, min, ◌≡◌, refl, sym, ap, ap₂, subst, ◌∙◌,
  ◌≢◌, ◌↔◌, ◌⊎◌, inl, inr, Bool, true, false, not, ◌&&◌, ◌||◌, Option, none, some, List, [], ◌∷◌,
  ◌++◌, append-nil, append_assoc, arith, Bytes, length, get_elem?, set, take, drop, replicate, All,
  ltb, leb, ◌==◌, if◌then◌else◌, size_max, Bool-cases, Option-cases, &&_split, &&_both, ==_iff,
  codes, ltb→lt, ltb→le, lt→ltb, le→ltb, leb→le, le→leb, length-append, length-drop, length-take,
  take-append, drop-append, map,
}
use monoblok.Buffer.{Buf, empty_buf, array_reserve, append, clear}
use monoblok.Slice.{slice_hash}
use monoblok.Proto.Subjects.{subject_valid}
use monoblok.Router.Match.{subject_matches, subject_has_lvc_prefix, subject_has_stats_prefix}
use monoblok.Router.Index.{Table, locate, index_ensure, index_insert}

abbrev pub max_lvc_entries : ℕ
max_lvc_entries = 65536

abbrev pub max_lvc_bytes : ℕ
max_lvc_bytes = 64 * 1024 * 1024

-- `mb_lvc_entry`
pub record LvcEntry : Type 0 where
  pub subject : Bytes
  pub payload : Buf

pub record Lvc : Type 0 where
  pub entries : List LvcEntry
  pub cap : ℕ
  pub payload_bytes : ℕ
  pub index : Table
  pub filters : List Bytes
  pub filter_cap : ℕ
  pub enabled : Bool

abbrev pub lvc_keys : Lvc → List Bytes
lvc_keys l = map (λ (e : LvcEntry). e.subject) l.entries

unfoldable pub any_matches : List Bytes → Bytes → Bool
any_matches [] subject = false
any_matches (f ∷ filters) subject =
    if subject_matches f subject then true else any_matches filters subject

unfoldable pub lvc_subject_enabled : Lvc → Bytes → Bool
lvc_subject_enabled l subject = if not l.enabled then false else any_matches l.filters subject

pub any_stats_matches : List Bytes → Bytes → Bool
any_stats_matches [] subject = false
any_stats_matches (f ∷ filters) subject =
    if subject_has_stats_prefix f && subject_matches f subject
    then true
    else any_stats_matches filters subject

pub lvc_stats_subject_enabled : Lvc → Bytes → Bool
unfolding any_stats_matches
lvc_stats_subject_enabled l subject =
    if not l.enabled then false else any_stats_matches l.filters subject

all_valid : List Bytes → Bool
all_valid [] = true
all_valid (f ∷ filters) = if not (subject_valid f true) then false else all_valid filters

-- A copy of `n` bytes allocates at least one.
abbrev pub dup_size : ℕ → ℕ
dup_size n = if n == 0 then 1 else n

pub old_payload_len : Lvc → Option ℕ → ℕ
old_payload_len l none = 0
old_payload_len l (some i) = elim (get_elem? l.entries i) [
  | none ↦ 0
  | some e ↦ length e.payload.bytes
]

-- Whether `lvc_store` caches values of the subject.
unfoldable pub cached_subject : Lvc → Bytes → Bool
cached_subject l subject =
    if subject_has_lvc_prefix subject
    then false
    else if subject_has_stats_prefix subject
    then lvc_stats_subject_enabled l subject
    else lvc_subject_enabled l subject

module _ (alloc : ℕ → Bool) where
  -- The loop of `mb_slice_dup` calls: whether every copy is granted.
  all_copied : List Bytes → Bool
  all_copied [] = true
  all_copied (f ∷ filters) = if alloc (dup_size (length f)) then all_copied filters else false

  -- `mb_router_configure_lvc`. A failure leaves the cache disabled and without filters.
  unfoldable pub configure_lvc : Lvc → List Bytes → Bool × Lvc
  unfolding all_valid all_copied
  configure_lvc l filters =
      let off = record l { enabled = false; filters = [] } in
      if length filters == 0
      then (true, off)
      else if not (all_valid filters)
      then (false, off)
      else elim (array_reserve alloc l.filter_cap (length filters) 16 8) [
        | none ↦ (false, off)
        | some cap ↦
            if all_copied filters
            then (true, record l { filter_cap = cap; filters = filters; enabled = true })
            else (false, record off { filter_cap = cap })
      ]

  -- The part of `lvc_store` that makes an entry with an empty payload at the end of the array.
  pub lvc_add : Lvc → Bytes → Bool × Lvc
  lvc_add l subject =
      if leb max_lvc_entries (length l.entries)
      then (false, l)
      else elim (index_ensure alloc l.index (lvc_keys l) (length l.entries + 1)) [
        | none ↦ (false, l)
        | some index ↦ elim (array_reserve alloc l.cap (length l.entries + 1) 40 16) [
          | none ↦ (false, record l { index = index })
          | some cap ↦
              if alloc (dup_size (length subject))
              then (
                true,
                record l {
                  index = index_insert index (slice_hash subject) (length l.entries);
                  cap = cap;
                  entries = l.entries ++ record { subject = subject; payload = empty_buf } ∷ [];
                },
              )
              else (false, record l { index = index; cap = cap })
        ]
      ]

  -- The end of `lvc_store`: the payload of the entry at `i` is replaced; `base` is what the other
  -- payloads hold.
  pub lvc_write : Lvc → ℕ → ℕ → Bytes → Bool × Lvc
  lvc_write l i base payload = elim (get_elem? l.entries i) [
    | none ↦ (false, l)
    | some e ↦
        let (done, buf) = append alloc (clear e.payload) payload in
        let entries = set l.entries i (record e { payload = buf }) in
        if done
        then (true, record l { entries = entries; payload_bytes = base + length payload })
        else (false, record l { entries = entries })
  ]

  -- `lvc_store` once the value is known to fit: an entry that is there is written, else one is made.
  pub lvc_put : Lvc → Bytes → Bytes → ℕ → Option ℕ → Bool × Lvc
  lvc_put l subject payload base (some i) = lvc_write l i base payload
  lvc_put l subject payload base none =
      let (added, l') = lvc_add l subject in
      if added then lvc_write l' (length l.entries) base payload else (false, l')

  -- `lvc_store` from the look-up on, at the position that it returned.
  pub lvc_store_at : Lvc → Bytes → Bytes → Option ℕ → Bool × Lvc
  lvc_store_at l subject payload position =
      let old = old_payload_len l position in
      let base = l.payload_bytes - old in
      if ltb l.payload_bytes old
      then (false, l)
      else if ltb max_lvc_bytes base || ltb (max_lvc_bytes - base) (length payload)
      then (false, l)
      else lvc_put l subject payload base position

  unfoldable pub lvc_store : Lvc → Bytes → Bytes → Bool × Lvc
  unfolding lvc_store_at lvc_put lvc_add lvc_write old_payload_len cached_subject
  lvc_store l subject payload =
      if not (cached_subject l subject)
      then (true, l)
      else if not (subject_valid subject false)
      then (false, l)
      else lvc_store_at l subject payload (locate l.index (lvc_keys l) subject)

-- `mb_router_lvc_entry`
pub lvc_entry : Lvc → ℕ → Option (Bytes × Bytes)
lvc_entry l i = elim (get_elem? l.entries i) [
  | none ↦ none
  | some e ↦ some (e.subject, e.payload.bytes)
]

-- The payload at a position that a search returned.
abbrev pub payload_at : Lvc → Option ℕ → Option Bytes
payload_at l none = none
payload_at l (some i) = elim (get_elem? l.entries i) [ none ↦ none | some e ↦ some e.payload.bytes ]

unfoldable pub lvc_latest : Lvc → Bytes → Option Bytes
lvc_latest l subject =
    if not (subject_valid subject false) || not (lvc_subject_enabled l subject)
    then none
    else payload_at l (locate l.index (lvc_keys l) subject)
