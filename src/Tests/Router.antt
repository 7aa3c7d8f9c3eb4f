-- ===== src/Tests/Router.antt =====
-- Runs of the index and the last-value cache, and the theorems on them.
use monoblok.Shared.{
  ℕ, ◌+◌, ◌≤◌, ◌<◌, ◌≡◌, refl, inl, inr, Bool, true, none, some, List, [], ◌∷◌, arith, Bytes,
  length, if◌then◌else◌,
}
use monoblok.Slice.{slice_eq, slice_hash}
use monoblok.Buffer.{empty_buf}
use monoblok.Router.Evolve.{Extends}
use monoblok.Router.Subscribe.{emit_entries}
use monoblok.Router.Subscribe.Replay.{emit_entries-Extends}
use monoblok.Router.Index.{Table, index_ensure, index_refresh, index_find, next_index_cap, locate}
use monoblok.Router.Index.Filed.{
  Indexed, Consistent, Search, index_ensure-Indexed, index_refresh-Consistent, index_find-Search,
}
use monoblok.Router.Index.Locate.{Located, locate-Located}
use monoblok.Router.Lvc.{Lvc, LvcEntry, lvc_keys, lvc_store, lvc_latest, payload_at, cached_subject}
use monoblok.Router.Lvc.Entries.{payload_total, Distinct-snoc}
use monoblok.Router.Lvc.Valid.{IsValid}
use monoblok.Router.Lvc.Values.{value_of, payload_at-locate}
use monoblok.Router.Lvc.Store.{Stored, lvc_store-Stored}
use monoblok.Router.Lvc.Latest.{lvc_latest-lvc_store}

abbrev pub granted : ℕ → Bool
granted n = true

-- `a`
abbrev pub key_a : Bytes
key_a = b'a' ∷ []

-- `b`
abbrev pub key_b : Bytes
key_b = b'b' ∷ []

abbrev one_key : List Bytes
one_key = key_a ∷ []

-- The table that `index_ensure` makes for the key `a`.
abbrev pub small_table : Table
small_table = elim (index_ensure granted [] one_key 2) [ none ↦ [] | some t ↦ t ]

made : index_ensure granted [] one_key 2 ≡ some small_table
unfolding index_ensure
made = refl

made-Indexed : Indexed small_table one_key
made-Indexed = (index_ensure-Indexed granted [] one_key (inl refl) made).0

-- The cache of the subjects `a` and below, with a value under `a`.
abbrev small_lvc : Lvc
small_lvc = record {
  entries = record { subject = key_a; payload = record { bytes = key_b; cap = 4 } } ∷ [];
  cap = 16;
  payload_bytes = 1;
  index = [];
  filters = (b'>' ∷ []) ∷ [];
  filter_cap = 8;
  enabled = true;
}

total : payload_total (small_lvc.entries) ≤ 1
unfolding payload_total
total = omega arith

small_lvc-IsValid : IsValid small_lvc
small_lvc-IsValid = record {
  index_ok = inl refl;
  distinct = Distinct-snoc [] key_a (λ i h. cc) (λ i j k p q. cc);
  few = omega arith;
  sized = total;
  small = omega arith;
  bufs = (record { within = omega arith; in_range = omega arith }, tt);
}

small_cached : cached_subject small_lvc key_b ≡ true
unfolding cached_subject monoblok.Router.Match.subject_has_lvc_prefix monoblok.Slice.has_prefix
    monoblok.Router.Match.subject_has_stats_prefix monoblok.Router.Lvc.lvc_subject_enabled
    monoblok.Router.Lvc.any_matches monoblok.Router.Match.subject_matches
    monoblok.Subject.split_at_dot monoblok.Proto.Subjects.is_byte
small_cached = refl

small_stored : (lvc_store granted small_lvc key_b key_a).0 ≡ true
unfolding lvc_store monoblok.Router.Match.subject_has_lvc_prefix monoblok.Slice.has_prefix
    monoblok.Router.Match.subject_has_stats_prefix monoblok.Router.Lvc.lvc_subject_enabled
    monoblok.Router.Lvc.any_matches monoblok.Router.Match.subject_matches
    monoblok.Subject.split_at_dot monoblok.Proto.Subjects.is_byte
    monoblok.Proto.Subjects.subject_valid monoblok.Proto.Token.token_valid
    monoblok.Proto.Subjects.no_wildcard locate index_find slice_eq index_ensure
    monoblok.Buffer.array_reserve monoblok.Buffer.append monoblok.Buffer.double_until
    monoblok.Buffer.reserve next_index_cap cached_subject slice_hash monoblok.Buffer.clear
small_stored = refl

index_ensure-Indexed_example :
    Indexed small_table one_key × (length one_key + 1 < length small_table)
index_ensure-Indexed_example = index_ensure-Indexed granted [] one_key (inl refl) made

index_refresh-Consistent_example : Consistent (index_refresh small_table (key_b ∷ [])) (key_b ∷ [])
index_refresh-Consistent_example =
    index_refresh-Consistent small_table one_key (key_b ∷ []) (inr made-Indexed) (omega arith)

index_find-Search_example :
    Search one_key key_a (index_find small_table one_key key_a (slice_hash key_a))
index_find-Search_example = index_find-Search small_table one_key key_a made-Indexed

locate-Located_example : Located one_key key_b (locate small_table one_key key_b)
locate-Located_example = locate-Located small_table one_key key_b (inr made-Indexed)

payload_at-locate_example :
    payload_at small_lvc (locate [] (lvc_keys small_lvc) key_a) ≡ value_of (small_lvc.entries) key_a
payload_at-locate_example = payload_at-locate small_lvc key_a small_lvc-IsValid

lvc_store-Stored_example : Stored small_lvc key_b key_a (lvc_store granted small_lvc key_b key_a)
lvc_store-Stored_example =
    lvc_store-Stored granted small_lvc key_b key_a small_lvc-IsValid small_cached

lvc_latest-lvc_store_example :
    lvc_latest (lvc_store granted small_lvc key_b key_a).1 key_b
    ≡ (if slice_eq key_b key_b then some key_a else lvc_latest small_lvc key_b)
lvc_latest-lvc_store_example =
    lvc_latest-lvc_store granted small_lvc key_b key_a small_lvc-IsValid small_cached small_stored
      key_b

emit_entries-Extends_example :
    Extends empty_buf (emit_entries granted small_lvc key_a key_b (small_lvc.entries) empty_buf).1
emit_entries-Extends_example =
    emit_entries-Extends granted small_lvc key_a key_b (small_lvc.entries) empty_buf
      (small_lvc-IsValid.bufs) (record { within = omega arith; in_range = omega arith })
      (omega arith)
