-- ===== src/Router/Index/Locate.antt =====
-- Where a key stands in its array, with an index or without.
use monoblok.Shared.{
  ℕ, zero, suc, ◌≡◌, refl, ap, ◌≢◌, inl, inr, false, Option, none, some, List, [], ◌∷◌, arith,
  Bytes, length, get_elem?, ◌==◌, Bool-cases,
}
use monoblok.Slice.{slice_eq, slice_hash, slice_eq_iff}
use monoblok.Router.Index.{Table, index_find, scan_keys, locate, Found}
use monoblok.Router.Index.Filed.{Consistent, Search, at, nowhere, index_find-Search}

-- What a search of the array returns.
pub data Located (keys : List Bytes) (key : Bytes) : Option ℕ → Type 0 where
  here : (i : ℕ) → get_elem? keys i ≡ some key → Located keys key (some i)
  absent : ((i : ℕ) → get_elem? keys i ≢ some key) → Located keys key none

scan_keys-Located : (keys : List Bytes) (key : Bytes) → Located keys key (scan_keys keys key)
unfolding scan_keys
scan_keys-Located [] key = absent (λ i h. cc)
scan_keys-Located (k ∷ keys) key = elim (Bool-cases (slice_eq k key)) [
  | inl e ↦ rw e (here 0 (ap some ((slice_eq_iff k key).0 e)))
  | inr n ↦ rw n (later (scan_keys keys key) (scan_keys-Located keys key) n)
]
  where
    later :
        (o : Option ℕ)
        → Located keys key o
        → slice_eq k key ≡ false
        → Located (k ∷ keys) key (elim o [ none ↦ none | some i ↦ some (suc i) ])
    later _ (here i e) n = here (suc i) e
    later _ (absent no_i) n =
        absent (elim [ zero ↦ λ e. ground (arith, slice_eq_iff k key) | suc i ↦ no_i i ])

-- Where an index was never made or is in order, the position that the look-up returns is one of the
-- key, and it returns none only where no key is equal.
pub locate-Located :
    (table : Table) (keys : List Bytes) (key : Bytes)
    → Consistent table keys
    → Located keys key (locate table keys key)
unfolding locate index_find
locate-Located table keys key (inl e) =
    rw (e, locate, index_find) (rw e (scan_keys-Located keys key))
locate-Located table keys key (inr ix) =
    go (index_find table keys key (slice_hash key)) refl (index_find-Search table keys key ix)
  where
    go :
        (r : Found)
        → index_find table keys key (slice_hash key) ≡ r
        → Search keys key r
        → Located keys key (locate table keys key)
    go _ e (at i q) = rw (e, locate) (here i q)
    go _ e (nowhere no_i) =
        rw (e, locate)
          (let z : (length table == 0) ≡ false = ground (arith, ix.room) in rw z (absent no_i))
