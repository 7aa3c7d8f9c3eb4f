-- ===== src/Router/Index/Probe.antt =====
-- Probing: it goes round the table, so it meets a vacant slot where there is one, and what is filed
-- at the end of a run of occupied slots is found.
use monoblok.Shared.{
  ℕ, zero, suc, ◌+◌, ◌-◌, ◌%◌, ◌<◌, ◌≡◌, refl, sym, ap, subst, ◌∙◌, ◌≢◌, inl, inr, true, Option,
  none, some, List, arith, Bytes, length, get_elem?, set, leb, Bool-cases, Option-cases, leb→le,
  get_elem?-set_ne, length-set, get_elem?-set_self,
}
use native.Mathlib.Nat.{mod-add-mod, mod-eq_of_lt}
use monoblok.Slice.{slice_eq_iff}
use monoblok.Router.Index.{
  Entry, Table, slot_at, free_slot, entry_is, find_from, found, missing, endless,
}

-- What a write leaves in each slot.
pub slot_at-set_self :
    (table : Table) (s : ℕ) (e : Option Entry) → s < length table → slot_at (set table s e) s ≡ e
slot_at-set_self table s e h = rw (get_elem?-set_self table s e h, slot_at)

pub slot_at-set_ne :
    (table : Table) (s r : ℕ) (e : Option Entry)
    → s ≢ r
    → slot_at (set table s e) r ≡ slot_at table r
slot_at-set_ne table s r e n = rw (get_elem?-set_ne table s r e n, slot_at)

-- From `s` on every slot is occupied up to one that holds `e`.
pub data Reach (table : Table) (e : Entry) : ℕ → Type 0 where
  hit : {s : ℕ} → slot_at table s ≡ some e → Reach table e s
  skip :
      {s : ℕ} (other : Entry)
      → slot_at table s ≡ some other
      → Reach table e ((s + 1) % length table)
      → Reach table e s

-- A vacant slot is none of the occupied ones.
vacant_ne :
    (table : Table) {v s : ℕ} {e : Entry}
    → slot_at table v ≡ none
    → slot_at table s ≡ some e
    → v ≢ s
vacant_ne table h q p = cc (ap (slot_at table) p)

-- A write to a vacant slot breaks no such run.
pub Reach-set :
    {table : Table} {e : Entry} {s : ℕ} (v : ℕ) (x : Option Entry)
    → slot_at table v ≡ none
    → Reach table e s
    → Reach (set table v x) e s
Reach-set {table} {e} {s} v x h (hit q) = hit (slot_at-set_ne table v s x (vacant_ne table h q) ∙ q)
Reach-set {table} {e} {s} v x h (skip other q r) =
    skip other (slot_at-set_ne table v s x (vacant_ne table h q) ∙ q)
      (rw (length-set table v x) (Reach-set v x h r))

-- Some vacant slot is `d` steps further on.
pub record Vacant (table : Table) (s d : ℕ) : Type 0 where
  pub at : slot_at table ((s + d) % length table) ≡ none
  pub inside : s < length table

Vacant-next :
    {table : Table} {s d : ℕ} → Vacant table s (suc d) → Vacant table ((s + 1) % length table) d
Vacant-next {table} {s} {d} v = record {
  at =
      subst (λ k. slot_at table k ≡ none)
        (sym (mod-add-mod (s + 1) _ d ∙ ap (λ k. k % length table) (omega arith))) v.at;
  inside = omega (arith, v.inside);
}

Vacant-here : {table : Table} {s : ℕ} → Vacant table s 0 → slot_at table s ≡ none
Vacant-here {table} {s} v =
    subst (λ k. slot_at table k ≡ none)
      (ap (λ k. k % length table) (omega arith) ∙ mod-eq_of_lt v.inside) v.at

-- From any slot each vacant slot is less than a round away.
pub Vacant-from :
    (table : Table) (s v : ℕ)
    → s < length table
    → v < length table
    → slot_at table v ≡ none
    → (d : ℕ) × (d < length table) × Vacant table s d
Vacant-from table s v hs hv e = elim (Bool-cases (leb s v)) [
  | inl le ↦ (
    v - s,
    omega (arith, leb→le s v le),
    record {
      at =
          subst (λ k. slot_at table k ≡ none)
            (sym (mod-eq_of_lt hv) ∙ ap (λ k. k % length table) (omega (arith, leb→le s v le))) e;
      inside = hs;
    },
  )
  | inr gt ↦
      let lt : v < s = ground arith in
      (
        v + length table - s,
        omega arith,
        record {
          at =
              subst (λ k. slot_at table k ≡ none)
                (sym (wraps v (length table) hv) ∙ ap (λ k. k % length table) (omega arith)) e;
          inside = hs;
        },
      )
]
  where
    wraps : (v n : ℕ) → v < n → (v + n) % n ≡ v
    wraps v n h = grind arith

-- Where the free slot that a search finds stands, and the run that ends there.
pub record Free (table : Table) (s v : ℕ) : Type 0 where
  pub vacant : slot_at table v ≡ none
  pub inside : v < length table
  pub run : (e : Entry) → Reach (set table v (some e)) e s

pub free_slot-Free :
    (fuel : ℕ) (table : Table) (s d : ℕ)
    → Vacant table s d
    → d < fuel
    → (v : ℕ) × (free_slot fuel table s ≡ some v) × Free table s v
unfolding free_slot
free_slot-Free zero table s d h l = absurd (omega arith)
free_slot-Free (suc fuel) table s d h l =
    go (slot_at table s) refl d h l (free_slot-Free fuel table ((s + 1) % length table))
  where
    go :
        (o : Option Entry)
        → slot_at table s ≡ o
        → (d : ℕ) → Vacant table s d
        → d < suc fuel
        → ((d : ℕ)
            → Vacant table ((s + 1) % length table) d
            → d < fuel
            → (v : ℕ) × (free_slot fuel table ((s + 1) % length table) ≡ some v)
              × Free table ((s + 1) % length table) v)
        → (v : ℕ) × (free_slot (suc fuel) table s ≡ some v) × Free table s v
    go none e d h l ih = (
      s,
      rw (e, free_slot),
      record {
        vacant = e;
        inside = h.inside;
        run = λ x. hit (slot_at-set_self table s (some x) h.inside);
      },
    )
    go (some x) e zero h l ih = cc (Vacant-here h)
    go (some x) e (suc d) h l ih =
        let (v, q, f) = ih d (Vacant-next h) (omega arith) in
        (
          v,
          rw (e, free_slot) q,
          record {
            vacant = f.vacant;
            inside = f.inside;
            run = λ y.
                skip x (slot_at-set_ne table v s (some y) (vacant_ne table f.vacant e) ∙ e)
                  (rw (length-set table v (some y)) (f.run y));
          },
        )

-- The entry that a search stops at is filed under the key.
pub entry_is→ :
    (keys : List Bytes) (key : Bytes) (hash : ℕ) (e : Entry)
    → entry_is keys key hash e ≡ true
    → (e.hash ≡ hash) × (get_elem? keys e.index ≡ some key)
unfolding entry_is
entry_is→ keys key hash e h = elim (Option-cases (get_elem? keys e.index)) [
  | inl q ↦ ground arith
  | inr (k, q) ↦ ground (arith, slice_eq_iff k key)
]

pub →entry_is :
    (keys : List Bytes) (key : Bytes) (hash : ℕ) (e : Entry)
    → e.hash ≡ hash
    → get_elem? keys e.index ≡ some key
    → entry_is keys key hash e ≡ true
unfolding entry_is
→entry_is keys key hash e h q = ground (arith, slice_eq_iff key key)

-- The position that a search returns holds the key.
pub find_from-found :
    (fuel : ℕ) (table : Table) (keys : List Bytes) (key : Bytes) (hash s j : ℕ)
    → find_from fuel table keys key hash s ≡ found j
    → get_elem? keys j ≡ some key
unfolding find_from
find_from-found zero table keys key hash s j h = cc
find_from-found (suc fuel) table keys key hash s j h = elim (Option-cases (slot_at table s)) [
  | inl q ↦ cc (rw (q, find_from) at h)
  | inr (e, q) ↦
      let next = (s + 1) % length table in
      ground (
        arith,
        entry_is→ keys key hash e,
        find_from-found fuel table keys key hash next j,
        (rw (q, find_from) at h),
      )
]

-- What is filed is not missed.
pub find_from-Reach :
    (fuel : ℕ) (table : Table) (keys : List Bytes) (key : Bytes) (s : ℕ) (e : Entry)
    → entry_is keys key e.hash e ≡ true
    → Reach table e s
    → find_from fuel table keys key e.hash s ≢ missing
unfolding find_from
find_from-Reach zero table keys key s e k r h = cc
find_from-Reach (suc fuel) table keys key s e k (hit q) h = cc (rw (q, find_from, k) at h)
find_from-Reach (suc fuel) table keys key s e k (skip other q r) h = ground (
  arith,
  find_from-Reach fuel table keys key ((s + 1) % length table) e k r,
  (rw (q, find_from) at h),
)

-- With a vacant slot in reach the search ends.
pub find_from-ends :
    (fuel : ℕ) (table : Table) (keys : List Bytes) (key : Bytes) (hash s d : ℕ)
    → Vacant table s d
    → d < fuel
    → find_from fuel table keys key hash s ≢ endless
unfolding find_from
find_from-ends zero table keys key hash s d v l h = absurd (omega arith)
find_from-ends (suc fuel) table keys key hash s d v l h =
    go (slot_at table s) refl d v l
      (find_from-ends fuel table keys key hash ((s + 1) % length table))
  where
    go :
        (o : Option Entry)
        → slot_at table s ≡ o
        → (d : ℕ) → Vacant table s d
        → d < suc fuel
        → ((d : ℕ)
            → Vacant table ((s + 1) % length table) d
            → d < fuel
            → find_from fuel table keys key hash ((s + 1) % length table) ≢ endless)
        → ⊥
    go none q d v l ih = cc (rw (q, find_from) at h)
    go (some e) q zero v l ih = cc (Vacant-here v)
    go (some e) q (suc d) v l ih =
        ground (arith, ih d (Vacant-next v) (omega arith), (rw (q, find_from) at h))
