-- ===== src/Router/Lvc/Valid.antt =====
-- The invariant of the last-value cache, which storing a value keeps, whatever the allocator does.
use monoblok.Shared.{
  ℕ, ◌+◌, ◌≤◌, ◌<◌, ◌≡◌, refl, ap, subst, ◌≢◌, inl, inr, Bool, true, false, some, [], ◌∷◌, ◌++◌,
  arith, Bytes, length, get_elem?, set, leb, Bool-cases, Option-cases, length-append, length-set,
}
use monoblok.Buffer.{Buf, empty_buf, append, clear, array_reserve}
use monoblok.Buffer.Laws.{append-Keeps}
use monoblok.Buffer.Laws
use monoblok.Slice.{slice_hash}
use monoblok.Router.Index.{Table, index_ensure, index_insert}
use monoblok.Router.Index.Filed.{Indexed, Consistent, index_ensure-Indexed, index_insert-Indexed}
use monoblok.Router.Lvc.Entries.{
  Distinct, Distinct-snoc, payload_total, Bufs, keys-snoc, length-keys, payload_total-snoc,
  Bufs-snoc, keys-set, payload_total-set, Bufs-set, Bufs-get,
}
use monoblok.Router.Lvc.{
  Lvc, LvcEntry, lvc_keys, lvc_add, lvc_write, max_lvc_entries, max_lvc_bytes, dup_size,
}

pub record IsValid (l : Lvc) : Type 0 where
  pub index_ok : Consistent l.index (lvc_keys l)
  pub distinct : Distinct (lvc_keys l)
  pub few : length l.entries ≤ max_lvc_entries
  pub sized : payload_total l.entries ≤ l.payload_bytes
  pub small : l.payload_bytes ≤ max_lvc_bytes
  pub bufs : Bufs l.entries

-- What `lvc_add` leaves: the cache with an empty entry more, or the entries as they were.
pub record Added (l : Lvc) (subject : Bytes) (r : Bool × Lvc) : Type 0 where
  pub valid : IsValid r.1
  pub bytes : r.1.payload_bytes ≡ l.payload_bytes
  pub total : payload_total r.1.entries ≡ payload_total l.entries
  pub made :
      r.0 ≡ true → r.1.entries ≡ l.entries ++ record { subject = subject; payload = empty_buf } ∷ []
  pub kept : r.0 ≡ false → r.1.entries ≡ l.entries
  pub filters : (r.1.filters ≡ l.filters) × (r.1.enabled ≡ l.enabled)

module _ (alloc : ℕ → Bool) where
  pub lvc_add-Added :
      (l : Lvc) (subject : Bytes)
      → IsValid l
      → ((i : ℕ) → get_elem? (lvc_keys l) i ≢ some subject)
      → Added l subject (lvc_add alloc l subject)
  unfolding lvc_add
  lvc_add-Added l subject v new = elim (Bool-cases (leb max_lvc_entries (length l.entries))) [
    | inl full ↦ rw full (unchanged l v refl)
    | inr room ↦
        elim (Option-cases (index_ensure alloc l.index (lvc_keys l) (length l.entries + 1))) [
          | inl e ↦ rw (e, lvc_add) (rw room (unchanged l v refl))
          | inr (index, e) ↦
              let (ix, roomy) = ensured index e in
              elim (Option-cases (array_reserve alloc l.cap (length l.entries + 1) 40 16)) [
                | inl q ↦
                    rw (e, lvc_add, q)
                      (rw room (unchanged (record l { index = index }) (moved index l.cap ix) refl))
                | inr (cap, q) ↦ elim (Bool-cases (alloc (dup_size (length subject)))) [
                  | inl copied ↦
                      rw (e, lvc_add, q)
                        (rw (room, copied) (grown index cap ix roomy (ground arith)))
                  | inr refused ↦
                      rw (e, lvc_add, q)
                        (rw (room, refused)
                          (unchanged (record l { index = index; cap = cap }) (moved index cap ix)
                            refl))
                ]
              ]
        ]
  ]
    where
      -- A call that fails keeps the entries; it may have made a larger index.
      unchanged :
          (l' : Lvc)
          → IsValid l'
          → (record l' { index = l.index; cap = l.cap } ≡ l)
          → Added l subject (false, l')
      unchanged l' v' same = record {
        valid = v';
        bytes = ap (λ (x : Lvc). x.payload_bytes) same;
        total = ap (λ (x : Lvc). payload_total x.entries) same;
        made = λ e. cc;
        kept = λ e. ap (λ (x : Lvc). x.entries) same;
        filters = (ap (λ (x : Lvc). x.filters) same, ap (λ (x : Lvc). x.enabled) same);
      }

      ensured :
          (index : Table)
          → index_ensure alloc l.index (lvc_keys l) (length l.entries + 1) ≡ some index
          → Indexed index (lvc_keys l) × (length (lvc_keys l) + 1 < length index)
      ensured index e =
          index_ensure-Indexed alloc l.index (lvc_keys l) v.index_ok (rw length-keys e)

      -- The new index files the keys that were there.
      moved :
          (index : Table) (cap : ℕ)
          → Indexed index (lvc_keys l)
          → IsValid (record l { index = index; cap = cap })
      moved index cap ix = record {
        index_ok = inr ix;
        distinct = v.distinct;
        few = v.few;
        sized = v.sized;
        small = v.small;
        bufs = v.bufs;
      }

      fresh : LvcEntry
      fresh = record { subject = subject; payload = empty_buf }

      total : payload_total (l.entries ++ fresh ∷ []) ≡ payload_total l.entries
      total = omega (arith, payload_total-snoc l.entries fresh)

      grown :
          (index : Table) (cap : ℕ)
          → Indexed index (lvc_keys l)
          → length (lvc_keys l) + 1 < length index
          → length l.entries < max_lvc_entries
          → Added l subject (
            true,
            record l {
              index = index_insert index (slice_hash subject) (length l.entries);
              cap = cap;
              entries = l.entries ++ fresh ∷ [];
            },
          )
      grown index cap ix roomy few = record {
        valid = record {
          index_ok = inr (
              rw keys-snoc (
                subst
                  (λ n.
                    Indexed (index_insert index (slice_hash subject) n)
                      (lvc_keys l ++ subject ∷ []))
                  (length-keys l.entries)
                  (index_insert-Indexed index (lvc_keys l) subject ix roomy)));
          distinct = rw keys-snoc (Distinct-snoc (lvc_keys l) subject new v.distinct);
          few = omega (arith, length-append l.entries (fresh ∷ []));
          sized = rw total v.sized;
          small = v.small;
          bufs = Bufs-snoc l.entries fresh v.bufs (omega arith);
        };
        bytes = refl;
        total = total;
        made = λ e. refl;
        kept = λ e. cc;
        filters = (refl, refl);
      }

-- What `lvc_write` leaves: the payload of the entry replaced, or cleared where the allocator refuses.
pub record Written (l : Lvc) (i : ℕ) (e : LvcEntry) (payload : Bytes) (r : Bool × Lvc)
    : Type 0 where
  pub valid : IsValid r.1
  pub buf : Buf
  pub entries : r.1.entries ≡ set l.entries i (record e { payload = buf })
  pub stored : r.0 ≡ true → buf.bytes ≡ payload
  pub same : record r.1 { entries = l.entries; payload_bytes = l.payload_bytes } ≡ l

module _ (l : Lvc) (i : ℕ) (e : LvcEntry) (v : IsValid l) (h : get_elem? l.entries i ≡ some e) where
  -- Any buffer may replace the payload, if the new count covers it.
  replaced :
      (p : Buf) (n : ℕ)
      → Laws.IsValid p
      → payload_total l.entries + length p.bytes ≤ n + length e.payload.bytes
      → n ≤ max_lvc_bytes
      → IsValid
          (record l { entries = set l.entries i (record e { payload = p }); payload_bytes = n })
  replaced p n w t m = record {
    index_ok = rw (keys-set p l.entries i e h) v.index_ok;
    distinct = rw (keys-set p l.entries i e h) v.distinct;
    few = omega (arith, length-set l.entries i (record e { payload = p }), v.few);
    sized = omega (arith, payload_total-set p l.entries i e h);
    small = m;
    bufs = Bufs-set p l.entries i e v.bufs w;
  }

  pub lvc_write-Written :
      (alloc : ℕ → Bool) (base : ℕ) (payload : Bytes)
      → base + length e.payload.bytes ≡ l.payload_bytes
      → length payload + base ≤ max_lvc_bytes
      → Written l i e payload (lvc_write alloc l i base payload)
  unfolding lvc_write clear
  lvc_write-Written alloc base payload b m =
      let old = Bufs-get l.entries i e v.bufs h in
      let keeps =
        append-Keeps alloc (clear e.payload) payload
          (record { within = omega arith; in_range = old.in_range }) in
      rw (h, lvc_write)
        (elim (Bool-cases (append alloc (clear e.payload) payload).0) [
          | inl done ↦ rw done (record {
            valid =
                replaced (append alloc (clear e.payload) payload).1 (base + length payload)
                  keeps.valid (let q = keeps.done done in rw q (omega (arith, v.sized)))
                  (omega arith);
            buf = (append alloc (clear e.payload) payload).1;
            entries = refl;
            stored = λ _. keeps.done done;
            same = refl;
          })
          | inr refused ↦ rw refused (record {
            valid =
                replaced (append alloc (clear e.payload) payload).1 l.payload_bytes keeps.valid
                  (let q = ap (λ (x : Buf). length x.bytes) (keeps.undone refused) in
                    omega (arith, v.sized, q))
                  v.small;
            buf = (append alloc (clear e.payload) payload).1;
            entries = refl;
            stored = λ z. cc;
            same = refl;
          })
        ])
