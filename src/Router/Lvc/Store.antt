-- ===== src/Router/Lvc/Store.antt =====
-- Storing a value: the invariant is kept on every branch, and a success updates the map.
use monoblok.Shared.{
  ℕ, ◌+◌, ◌-◌, ◌≤◌, ◌≡◌, refl, ap, ◌∙◌, inl, inr, Bool, true, false, ◌||◌, Option, some, [], arith,
  Bytes, length, get_elem?, ltb, if◌then◌else◌, Bool-cases, le→ltb,
}
use monoblok.Shared.{get_elem?-length}
use monoblok.Slice.{slice_eq}
use monoblok.Proto.Subjects.{subject_valid}
use monoblok.Buffer.{empty_buf}
use monoblok.Router.Index.{locate}
use monoblok.Router.Index.Locate.{Located, here, absent, locate-Located}
use monoblok.Router.Lvc.{
  Lvc, LvcEntry, lvc_keys, lvc_add, lvc_write, lvc_store_at, lvc_put, lvc_store, old_payload_len,
  cached_subject, max_lvc_bytes,
}
use monoblok.Router.Lvc.Entries.{get_entry, payload_total-get}
use monoblok.Router.Lvc.Valid.{IsValid, Added, lvc_add-Added, lvc_write-Written}
use monoblok.Router.Lvc.Values.{value_of, value_of-set, value_of-snoc}

-- What a call that stores `payload` under `subject` leaves.
pub record Stored (l : Lvc) (subject payload : Bytes) (r : Bool × Lvc) : Type 0 where
  pub valid : IsValid r.1
  pub filters : (r.1.filters ≡ l.filters) × (r.1.enabled ≡ l.enabled)
  pub value :
      r.0 ≡ true
      → (t : Bytes)
      → value_of r.1.entries t ≡ (if slice_eq subject t then some payload else value_of l.entries t)
  pub others :
      (t : Bytes) → slice_eq subject t ≡ false → value_of r.1.entries t ≡ value_of l.entries t

-- An entry of the subject is there: its payload is written.
module _ (alloc : ℕ → Bool) (l : Lvc) (v : IsValid l) (subject payload : Bytes) where
  write_at :
      (i : ℕ) (e : LvcEntry) (base : ℕ)
      → get_elem? l.entries i ≡ some e
      → e.subject ≡ subject
      → base + length e.payload.bytes ≡ l.payload_bytes
      → length payload + base ≤ max_lvc_bytes
      → Stored l subject payload (lvc_write alloc l i base payload)
  write_at i e base h s b m =
      let w = lvc_write-Written l i e v h alloc base payload b m in
      record {
        valid = w.valid;
        filters = (ap (λ (x : Lvc). x.filters) w.same, ap (λ (x : Lvc). x.enabled) w.same);
        value = λ ok t.
            rw w.entries
              (value_of-set l.entries i e w.buf t v.distinct h ∙ ground (arith, w.stored ok, s));
        others = λ t n. rw w.entries (
            value_of-set l.entries i e w.buf t v.distinct h
            ∙ rw s (ap (λ b. if b then some w.buf.bytes else value_of l.entries t) n));
      }

-- A call that leaves the cache as it is, and reports that.
refused :
    (l l' : Lvc) (subject payload : Bytes)
    → IsValid l'
    → l'.entries ≡ l.entries
    → (l'.filters ≡ l.filters) × (l'.enabled ≡ l.enabled)
    → Stored l subject payload (false, l')
refused l l' subject payload v e f = record {
  valid = v;
  filters = f;
  value = λ z. cc;
  others = λ t n. ap (λ es. value_of es t) e;
}

module _ (alloc : ℕ → Bool) (l : Lvc) (v : IsValid l) (subject payload : Bytes) where
  abbrev fresh : LvcEntry
  fresh = record { subject = subject; payload = empty_buf }

  -- No entry of the subject is there: one is made at the end, and its payload is written.
  add_and_write :
      (b : Bool) (l' : Lvc)
      → Added l subject (b, l')
      → length payload + l.payload_bytes ≤ max_lvc_bytes
      → Stored l subject payload
          (if b then lvc_write alloc l' (length l.entries) l.payload_bytes payload else (false, l'))
  add_and_write false l' a m = refused l l' subject payload a.valid (a.kept refl) a.filters
  add_and_write true l' a m =
      let es = l.entries in
      let at_end : get_elem? l'.entries (length es) ≡ some fresh =
        rw (a.made refl) (get_elem?-length es [] fresh) in
      let w =
        write_at alloc l' a.valid subject payload (length es) fresh l.payload_bytes at_end refl
          (omega (arith, a.bytes)) m in
      record {
        valid = w.valid;
        filters = (w.filters.0 ∙ a.filters.0, w.filters.1 ∙ a.filters.1);
        value = λ ok t. w.value ok t ∙ elim (Bool-cases (slice_eq subject t)) [
          | inl y ↦ rw y
          | inr n ↦ rw (n, a.made refl) (value_of-snoc es fresh t n)
        ];
        others = λ t n. w.others t n ∙ rw (a.made refl) (value_of-snoc es fresh t n);
      }

  lvc_put-Stored :
      (o : Option ℕ)
      → Located (lvc_keys l) subject o
      → length payload + (l.payload_bytes - old_payload_len l o) ≤ max_lvc_bytes
      → old_payload_len l o ≤ l.payload_bytes
      → Stored l subject payload
          (lvc_put alloc l subject payload (l.payload_bytes - old_payload_len l o) o)
  unfolding lvc_put old_payload_len
  lvc_put-Stored _ (absent no_i) m _ =
      let base : l.payload_bytes - 0 ≡ l.payload_bytes = omega arith in
      rw base (
        add_and_write (lvc_add alloc l subject).0 (lvc_add alloc l subject).1
          (lvc_add-Added alloc l subject v no_i) (omega arith))
  lvc_put-Stored _ (here i h) m k =
      let (e, q, s) = get_entry l.entries i subject h in
      let old : old_payload_len l (some i) ≡ length e.payload.bytes = rw (q, old_payload_len) in
      write_at alloc l v subject payload i e (l.payload_bytes - old_payload_len l (some i)) q s
        (omega (arith, old, k)) m

  -- The bytes that `lvc_payload_bytes` counts cover the payload that is replaced.
  old_payload_len-le :
      (o : Option ℕ) → Located (lvc_keys l) subject o → old_payload_len l o ≤ l.payload_bytes
  unfolding old_payload_len
  old_payload_len-le _ (absent no_i) = omega arith
  old_payload_len-le _ (here i h) =
      let (e, q, s) = get_entry l.entries i subject h in
      rw (q, old_payload_len) (omega (arith, payload_total-get l.entries i e q, v.sized))

  -- `lvc_store` from the look-up on.
  lvc_store_at-Stored :
      (o : Option ℕ)
      → Located (lvc_keys l) subject o
      → Stored l subject payload (lvc_store_at alloc l subject payload o)
  unfolding lvc_store_at
  lvc_store_at-Stored o found =
      let le = old_payload_len-le o found in
      let base = l.payload_bytes - old_payload_len l o in
      rw (le→ltb l.payload_bytes (old_payload_len l o) le)
        (elim (Bool-cases (ltb max_lvc_bytes base || ltb (max_lvc_bytes - base) (length payload))) [
          | inl big ↦ rw big (refused l l subject payload v refl (refl, refl))
          | inr fits ↦ rw fits (lvc_put-Stored o found (ground arith) le)
        ])

-- On a valid cache and a subject that it caches, `lvc_store` keeps the invariant, the filters and
-- the values of all other subjects, on every branch; where it returns true, the subject has the new
-- value.
pub lvc_store-Stored :
    (alloc : ℕ → Bool) (l : Lvc) (subject payload : Bytes)
    → IsValid l
    → cached_subject l subject ≡ true
    → Stored l subject payload (lvc_store alloc l subject payload)
unfolding lvc_store
lvc_store-Stored alloc l subject payload v c = elim (Bool-cases (subject_valid subject false)) [
  | inl ok ↦
      rw (c, ok)
        (lvc_store_at-Stored alloc l v subject payload (locate l.index (lvc_keys l) subject)
          (locate-Located l.index (lvc_keys l) subject v.index_ok))
  | inr bad ↦ rw (c, bad) (refused l l subject payload v refl (refl, refl))
]
