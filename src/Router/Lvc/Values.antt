-- ===== src/Router/Lvc/Values.antt =====
-- The cache as a map: the value of a subject is the payload of the entry with that subject.
use monoblok.Shared.{
  ℕ, zero, suc, ◌≡◌, refl, sym, ap, subst, ◌≢◌, inl, inr, false, Option, none, some, List, [], ◌∷◌,
  ◌++◌, map, arith, Bytes, get_elem?, set, if◌then◌else◌, Bool-cases,
}
use monoblok.Buffer.{Buf}
use monoblok.Slice.{slice_eq, slice_eq_iff, slice_eq_refl}
use monoblok.Router.Index.{locate}
use monoblok.Router.Index.Locate.{Located, here, absent, locate-Located}
use monoblok.Router.Lvc.{Lvc, LvcEntry, lvc_keys, payload_at}
use monoblok.Router.Lvc.Entries.{Distinct, get_subject, get_entry}
use monoblok.Router.Lvc.Valid.{IsValid}

pub value_of : List LvcEntry → Bytes → Option Bytes
value_of [] t = none
value_of (e ∷ es) t = if slice_eq e.subject t then some e.payload.bytes else value_of es t

abbrev subjects : List LvcEntry → List Bytes
subjects es = map (λ (x : LvcEntry). x.subject) es

Distinct-tail : (k : Bytes) (ks : List Bytes) → Distinct (k ∷ ks) → Distinct ks
Distinct-tail k ks d i j x p q = let e = d (suc i) (suc j) x p q in omega arith

-- A key that stands further on is not the first.
Distinct-head :
    (k : Bytes) (ks : List Bytes) (i : ℕ) (x : Bytes)
    → Distinct (k ∷ ks)
    → get_elem? ks i ≡ some x
    → slice_eq k x ≡ false
Distinct-head k ks i x d h = elim (Bool-cases (slice_eq k x)) [
  | inl e ↦
      let same : some k ≡ some x = ap some ((slice_eq_iff k x).0 e) in
      let z = d 0 (suc i) x same h in absurd (omega arith)
  | inr n ↦ n
]

value_of-at :
    (es : List LvcEntry) (i : ℕ) (e : LvcEntry)
    → Distinct (subjects es)
    → get_elem? es i ≡ some e
    → value_of es e.subject ≡ some e.payload.bytes
unfolding value_of
value_of-at [] i e d h = cc
value_of-at (x ∷ es) zero e d h = ground (arith, slice_eq_refl x.subject)
value_of-at (x ∷ es) (suc i) e d h =
    rw (Distinct-head x.subject (subjects es) i e.subject d (get_subject es i e h))
      (value_of-at es i e (Distinct-tail x.subject (subjects es) d) h)

value_of-none :
    (es : List LvcEntry) (t : Bytes)
    → ((i : ℕ) → get_elem? (subjects es) i ≢ some t)
    → value_of es t ≡ none
unfolding value_of
value_of-none [] t h = refl
value_of-none (x ∷ es) t h = elim (Bool-cases (slice_eq x.subject t)) [
  | inl e ↦ absurd (h 0 (ap some ((slice_eq_iff x.subject t).0 e)))
  | inr n ↦ rw n (value_of-none es t (λ i. h (suc i)))
]

-- On a valid cache the look-up that the router makes, by index or by scan, gives the value that is
-- stored under the subject.
pub payload_at-locate :
    (l : Lvc) (t : Bytes)
    → IsValid l
    → payload_at l (locate l.index (lvc_keys l) t) ≡ value_of l.entries t
payload_at-locate l t v =
    go (locate l.index (lvc_keys l) t) (locate-Located l.index (lvc_keys l) t v.index_ok)
  where
    go : (o : Option ℕ) → Located (lvc_keys l) t o → payload_at l o ≡ value_of l.entries t
    go _ (absent h) = sym (value_of-none l.entries t h)
    go _ (here i h) =
        let (e, q, s) = get_entry l.entries i t h in
        rw (q, payload_at)
          (sym (
            subst (λ x. value_of l.entries x ≡ some e.payload.bytes) s
              (value_of-at l.entries i e v.distinct q)))

-- A write of the payload at `i` changes the value of its subject only.
pub value_of-set :
    (es : List LvcEntry) (i : ℕ) (e : LvcEntry) (p : Buf) (t : Bytes)
    → Distinct (subjects es)
    → get_elem? es i ≡ some e
    → value_of (set es i (record e { payload = p })) t
      ≡ (if slice_eq e.subject t then some p.bytes else value_of es t)
unfolding value_of
value_of-set [] i e p t d h = cc
value_of-set (x ∷ es) zero e p t d h = ground arith
value_of-set (x ∷ es) (suc i) e p t d h = ground (
  arith,
  value_of-set es i e p t (Distinct-tail x.subject (subjects es) d) h,
  Distinct-head x.subject (subjects es) i e.subject d (get_subject es i e h),
  slice_eq_iff x.subject t,
  slice_eq_iff e.subject t,
  slice_eq_iff x.subject e.subject,
)

-- An entry at the end gives no other subject a value.
pub value_of-snoc :
    (es : List LvcEntry) (e : LvcEntry) (t : Bytes)
    → slice_eq e.subject t ≡ false
    → value_of (es ++ e ∷ []) t ≡ value_of es t
unfolding value_of
value_of-snoc [] e t n = rw n
value_of-snoc (x ∷ es) e t n = ground (arith, value_of-snoc es e t n)
