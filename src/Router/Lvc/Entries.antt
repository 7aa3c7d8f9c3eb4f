-- ===== src/Router/Lvc/Entries.antt =====
-- Arrays of cache entries: their keys, the bytes that they hold, and what one write changes.
use monoblok.Shared.{
  ℕ, zero, suc, ◌+◌, ◌≤◌, ◌≡◌, refl, sym, ap, subst, ◌∙◌, ◌≢◌, ◌⊎◌, inl, inr, some, List, [], ◌∷◌,
  ◌++◌, map, arith, Bytes, length, get_elem?, set, All, get_elem?-snoc,
}
use monoblok.Buffer.{Buf}
use monoblok.Buffer.Laws
use monoblok.Router.Lvc.{LvcEntry}

-- No key twice.
abbrev pub Distinct : List Bytes → Type 0
Distinct keys =
    (i j : ℕ) (k : Bytes) → get_elem? keys i ≡ some k → get_elem? keys j ≡ some k → i ≡ j

pub Distinct-snoc :
    (keys : List Bytes) (key : Bytes)
    → ((i : ℕ) → get_elem? keys i ≢ some key)
    → Distinct keys
    → Distinct (keys ++ key ∷ [])
Distinct-snoc keys key new d i j k p q =
    go (get_elem?-snoc keys key k i p) (get_elem?-snoc keys key k j q)
  where
    go :
        (get_elem? keys i ≡ some k) ⊎ ((i ≡ length keys) × (key ≡ k))
        → (get_elem? keys j ≡ some k) ⊎ ((j ≡ length keys) × (key ≡ k))
        → i ≡ j
    go (inl a) (inl b) = d i j k a b
    go (inl a) (inr (_, e)) = absurd (new i (a ∙ ap some (sym e)))
    go (inr (_, e)) (inl b) = absurd (new j (b ∙ ap some (sym e)))
    go (inr (a, _)) (inr (b, _)) = a ∙ sym b

-- The bytes of all payloads.
unfoldable pub payload_total : List LvcEntry → ℕ
payload_total [] = 0
payload_total (e ∷ es) = length e.payload.bytes + payload_total es

abbrev pub Bufs : List LvcEntry → Type 0
Bufs = All (λ (e : LvcEntry). Laws.IsValid e.payload)

pub keys-snoc :
    (es : List LvcEntry) (e : LvcEntry)
    → map (λ (x : LvcEntry). x.subject) (es ++ e ∷ [])
      ≡ map (λ (x : LvcEntry). x.subject) es ++ e.subject ∷ []
keys-snoc [] e = refl
keys-snoc (x ∷ es) e = ap (◌∷◌ x.subject) (keys-snoc es e)

pub length-keys : (es : List LvcEntry) → length (map (λ (x : LvcEntry). x.subject) es) ≡ length es
length-keys [] = refl
length-keys (x ∷ es) = ap suc (length-keys es)

pub payload_total-snoc :
    (es : List LvcEntry) (e : LvcEntry)
    → payload_total (es ++ e ∷ []) ≡ payload_total es + length e.payload.bytes
unfolding payload_total
payload_total-snoc [] e = omega arith
payload_total-snoc (x ∷ es) e = omega (arith, payload_total-snoc es e)

pub Bufs-snoc :
    (es : List LvcEntry) (e : LvcEntry) → Bufs es → Laws.IsValid e.payload → Bufs (es ++ e ∷ [])
Bufs-snoc [] e b v = (v, tt)
Bufs-snoc (x ∷ es) e b v = (b.0, Bufs-snoc es e b.1 v)

-- The payload of one entry is replaced.
module _ (p : Buf) where
  pub keys-set :
      (es : List LvcEntry) (i : ℕ) (e : LvcEntry)
      → get_elem? es i ≡ some e
      → map (λ (x : LvcEntry). x.subject) (set es i (record e { payload = p }))
        ≡ map (λ (x : LvcEntry). x.subject) es
  keys-set [] i e h = refl
  keys-set (x ∷ es) zero e h = ground arith
  keys-set (x ∷ es) (suc i) e h = ap (◌∷◌ x.subject) (keys-set es i e h)

  pub payload_total-set :
      (es : List LvcEntry) (i : ℕ) (e : LvcEntry)
      → get_elem? es i ≡ some e
      → payload_total (set es i (record e { payload = p })) + length e.payload.bytes
        ≡ payload_total es + length p.bytes
  unfolding payload_total
  payload_total-set [] i e h = cc
  payload_total-set (x ∷ es) zero e h = ground arith
  payload_total-set (x ∷ es) (suc i) e h = omega (arith, payload_total-set es i e h)

  pub Bufs-set :
      (es : List LvcEntry) (i : ℕ) (e : LvcEntry)
      → Bufs es
      → Laws.IsValid p
      → Bufs (set es i (record e { payload = p }))
  Bufs-set [] i e b v = tt
  Bufs-set (x ∷ es) zero e b v = (v, b.1)
  Bufs-set (x ∷ es) (suc i) e b v = (b.0, Bufs-set es i e b.1 v)

pub Bufs-get :
    (es : List LvcEntry) (i : ℕ) (e : LvcEntry)
    → Bufs es
    → get_elem? es i ≡ some e
    → Laws.IsValid e.payload
Bufs-get [] i e b h = cc
Bufs-get (x ∷ es) zero e b h =
    subst (λ (y : LvcEntry). Laws.IsValid y.payload) (let q : x ≡ e = ground arith in q) b.0
Bufs-get (x ∷ es) (suc i) e b h = Bufs-get es i e b.1 h

pub get_subject :
    (es : List LvcEntry) (i : ℕ) (e : LvcEntry)
    → get_elem? es i ≡ some e
    → get_elem? (map (λ (x : LvcEntry). x.subject) es) i ≡ some e.subject
get_subject [] i e h = cc
get_subject (x ∷ es) zero e h = ground arith
get_subject (x ∷ es) (suc i) e h = get_subject es i e h

pub get_entry :
    (es : List LvcEntry) (i : ℕ) (k : Bytes)
    → get_elem? (map (λ (x : LvcEntry). x.subject) es) i ≡ some k
    → (e : LvcEntry) × (get_elem? es i ≡ some e) × (e.subject ≡ k)
get_entry [] i k h = cc
get_entry (x ∷ es) zero k h = (x, refl, ground arith)
get_entry (x ∷ es) (suc i) k h = get_entry es i k h

-- No payload is longer than all together.
pub payload_total-get :
    (es : List LvcEntry) (i : ℕ) (e : LvcEntry)
    → get_elem? es i ≡ some e
    → length e.payload.bytes ≤ payload_total es
unfolding payload_total
payload_total-get [] i e h = cc
payload_total-get (x ∷ es) zero e h = ground arith
payload_total-get (x ∷ es) (suc i) e h = omega (arith, payload_total-get es i e h)
