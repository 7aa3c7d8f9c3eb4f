-- ===== src/Patchbay/Rules/Filed.antt =====
-- The index of the rules holds each rule in the list of its first token, in the order of the rules.
use monoblok.Shared.{
  ℕ, ◌+◌, ◌≡◌, refl, sym, ap, subst, ◌∙◌, ◌≢◌, inl, inr, Bool, true, false, Option, none, some,
  List, [], ◌∷◌, ◌++◌, append-nil, append_assoc, Bytes, length, if◌then◌else◌, Bool-cases,
  Option-cases, ◌||◌, ◌==◌,
}
use monoblok.Subject.{split_at_dot, tokens, star, tail}
use monoblok.Subject.Tokens.{Split, last, more, split_at_dot-Split}
use monoblok.Slice.{same_bytes, slice_eq, slice_eq_iff}
use monoblok.Buffer.{array_reserve}
use monoblok.Patchbay.Rules.{
  Refs, Bucket, Index, filed_under, first_subject_token, wildcard_token, no_refs, rule_ref_append,
  new_bucket, append_to, file_rule, file_rules, build_rule_index, bucket_refs, arith,
}

-- The positions from `i` on of the filters with a property.
unfoldable pub positions : (Bytes → Bool) → ℕ → List Bytes → List ℕ
positions p i [] = []
positions p i (f ∷ fs) = if p f then i ∷ positions p (i + 1) fs else positions p (i + 1) fs

-- A first token by which a rule is filed: one that is not empty and no wildcard.
pub literal_token : Bytes → Option Bytes
literal_token t = if slice_eq t [] || slice_eq t star || slice_eq t tail then none else some t

-- That of a filter, from its tokens.
pub literal_start : Bytes → Option Bytes
literal_start filter = elim (tokens filter) [ [] ↦ none | t ∷ ts ↦ literal_token t ]

positions-ext :
    (p q : Bytes → Bool) (i : ℕ) (fs : List Bytes)
    → ((f : Bytes) → p f ≡ q f)
    → positions p i fs ≡ positions q i fs
unfolding positions
positions-ext p q i [] h = refl
positions-ext p q i (f ∷ fs) h =
    let rest = positions-ext p q (i + 1) fs h in
    elim (Bool-cases (q f)) [ inl c ↦ rw (h f, c) (ap (◌∷◌ i) rest) | inr c ↦ rw (h f, c) rest ]

-- Whether a rule is filed in the bucket of a key, or in the list of the others.
unfoldable pub under : Bytes → Option Bytes → Bool
under key none = false
under key (some t) = slice_eq t key

unfoldable pub in_rest : Option Bytes → Bool
in_rest none = true
in_rest (some t) = false

token_filed : Bytes → Option Bytes
token_filed t = if length t == 0 then none else if wildcard_token t then none else some t

-- A token of two bytes or more is no wildcard.
longer_filed : (c d : ℕ) (t : Bytes) → token_filed (c ∷ d ∷ t) ≡ some (c ∷ d ∷ t)
unfolding token_filed wildcard_token
longer_filed c d t = let filled : (length (c ∷ d ∷ t) == 0) ≡ false = ground arith in rw filled refl

longer_literal : (c d : ℕ) (t : Bytes) → literal_token (c ∷ d ∷ t) ≡ some (c ∷ d ∷ t)
unfolding literal_token slice_eq
longer_literal c d t =
    let filled : (length (c ∷ d ∷ t) == 0) ≡ false = ground arith in
    let longer : (length (c ∷ d ∷ t) == 1) ≡ false = ground arith in rw (filled, longer) refl

token_filed_lem : (t : Bytes) → token_filed t ≡ literal_token t
unfolding token_filed literal_token wildcard_token slice_eq same_bytes
token_filed_lem [] = refl
token_filed_lem (c ∷ []) = elim (Bool-cases (c == b'*')) [
  | inl p ↦ rw p refl
  | inr p ↦ elim (Bool-cases (c == b'>')) [ inl q ↦ rw (p, q) refl | inr q ↦ rw (p, q) refl ]
]
token_filed_lem (c ∷ d ∷ t) = longer_filed c d t ∙ sym (longer_literal c d t)

literal_start-Split :
    (f : Bytes) (p : Bytes × Option Bytes) → Split f p → literal_start f ≡ literal_token p.0
unfolding literal_start
literal_start-Split f _ (last t e _) = rw (e, literal_start) refl
literal_start-Split f _ (more t r e _ _) = rw (e, literal_start) refl

filed_under-eq : (f : Bytes) → filed_under f ≡ literal_start f
unfolding filed_under first_subject_token token_filed
filed_under-eq f =
    let t = (split_at_dot f).0 in
    (elim (Bool-cases (length t == 0)) [
      | inl c ↦ rw (c, filed_under, first_subject_token) refl
      | inr c ↦ rw (c, filed_under, first_subject_token) refl
    ])
    ∙ token_filed_lem t
    ∙ sym (literal_start-Split f (split_at_dot f) (split_at_dot-Split f))

abbrev one_if : Bool → ℕ → List ℕ
one_if b i = if b then i ∷ [] else []

abbrev items_or : Option Refs → List ℕ
items_or none = []
items_or (some refs) = refs.items

abbrev buckets_or : Option (List Bucket × Option ℕ) → List Bucket
buckets_or none = []
buckets_or (some (bs, c)) = bs

module _ (alloc : ℕ → Bool) where
  rule_ref_append-items :
      (refs : Refs) (i : ℕ) (r : Refs)
      → rule_ref_append alloc refs i ≡ some r
      → r.items ≡ refs.items ++ i ∷ []
  unfolding rule_ref_append
  rule_ref_append-items refs i r h =
      elim (Option-cases (array_reserve alloc refs.cap (length refs.items + 1) 8 8)) [
        | inl q ↦ cc (rw (q, rule_ref_append) at h)
        | inr (cap, q) ↦ sym (ap items_or (rw (q, rule_ref_append) at h))
      ]

  in_bucket :
      (b : Bucket) (bs : List Bucket) (r : Refs) (key : Bytes) (i : ℕ) (k : Bytes)
      → b.key ≡ key
      → r.items ≡ b.rules.items ++ i ∷ []
      → bucket_refs (record { key = b.key; rules = r } ∷ bs) k
        ≡ bucket_refs (b ∷ bs) k ++ one_if (slice_eq key k) i
  unfolding bucket_refs
  in_bucket b bs r key i k e q =
      let same : slice_eq key k ≡ slice_eq b.key k = ap (λ x. slice_eq x k) (sym e) in
      elim (Bool-cases (slice_eq b.key k)) [
        | inl c ↦ rw (same, c) q
        | inr c ↦ rw (same, c) (sym (append-nil (bucket_refs bs k)))
      ]

  past_bucket :
      (b : Bucket) (bs bs' : List Bucket) (key : Bytes) (i : ℕ) (k : Bytes)
      → slice_eq b.key key ≡ false
      → bucket_refs bs' k ≡ bucket_refs bs k ++ one_if (slice_eq key k) i
      → bucket_refs (b ∷ bs') k ≡ bucket_refs (b ∷ bs) k ++ one_if (slice_eq key k) i
  unfolding bucket_refs
  past_bucket b bs bs' key i k other h = elim (Bool-cases (slice_eq b.key k)) [
    | inl c ↦
        let apart : slice_eq key k ≡ false = elim (Bool-cases (slice_eq key k)) [
          | inl d ↦
              let e : b.key ≡ key = (slice_eq_iff b.key k).0 c ∙ sym ((slice_eq_iff key k).0 d) in
              absurd (true_or_false (sym ((slice_eq_iff b.key key).1 e) ∙ other))
          | inr d ↦ d
        ] in
        rw (c, apart) (sym (append-nil b.rules.items))
    | inr c ↦ rw c h
  ]
    where
      true_or_false : true ≢ false
      true_or_false e = cc

  append_to-refs :
      (bs : List Bucket) (room : Option ℕ) (key : Bytes) (i : ℕ) (bs' : List Bucket) (c : Option ℕ)
      (k : Bytes)
      → append_to alloc bs room key i ≡ some (bs', c)
      → bucket_refs bs' k ≡ bucket_refs bs k ++ one_if (slice_eq key k) i
  unfolding append_to new_bucket bucket_refs
  append_to-refs [] none key i bs' c k h = cc
  append_to-refs [] (some cap) key i bs' c k h =
      elim (Option-cases (rule_ref_append alloc no_refs i)) [
        | inl q ↦ cc (rw (append_to, new_bucket, q) at h)
        | inr (r, q) ↦
            subst (λ bs. bucket_refs bs k ≡ one_if (slice_eq key k) i)
              (ap buckets_or (rw (append_to, new_bucket, q) at h))
              (rw (rule_ref_append-items no_refs i r q) refl)
      ]
  append_to-refs (b ∷ bs) room key i bs' c k h = elim (Bool-cases (slice_eq b.key key)) [
    | inl same ↦ elim (Option-cases (rule_ref_append alloc b.rules i)) [
      | inl q ↦ cc (rw (append_to, same, q) at h)
      | inr (r, q) ↦
          subst (λ bs'. bucket_refs bs' k ≡ bucket_refs (b ∷ bs) k ++ one_if (slice_eq key k) i)
            (ap buckets_or (rw (append_to, same, q) at h))
            (in_bucket b bs r key i k ((slice_eq_iff b.key key).0 same)
              (rule_ref_append-items b.rules i r q))
    ]
    | inr other ↦ elim (Option-cases (append_to alloc bs room key i)) [
      | inl q ↦ cc (rw (append_to, other, q) at h)
      | inr ((bs'', c'), q) ↦
          subst (λ bs'. bucket_refs bs' k ≡ bucket_refs (b ∷ bs) k ++ one_if (slice_eq key k) i)
            (ap buckets_or (rw (append_to, other, q) at h))
            (past_bucket b bs bs'' key i k other (append_to-refs bs room key i bs'' c' k q))
    ]
  ]

  -- What a rule adds to the two kinds of lists.
  record Files (x : Index) (c : Option Bytes) (i : ℕ) (y : Index) : Type 0 where
    bucket : (k : Bytes) → bucket_refs y.buckets k ≡ bucket_refs x.buckets k ++ one_if (under k c) i
    others : y.rest.items ≡ x.rest.items ++ one_if (in_rest c) i

  abbrev index_or : Index → Option Index → Index
  index_or x none = x
  index_or x (some y) = y

  file_rule-Files :
      (x : Index) (c : Option Bytes) (i : ℕ) (y : Index)
      → file_rule alloc x c i ≡ some y
      → Files x c i y
  unfolding file_rule under in_rest
  file_rule-Files x none i y h = elim (Option-cases (rule_ref_append alloc x.rest i)) [
    | inl q ↦ cc (rw (q, file_rule) at h)
    | inr (r, q) ↦ subst (Files x none i) (ap (index_or x) (rw (q, file_rule) at h)) (record {
      bucket = λ k. sym (append-nil (bucket_refs x.buckets k));
      others = rule_ref_append-items x.rest i r q;
    })
  ]
  file_rule-Files x (some key) i y h =
      let room = array_reserve alloc x.bucket_cap (length x.buckets + 1) 40 8 in
      elim (Option-cases (append_to alloc x.buckets room key i)) [
        | inl q ↦ cc (rw (q, file_rule) at h)
        | inr ((bs, none), q) ↦
            subst (Files x (some key) i) (ap (index_or x) (rw (q, file_rule) at h)) (record {
              bucket = λ k. append_to-refs x.buckets room key i bs none k q;
              others = sym (append-nil x.rest.items);
            })
        | inr ((bs, some cap), q) ↦
            subst (Files x (some key) i) (ap (index_or x) (rw (q, file_rule) at h)) (record {
              bucket = λ k. append_to-refs x.buckets room key i bs (some cap) k q;
              others = sym (append-nil x.rest.items);
            })
      ]

  -- The lists of an index that files the rules of filters.
  pub record Indexes (x : Index) (i : ℕ) (filters : List Bytes) (y : Index) : Type 0 where
    pub bucket :
        (k : Bytes)
        → bucket_refs y.buckets k
          ≡ bucket_refs x.buckets k ++ positions (λ f. under k (filed_under f)) i filters
    pub others : y.rest.items ≡ x.rest.items ++ positions (λ f. in_rest (filed_under f)) i filters

  positions-cons :
      (p : Bytes → Bool) (i : ℕ) (f : Bytes) (fs : List Bytes)
      → one_if (p f) i ++ positions p (i + 1) fs ≡ positions p i (f ∷ fs)
  unfolding positions
  positions-cons p i f fs = elim (Bool-cases (p f)) [ inl c ↦ rw c refl | inr c ↦ rw c refl ]

  file_rules-Indexes :
      (x : Index) (i : ℕ) (filters : List Bytes) (y : Index)
      → file_rules alloc x i filters ≡ some y
      → Indexes x i filters y
  unfolding file_rules positions
  file_rules-Indexes x i [] y h = subst (Indexes x i []) (ap (index_or x) h) (record {
    bucket = λ k. sym (append-nil (bucket_refs x.buckets k));
    others = sym (append-nil x.rest.items);
  })
  file_rules-Indexes x i (f ∷ fs) y h = elim (Option-cases (file_rule alloc x (filed_under f) i)) [
    | inl q ↦ cc (rw (q, file_rules) at h)
    | inr (x', q) ↦
        let first = file_rule-Files x (filed_under f) i x' q in
        let later = file_rules-Indexes x' (i + 1) fs y (rw (q, file_rules) at h) in
        record {
          bucket = λ k.
              let p : Bytes → Bool = λ g. under k (filed_under g) in
              later.bucket k
              ∙ ap (λ l. l ++ positions p (i + 1) fs) (first.bucket k)
              ∙ append_assoc (bucket_refs x.buckets k) (one_if (p f) i) (positions p (i + 1) fs)
              ∙ ap (λ l. bucket_refs x.buckets k ++ l) (positions-cons p i f fs);
          others =
              let p : Bytes → Bool = λ g. in_rest (filed_under g) in
              later.others
              ∙ ap (λ l. l ++ positions p (i + 1) fs) first.others
              ∙ append_assoc x.rest.items (one_if (p f) i) (positions p (i + 1) fs)
              ∙ ap (λ l. x.rest.items ++ l) (positions-cons p i f fs);
        }
  ]

  pub build_rule_index-filed :
      (filters : List Bytes) (y : Index)
      → build_rule_index alloc filters ≡ some y
      → ((k : Bytes) → bucket_refs y.buckets k ≡ positions (λ f. under k (filed_under f)) 0 filters)
        × (y.rest.items ≡ positions (λ f. in_rest (filed_under f)) 0 filters)
  unfolding build_rule_index bucket_refs
  build_rule_index-filed filters y h =
      let x : Index = record { buckets = []; bucket_cap = 0; rest = no_refs } in
      let both = file_rules-Indexes x 0 filters y h in (both.bucket, both.others)

  -- An index that `build_rule_index` could make has, in the bucket of each key, the positions of
  -- the rules whose filters have that token as the first, which is not empty and neither `*` nor `>`,
  -- and in the other list those of the rules whose filters have no such token first, both in the
  -- order of the rules.
  pub build_rule_index-positions :
      (filters : List Bytes) (y : Index)
      → build_rule_index alloc filters ≡ some y
      → ((k : Bytes)
          → bucket_refs y.buckets k ≡ positions (λ f. under k (literal_start f)) 0 filters)
        × (y.rest.items ≡ positions (λ f. in_rest (literal_start f)) 0 filters)
  build_rule_index-positions filters y h =
      let (buckets, others) = build_rule_index-filed filters y h in
      (
        λ k. buckets k ∙ positions-ext _ _ 0 filters (λ f. ap (under k) (filed_under-eq f)),
        others ∙ positions-ext _ _ 0 filters (λ f. ap in_rest (filed_under-eq f)),
      )
