-- ===== src/Patchbay/Rules/Scan.antt =====
-- A publish evaluates the rules that a scan of all of them would.
use monoblok.Shared.{
  ℕ, ◌+◌, ◌≤◌, ◌≡◌, refl, sym, ap, ap₂, subst, ◌∙◌, ◌≢◌, inl, inr, Bool, true, false, ◌&&◌, ◌||◌,
  Option, none, some, List, [], ◌∷◌, ◌++◌, append_assoc, arith, Bytes, length, get_elem?, All, ◌==◌,
  size_max, Bool-cases, Option-cases, length-append, get_elem?-length,
}
use monoblok.Slice.{slice_eq_iff}
use monoblok.Subject.{split_at_dot}
use monoblok.Proto.Subjects.{is_byte}
use monoblok.Proto.Subjects.Grammar.{ValidSubject}
use monoblok.Router.Match.{subject_matches, first_token, next_subject_token, is_wildcard_token}
use monoblok.Router.Match.Classes.{first_token_matches}
use monoblok.Patchbay.Rules.{
  Index, first_subject_token, wildcard_token, filed_under, build_rule_index, bucket_refs,
  rule_refs_for_subject, merge_refs, eval_rule_for_publish, visit, eval_publish_slices,
}
use monoblok.Patchbay.Rules.Filed.{positions, under, in_rest, build_rule_index-filed}
use monoblok.Patchbay.Rules.Visit.{merge_refs-positions}

first_subject_token→ :
    (s t : Bytes) → first_subject_token s ≡ some t → (first_token s ≡ t) × (length t ≢ 0)
unfolding first_subject_token first_token next_subject_token
first_subject_token→ s t h = elim (Bool-cases (length (split_at_dot s).0 == 0)) [
  | inl c ↦ cc (rw c at h)
  | inr c ↦
      let e : (split_at_dot s).0 ≡ t = ground (arith, (rw c at h)) in
      rw (c, first_token, next_subject_token) (e, λ z. absurd (ground (arith, ap length e)))
]

first_subject_token-none : (s : Bytes) → first_subject_token s ≡ none → first_token s ≡ []
unfolding first_subject_token first_token next_subject_token
first_subject_token-none s h = elim (Bool-cases (length (split_at_dot s).0 == 0)) [
  | inl c ↦ rw (c, first_token, next_subject_token) refl
  | inr c ↦ cc (rw c at h)
]

wildcard_token-eq : (t : Bytes) → wildcard_token t ≡ is_wildcard_token t
unfolding wildcard_token is_wildcard_token is_byte
wildcard_token-eq [] = refl
wildcard_token-eq (c ∷ []) = refl
wildcard_token-eq (c ∷ d ∷ s) = refl

-- Whether a filter is in the bucket of a subject.
abbrev in_bucket_of : Option Bytes → Option Bytes → Bool
in_bucket_of none c = false
in_bucket_of (some t) c = under t c

abbrev in_bucket : Option Bytes → Bytes → Bool
in_bucket t f = in_bucket_of t (filed_under f)

in_one_list : (t : Option Bytes) (f : Bytes) → (in_bucket t f && in_rest (filed_under f)) ≡ false
unfolding under in_rest
in_one_list none f = refl
in_one_list (some t) f = go (filed_under f)
  where
    go : (o : Option Bytes) → (under t o && in_rest o) ≡ false
    go none = refl
    go (some k) = ground arith

-- A filter that matches a subject is in the list of its first token or in that of the others.
listed_if_matches :
    (filter subject : Bytes)
    → ValidSubject true filter
    → ValidSubject false subject
    → (in_bucket (first_subject_token subject) filter || in_rest (filed_under filter)) ≡ false
    → subject_matches filter subject ≡ false
unfolding filed_under in_rest under
listed_if_matches filter subject v w h = elim (Bool-cases (subject_matches filter subject)) [
  | inr n ↦ n
  | inl m ↦ elim (Option-cases (first_subject_token filter)) [
    | inl q ↦
        let filed : filed_under filter ≡ none = rw (q, filed_under) refl in
        let r : in_rest (filed_under filter) ≡ true = ap in_rest filed in
        absurd (ground (arith, h, r))
    | inr (t, q) ↦ elim (Bool-cases (wildcard_token t)) [
      | inl c ↦
          let filed : filed_under filter ≡ none = rw (q, c, filed_under) refl in
          let r : in_rest (filed_under filter) ≡ true = ap in_rest filed in
          absurd (ground (arith, h, r))
      | inr c ↦
          let (first, some_bytes) = first_subject_token→ filter t q in
          let literal : is_wildcard_token (first_token filter) ≡ false =
            ap is_wildcard_token first ∙ sym (wildcard_token-eq t) ∙ c in
          let same = first_token_matches filter subject v w literal m in
          let filed : filed_under filter ≡ some t = rw (q, c, filed_under) refl in
          elim (Option-cases (first_subject_token subject)) [
            | inl none_there ↦ absurd (
                some_bytes
                  (ap length (sym first ∙ same ∙ first_subject_token-none subject none_there)))
            | inr (t', q') ↦
                let listed : in_bucket (first_subject_token subject) filter ≡ true =
                  ap₂ in_bucket_of q' filed
                  ∙ (slice_eq_iff t t').1
                      (sym first ∙ same ∙ (first_subject_token→ subject t' q').0) in
                absurd (ground (arith, h, listed))
          ]
    ]
  ]
]

no_positions : (i : ℕ) (fs : List Bytes) → positions (λ f. false) i fs ≡ []
unfolding positions
no_positions i [] = refl
no_positions i (f ∷ fs) = no_positions (i + 1) fs

refs_of :
    (t : Option Bytes) (x : Index) (filters : List Bytes) (subject : Bytes)
    → first_subject_token subject ≡ t
    → ((k : Bytes) → bucket_refs x.buckets k ≡ positions (λ f. under k (filed_under f)) 0 filters)
    → rule_refs_for_subject x subject ≡ positions (in_bucket t) 0 filters
unfolding rule_refs_for_subject
refs_of none x filters subject e b = rw (e, rule_refs_for_subject) (sym (no_positions 0 filters))
refs_of (some k) x filters subject e b = rw (e, rule_refs_for_subject) (b k)

module _ {S : Type 0} (filters : List Bytes) (subject : Bytes) (eval : ℕ → S → Bool × S) where
  skip_one :
      (i : ℕ) (f : Bytes) (s : S)
      → get_elem? filters i ≡ some f
      → subject_matches f subject ≡ false
      → eval_rule_for_publish filters subject eval i s ≡ (true, s)
  unfolding eval_rule_for_publish
  skip_one i f s q n = rw (q, n, eval_rule_for_publish) refl

  abbrev and_then : List ℕ → Bool × S → Bool × S
  and_then is (b, s) =
      (b && (visit filters subject eval is s).0, (visit filters subject eval is s).1)

  skipped :
      (i : ℕ) (f : Bytes) (is : List ℕ) (s : S)
      → get_elem? filters i ≡ some f
      → subject_matches f subject ≡ false
      → visit filters subject eval (i ∷ is) s ≡ visit filters subject eval is s
  unfolding visit
  skipped i f is s q n = ap (and_then is) (skip_one i f s q n)

  -- Rules that do not match need not be visited.
  visit-positions :
      (p : Bytes → Bool) (pre fs : List Bytes) (s : S)
      → filters ≡ pre ++ fs
      → All (λ f. p f ≡ false → subject_matches f subject ≡ false) fs
      → visit filters subject eval (positions p (length pre) fs) s
        ≡ visit filters subject eval (positions (λ _. true) (length pre) fs) s
  unfolding positions visit
  visit-positions p pre [] s e a = refl
  visit-positions p pre (f ∷ fs) s e (n, a) =
      let i = length pre in
      let some_is = positions p (i + 1) fs in
      let all_is = positions (λ _. true) (i + 1) fs in
      let here : get_elem? filters i ≡ some f =
        ap (λ l. get_elem? l i) e ∙ get_elem?-length pre fs f in
      let next : length (pre ++ f ∷ []) ≡ i + 1 = length-append pre (f ∷ []) in
      let later : (s' : S)
          → visit filters subject eval some_is s' ≡ visit filters subject eval all_is s' =
        λ s'.
          subst
            (λ k.
              visit filters subject eval (positions p k fs) s'
              ≡ visit filters subject eval (positions (λ _. true) k fs) s')
            next
            (visit-positions p (pre ++ f ∷ []) fs s' (e ∙ sym (append_assoc pre (f ∷ []) fs)) a) in
      elim (Bool-cases (p f)) [
        | inl c ↦ rw c (
            ap (λ o. ((eval_rule_for_publish filters subject eval i s).0 && o.0, o.1))
              (later (eval_rule_for_publish filters subject eval i s).1))
        | inr c ↦ rw c (later s ∙ sym (skipped i f all_is s here (n c)))
      ]

-- Where the index of the rules could be built, there are fewer than 2^64 rules, their filters are
-- valid and so is the subject, `eval_publish_slices` evaluates the rules whose filters match the
-- subject, each once and in the order of the program: its answer and the state it leaves are those
-- of a visit to all the rules.
pub eval_publish_slices-visit :
    {S : Type 0} (alloc : ℕ → Bool) (filters : List Bytes) (subject : Bytes)
    (eval : ℕ → S → Bool × S) (x : Index) (s : S)
    → build_rule_index alloc filters ≡ some x
    → length filters ≤ size_max
    → All (ValidSubject true) filters
    → ValidSubject false subject
    → eval_publish_slices filters subject eval x s
      ≡ visit filters subject eval (positions (λ _. true) 0 filters) s
unfolding eval_publish_slices
eval_publish_slices-visit alloc filters subject eval x s b h v w =
    let (buckets, others) = build_rule_index-filed alloc filters x b in
    let t = first_subject_token subject in
    let p : Bytes → Bool = in_bucket t in
    let q : Bytes → Bool = λ f. in_rest (filed_under f) in
    let refs : rule_refs_for_subject x subject ≡ positions p 0 filters =
      refs_of t x filters subject refl buckets in
    ap₂ (λ ps qs. visit filters subject eval (merge_refs (length ps + length qs) ps qs) s) refs
      others
    ∙ ap (λ is. visit filters subject eval is s)
        (merge_refs-positions p q 0 filters
          (length (positions p 0 filters) + length (positions q 0 filters)) refl
          (everywhere filters (in_one_list t)) (omega arith))
    ∙ visit-positions filters subject eval (λ f. p f || q f) [] filters s refl (listed filters v)
  where
    everywhere : {P : Bytes → Type 0} (fs : List Bytes) → ((f : Bytes) → P f) → All P fs
    everywhere [] h = tt
    everywhere (f ∷ fs) h = (h f, everywhere fs h)

    listed :
        (fs : List Bytes)
        → All (ValidSubject true) fs
        → All
            (λ f.
              (in_bucket (first_subject_token subject) f || in_rest (filed_under f)) ≡ false
              → subject_matches f subject ≡ false)
            fs
    listed [] v = tt
    listed (f ∷ fs) (u, v) = (listed_if_matches f subject u w, listed fs v)
