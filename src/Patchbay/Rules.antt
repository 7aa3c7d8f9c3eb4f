-- ===== src/Patchbay/Rules.antt =====
-- src/patchbay/pb_program.c: the index of the rules by the first token of their filters, and the rules
-- that a publish evaluates.
pub mod Filed
pub mod Visit
pub mod Scan
use monoblok.Shared.{
  ℕ, zero, suc, ◌+◌, ◌-◌, ◌*◌, ◌/◌, ◌%◌, ◌^◌, ◌≤◌, ◌<◌, min, ◌≡◌, refl, sym, ap, ap₂, subst, ◌∙◌,
  ◌≢◌, ◌↔◌, ◌⊎◌, inl, inr, Bool, true, false, not, ◌&&◌, ◌||◌, Option, none, some, List, [], ◌∷◌,
  ◌++◌, map, append-nil, append_assoc, arith, Bytes, length, get_elem?, set, take, drop, replicate,
  All, ltb, leb, ◌==◌, if◌then◌else◌, size_max, Bool-cases, Option-cases, &&_split, &&_both, ==_iff,
  codes, ltb→lt, ltb→le, lt→ltb, le→ltb, leb→le, le→leb, length-append, length-drop, length-take,
  take-append, drop-append,
}
use monoblok.Slice.{slice_eq}
use monoblok.Subject.{split_at_dot}
use monoblok.Buffer.{array_reserve}
use monoblok.Router.Match.{subject_matches}

-- `pb_rule_ref_list`, `pb_rule_bucket`, and the index of `pb_program`.
pub record Refs : Type 0 where
  pub items : List ℕ
  pub cap : ℕ

pub record Bucket : Type 0 where
  pub key : Bytes
  pub rules : Refs

pub record Index : Type 0 where
  pub buckets : List Bucket
  pub bucket_cap : ℕ
  pub rest : Refs

-- `first_subject_token`
unfoldable pub first_subject_token : Bytes → Option Bytes
unfolding split_at_dot
first_subject_token s = let (t, rest) = split_at_dot s in if length t == 0 then none else some t

-- `wildcard_token`
unfoldable pub wildcard_token : Bytes → Bool
wildcard_token [] = false
wildcard_token (c ∷ []) = c == b'*' || c == b'>'
wildcard_token (c ∷ d ∷ s) = false

-- The bucket that a rule is filed in, `none` for the list of the others.
unfoldable pub filed_under : Bytes → Option Bytes
unfolding first_subject_token wildcard_token
filed_under filter = elim (first_subject_token filter) [
  | none ↦ none
  | some t ↦ if wildcard_token t then none else some t
]

abbrev pub no_refs : Refs
no_refs = record { items = []; cap = 0 }

module _ (alloc : ℕ → Bool) where
  -- `rule_ref_append`, `none` where it returns false.
  unfoldable pub rule_ref_append : Refs → ℕ → Option Refs
  rule_ref_append refs i = elim (array_reserve alloc refs.cap (length refs.items + 1) 8 8) [
    | none ↦ none
    | some cap ↦ some (record { items = refs.items ++ i ∷ []; cap = cap })
  ]

  -- `rule_bucket` and the append to it: the first bucket of the key, or a new one at the end, where
  -- there is room in the array of buckets (of 40 bytes each).
  unfoldable pub new_bucket : Bytes → ℕ → Option Bucket
  new_bucket key i = elim (rule_ref_append no_refs i) [
    | none ↦ none
    | some refs ↦ some (record { key = key; rules = refs })
  ]

  unfoldable pub append_to : List Bucket → Option ℕ → Bytes → ℕ → Option (List Bucket × Option ℕ)
  append_to [] room key i = elim room [
    | none ↦ none
    | some cap ↦ elim (new_bucket key i) [ none ↦ none | some b ↦ some (b ∷ [], some cap) ]
  ]
  append_to (b ∷ bs) room key i =
      let later = append_to bs room key i in
      if slice_eq b.key key
      then elim (rule_ref_append b.rules i) [
        | none ↦ none
        | some refs ↦ some (record { key = b.key; rules = refs } ∷ bs, none)
      ]
      else elim later [ none ↦ none | some (bs', cap) ↦ some (b ∷ bs', cap) ]

  unfoldable pub file_rule : Index → Option Bytes → ℕ → Option Index
  file_rule x none i = elim (rule_ref_append x.rest i) [
    | none ↦ none
    | some refs ↦ some (record x { rest = refs })
  ]
  file_rule x (some key) i =
      elim (append_to x.buckets (array_reserve alloc x.bucket_cap (length x.buckets + 1) 40 8) key
        i) [
          | none ↦ none
          | some (bs, none) ↦ some (record x { buckets = bs })
          | some (bs, some cap) ↦ some (record x { buckets = bs; bucket_cap = cap })
        ]

  -- The loop of `build_rule_index` from a rule on.
  unfoldable pub file_rules : Index → ℕ → List Bytes → Option Index
  file_rules x i [] = some x
  file_rules x i (filter ∷ filters) = elim (file_rule x (filed_under filter) i) [
    | none ↦ none
    | some x' ↦ file_rules x' (i + 1) filters
  ]

  -- `build_rule_index` for the filters of the rules.
  unfoldable pub build_rule_index : List Bytes → Option Index
  build_rule_index filters =
      file_rules (record { buckets = []; bucket_cap = 0; rest = no_refs }) 0 filters

-- `rule_refs_for_subject`; a null bucket has no rules.
unfoldable pub bucket_refs : List Bucket → Bytes → List ℕ
bucket_refs [] key = []
bucket_refs (b ∷ bs) key = if slice_eq b.key key then b.rules.items else bucket_refs bs key

unfoldable pub rule_refs_for_subject : Index → Bytes → List ℕ
rule_refs_for_subject x subject = elim (first_subject_token subject) [
  | none ↦ []
  | some t ↦ bucket_refs x.buckets t
]

-- The position that stands first, `SIZE_MAX` where none is left.
unfoldable pub first_ref : List ℕ → ℕ
first_ref [] = size_max
first_ref (i ∷ is) = i

-- The order in which the loop of `eval_publish_slices` takes the rules of the two lists.
unfoldable pub merge_refs : ℕ → List ℕ → List ℕ → List ℕ
merge_refs zero bs gs = []
merge_refs (suc rounds) bs gs =
    let from_bucket = merge_refs rounds (drop 1 bs) gs in
    let from_rest = merge_refs rounds bs (drop 1 gs) in
    if ltb (first_ref bs) (first_ref gs)
    then first_ref bs ∷ from_bucket
    else first_ref gs ∷ from_rest

module _ {S : Type 0} (filters : List Bytes) (subject : Bytes) (eval : ℕ → S → Bool × S) where
  -- `eval_rule_for_publish`, with the evaluation of the rule's body, which is `pb_eval`.
  unfoldable pub eval_rule_for_publish : ℕ → S → Bool × S
  eval_rule_for_publish i s = elim (get_elem? filters i) [
    | none ↦ (true, s)
    | some filter ↦ if subject_matches filter subject then eval i s else (true, s)
  ]

  unfoldable pub visit : List ℕ → S → Bool × S
  visit [] s = (true, s)
  visit (i ∷ is) s =
      let (done_one, s') = eval_rule_for_publish i s in
      let (done_rest, s'') = visit is s' in (done_one && done_rest, s'')

  -- `eval_publish_slices`: a round for each rule of the two lists.
  unfoldable pub eval_publish_slices : Index → S → Bool × S
  eval_publish_slices x s =
      let refs = rule_refs_for_subject x subject in
      visit (merge_refs (length refs + length x.rest.items) refs x.rest.items) s
