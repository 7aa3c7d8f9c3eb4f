-- ===== src/Tests/Rules.antt =====
-- Runs of the index of the rules.
use monoblok.Shared.{
  ℕ, ◌≡◌, refl, Bool, true, false, some, List, [], ◌∷◌, ◌++◌, arith, Bytes, All, codes,
}
use monoblok.Proto.Subjects.Grammar.{ValidSubject, subject_valid_iff}
use monoblok.Proto.Subjects.{subject_valid}
use monoblok.Patchbay.Rules.{
  Index, Bucket, Refs, build_rule_index, bucket_refs, filed_under, visit, eval_publish_slices,
}
use monoblok.Patchbay.Rules.Filed.{
  positions, under, in_rest, literal_start, build_rule_index-positions,
}
use monoblok.Patchbay.Rules.Scan.{eval_publish_slices-visit}
use monoblok.Tests.Bytes.{granted}

abbrev filters : List Bytes
filters = codes "*.b" ∷ codes "a.b" ∷ codes "c" ∷ codes "a.>" ∷ []

abbrev message : Bytes
message = codes "a.b"

abbrev index : Index
index = record {
  buckets =
      record { key = codes "a"; rules = record { items = 1 ∷ 3 ∷ []; cap = 8 } }
      ∷ record { key = codes "c"; rules = record { items = 2 ∷ []; cap = 8 } }
      ∷ [];
  bucket_cap = 8;
  rest = record { items = 0 ∷ []; cap = 8 };
}

built : build_rule_index granted filters ≡ some index
unfolding build_rule_index monoblok.Patchbay.Rules.file_rules monoblok.Patchbay.Rules.file_rule
    filed_under monoblok.Patchbay.Rules.rule_ref_append monoblok.Buffer.array_reserve
    monoblok.Buffer.double_until monoblok.Patchbay.Rules.append_to
    monoblok.Patchbay.Rules.new_bucket monoblok.Slice.slice_eq
built = refl

-- An evaluation that notes the rule.
abbrev note : ℕ → List ℕ → Bool × List ℕ
note i seen = (true, seen ++ i ∷ [])

evaluated : eval_publish_slices filters message note index [] ≡ (true, 0 ∷ 1 ∷ 3 ∷ [])
unfolding eval_publish_slices visit monoblok.Patchbay.Rules.merge_refs
    monoblok.Patchbay.Rules.rule_refs_for_subject monoblok.Patchbay.Rules.first_subject_token
    bucket_refs monoblok.Slice.slice_eq monoblok.Patchbay.Rules.first_ref
    monoblok.Patchbay.Rules.eval_rule_for_publish monoblok.Router.Match.subject_matches
    monoblok.Proto.Subjects.is_byte
evaluated = refl

filters_valid : All (ValidSubject true) filters
unfolding subject_valid monoblok.Proto.Token.token_valid monoblok.Subject.split_at_dot
    monoblok.Proto.Subjects.is_byte monoblok.Proto.Subjects.no_wildcard
filters_valid = (
  (subject_valid_iff (codes "*.b") true).0 refl,
  (
    (subject_valid_iff (codes "a.b") true).0 refl,
    (
      (subject_valid_iff (codes "c") true).0 refl,
      ((subject_valid_iff (codes "a.>") true).0 refl, tt),
    ),
  ),
)

message_valid : ValidSubject false message
unfolding subject_valid monoblok.Proto.Token.token_valid monoblok.Subject.split_at_dot
    monoblok.Proto.Subjects.is_byte monoblok.Proto.Subjects.no_wildcard
message_valid = (subject_valid_iff message false).0 refl

eval_publish_slices-visit_example :
    eval_publish_slices filters message note index []
    ≡ visit filters message note (positions (λ _. true) 0 filters) []
eval_publish_slices-visit_example =
    eval_publish_slices-visit granted filters message note index [] built (omega arith)
      filters_valid message_valid

build_rule_index-positions_example :
    ((k : Bytes)
      → bucket_refs index.buckets k ≡ positions (λ f. under k (literal_start f)) 0 filters)
    × (index.rest.items ≡ positions (λ f. in_rest (literal_start f)) 0 filters)
build_rule_index-positions_example = build_rule_index-positions granted filters index built
