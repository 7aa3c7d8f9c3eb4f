-- ===== src/Tests/Match.antt =====
-- Runs of the matcher, the subject grammar and the tokens, and the theorems on them.
use monoblok.Shared.{◌≡◌, refl, ◌↔◌, true, false, [], ◌∷◌, Bytes}
use monoblok.Subject.{tokens, split_at_dot}
use monoblok.Subject.Tokens.{tokens-injective}
use monoblok.Proto.Token.{token_valid}
use monoblok.Proto.Subjects.{subject_valid}
use monoblok.Proto.Subjects.Grammar.{ValidSubject, subject_valid_iff}
use monoblok.Router.Match.{subject_matches, is_literal_filter, is_wildcard_token, first_token}
use monoblok.Router.Match.Relation.{Matches, subject_matches_iff}
use monoblok.Router.Match.Classes.{literal_matches_iff, first_token_matches}

-- `a.*.>`
abbrev filter : Bytes
filter = b'a' ∷ b'.' ∷ b'*' ∷ b'.' ∷ b'>' ∷ []

-- `a.b.c`
abbrev subject : Bytes
subject = b'a' ∷ b'.' ∷ b'b' ∷ b'.' ∷ b'c' ∷ []

filter_valid : subject_valid filter true ≡ true
unfolding subject_valid token_valid split_at_dot monoblok.Proto.Subjects.is_byte
    monoblok.Proto.Subjects.no_wildcard
filter_valid = refl

filter_not_subject : subject_valid filter false ≡ false
unfolding subject_valid token_valid split_at_dot monoblok.Proto.Subjects.is_byte
    monoblok.Proto.Subjects.no_wildcard
filter_not_subject = refl

subject_is_valid : subject_valid subject false ≡ true
unfolding subject_valid token_valid split_at_dot monoblok.Proto.Subjects.is_byte
    monoblok.Proto.Subjects.no_wildcard
subject_is_valid = refl

filter_matches : subject_matches filter subject ≡ true
unfolding subject_matches split_at_dot monoblok.Proto.Subjects.is_byte monoblok.Slice.slice_eq
filter_matches = refl

filter-ValidSubject : ValidSubject true filter
filter-ValidSubject = (subject_valid_iff filter true).0 filter_valid

subject-ValidSubject : ValidSubject false subject
subject-ValidSubject = (subject_valid_iff subject false).0 subject_is_valid

subject-ValidFilter : ValidSubject true subject
unfolding subject_valid token_valid split_at_dot monoblok.Proto.Subjects.is_byte
    monoblok.Proto.Subjects.no_wildcard
subject-ValidFilter = (subject_valid_iff subject true).0 refl

subject_valid_iff_example : (subject_valid filter true ≡ true) ↔ ValidSubject true filter
subject_valid_iff_example = subject_valid_iff filter true

subject_matches_iff_example :
    (subject_matches filter subject ≡ true) ↔ Matches (tokens filter) (tokens subject)
subject_matches_iff_example =
    subject_matches_iff filter subject filter-ValidSubject subject-ValidSubject

literal_matches_iff_example : (subject_matches subject subject ≡ true) ↔ (subject ≡ subject)
unfolding is_literal_filter
literal_matches_iff_example =
    literal_matches_iff subject subject subject-ValidFilter subject-ValidSubject refl

first_token_matches_example : first_token filter ≡ first_token subject
unfolding is_wildcard_token first_token monoblok.Proto.Subjects.is_byte
    monoblok.Router.Match.next_subject_token split_at_dot
first_token_matches_example =
    first_token_matches filter subject filter-ValidSubject subject-ValidSubject refl filter_matches

tokens-injective_example : subject ≡ subject
tokens-injective_example = tokens-injective subject subject refl
