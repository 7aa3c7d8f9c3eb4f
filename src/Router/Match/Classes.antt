-- ===== src/Router/Match/Classes.antt =====
-- The classes by which the router files subscriptions: literal filters, filters with a literal
-- first token, and the others. What a subject can match lies in three buckets.
use monoblok.Shared.{
  ℕ, ◌≡◌, refl, ap₂, subst, ◌≢◌, ◌↔◌, inl, inr, true, false, List, [], ◌∷◌, arith, Bytes, All, ◌==◌,
  Bool-cases,
}
use mathlib.Core.Path.{subst₂}
use monoblok.Subject.{tokens, star, tail, push}
use monoblok.Subject.Tokens.{tokens-injective}
use monoblok.Proto.Subjects.Grammar.{ValidSubject, WildcardFree}
use monoblok.Router.Match.{first_token, is_wildcard_token, is_literal_filter, subject_matches}
use monoblok.Router.Match.Relation.{
  Matches, done, tail_matches, star_matches, same_matches, subject_matches_iff, tokens-first_token,
  is_byte_iff,
}

is_literal_filter→ : (s : Bytes) → is_literal_filter s ≡ true → WildcardFree s
unfolding is_literal_filter
is_literal_filter→ [] h = tt
is_literal_filter→ (c ∷ s) h = ground (arith, is_literal_filter→ s)

push-All :
    (c : ℕ) (ts : List Bytes)
    → (c ≢ b'*') × (c ≢ b'>')
    → All WildcardFree ts
    → All WildcardFree (push c ts)
push-All c [] h a = ((h, tt), tt)
push-All c (t ∷ ts) h a = ((h, a.0), a.1)

tokens-WildcardFree : (s : Bytes) → WildcardFree s → All WildcardFree (tokens s)
unfolding tokens
tokens-WildcardFree [] h = (tt, tt)
tokens-WildcardFree (c ∷ s) h = elim (Bool-cases (c == b'.')) [
  | inl dot ↦ rw dot (tt, tokens-WildcardFree s h.1)
  | inr other ↦ rw other (push-All c (tokens s) h.0 (tokens-WildcardFree s h.1))
]

not-star : {t : Bytes} → WildcardFree t → t ≢ star
not-star w e = (subst WildcardFree e w).0.0 refl

not-tail : {t : Bytes} → WildcardFree t → t ≢ tail
not-tail w e = (subst WildcardFree e w).0.1 refl

Matches-literal : {fs ts : List Bytes} → Matches fs ts → All WildcardFree fs → fs ≡ ts
Matches-literal done a = refl
Matches-literal (tail_matches e) a = absurd (not-tail a.0 e)
Matches-literal (star_matches e m) a = absurd (not-star a.0 e)
Matches-literal (same_matches e m) a = ap₂ ◌∷◌ e (Matches-literal m a.1)

Matches-refl : (ts : List Bytes) → Matches ts ts
Matches-refl [] = done
Matches-refl (t ∷ ts) = same_matches refl (Matches-refl ts)

-- For a valid filter and a valid subject, a literal filter matches the subject just if it is the
-- subject.
pub literal_matches_iff :
    (filter subject : Bytes)
    → ValidSubject true filter
    → ValidSubject false subject
    → is_literal_filter filter ≡ true
    → (subject_matches filter subject ≡ true) ↔ (filter ≡ subject)
literal_matches_iff filter subject v w l =
    let (to, from) = subject_matches_iff filter subject v w in
    (
      λ h.
          tokens-injective filter subject
            (Matches-literal (to h) (tokens-WildcardFree filter (is_literal_filter→ filter l))),
      λ e. from (subst (λ s. Matches (tokens filter) (tokens s)) e (Matches-refl (tokens filter))),
    )

-- A valid filter whose first token is no wildcard matches only valid subjects that begin with that
-- token.
pub first_token_matches :
    (filter subject : Bytes)
    → ValidSubject true filter
    → ValidSubject false subject
    → is_wildcard_token (first_token filter) ≡ false
    → subject_matches filter subject ≡ true
    → first_token filter ≡ first_token subject
unfolding is_wildcard_token
first_token_matches filter subject v w n h =
    let (fs, ef) = tokens-first_token true filter v in
    let (ss, es) = tokens-first_token false subject w in
    head_same (subst₂ Matches ef es ((subject_matches_iff filter subject v w).0 h))
  where
    head_same :
        {fs ts : List Bytes}
        → Matches (first_token filter ∷ fs) (first_token subject ∷ ts)
        → first_token filter ≡ first_token subject
    head_same (tail_matches e) = ground (arith, n, (is_byte_iff b'>' (first_token filter)).1 e)
    head_same (star_matches e _) = ground (arith, n, (is_byte_iff b'*' (first_token filter)).1 e)
    head_same (same_matches e _) = e
