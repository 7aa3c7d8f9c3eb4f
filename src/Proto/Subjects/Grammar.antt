-- ===== src/Proto/Subjects/Grammar.antt =====
-- The grammar of subjects and filters, and that `mb_proto_subject_valid` decides it.
use monoblok.Shared.{
  ℕ, ◌+◌, Bool, true, false, List, [], ◌∷◌, Bytes, All, arith, length, refl, ◌==◌, ◌↔◌, ◌<◌, ◌<◌,
  ◌≢◌, ◌≡◌, Bool-cases, inl, ap, ==_iff, inr, zero, subst,
}
use monoblok.Subject.{tokens, star, tail, split_at_dot}
use monoblok.Subject.Tokens.{Split, last, more, split_at_dot-Split, tokens-ne-nil}
use monoblok.Proto.Token.Laws.{Printable, token_valid_iff}
use monoblok.Proto.Subjects.{
  token_round, no_wildcard, is_byte, token_allowed, tokens_allowed, subject_valid, suc, Option,
}

-- No byte of the token is a wildcard.
abbrev pub WildcardFree : Bytes → Type 0
WildcardFree = All (λ c. (c ≢ b'*') × (c ≢ b'>'))

abbrev pub Literal : Bytes → Type 0
Literal t = (t ≢ []) × WildcardFree t

-- A token of a subject is literal; a filter may also have `*` anywhere and `>` at the end.
pub data TokenAllowed (allow : Bool) (t : Bytes) (ends : Bool) : Type 0 where
  literal : Literal t → TokenAllowed allow t ends
  one : t ≡ star → allow ≡ true → TokenAllowed allow t ends
  rest : t ≡ tail → allow ≡ true → ends ≡ true → TokenAllowed allow t ends

abbrev pub TokensAllowed : Bool → List Bytes → Type 0
TokensAllowed allow [] = ⊥
TokensAllowed allow (t ∷ []) = TokenAllowed allow t true
TokensAllowed allow (t ∷ u ∷ ts) = TokenAllowed allow t false × TokensAllowed allow (u ∷ ts)

-- `true` for a filter, `false` for a subject to publish on.
abbrev pub ValidSubject : Bool → Bytes → Type 0
ValidSubject allow s = All Printable s × TokensAllowed allow (tokens s)

no_wildcard→ : (t : Bytes) → no_wildcard t ≡ true → WildcardFree t
unfolding no_wildcard
no_wildcard→ [] h = tt
no_wildcard→ (c ∷ t) h = ground (arith, no_wildcard→ t)

→no_wildcard : (t : Bytes) → WildcardFree t → no_wildcard t ≡ true
unfolding no_wildcard
→no_wildcard [] h = refl
→no_wildcard (c ∷ t) h = ground (arith, →no_wildcard t h.1)

token_allowed→ :
    (allow : Bool) (t : Bytes) (ends : Bool)
    → token_allowed allow t ends ≡ true
    → TokenAllowed allow t ends
unfolding token_allowed is_byte
token_allowed→ allow [] ends h = cc
token_allowed→ allow (c ∷ []) ends h = elim (Bool-cases (c == b'*')) [
  | inl is_star ↦ one (ap (λ x. x ∷ []) ((==_iff c b'*').0 is_star)) (ground arith)
  | inr n ↦ elim (Bool-cases (c == b'>')) [
    | inl is_tail ↦
        rest (ap (λ x. x ∷ []) ((==_iff c b'>').0 is_tail)) (ground arith) (ground arith)
    | inr m ↦ literal (cc, ((ground arith, ground arith), tt))
  ]
]
token_allowed→ allow (c ∷ d ∷ t) ends h = literal (cc, no_wildcard→ (c ∷ d ∷ t) (ground arith))

→token_allowed :
    (allow : Bool) (t : Bytes) (ends : Bool)
    → TokenAllowed allow t ends
    → token_allowed allow t ends ≡ true
unfolding token_allowed is_byte
→token_allowed allow [] ends (literal h) = absurd (h.0 refl)
→token_allowed allow (c ∷ []) ends (literal h) = unfold no_wildcard in ground arith
→token_allowed allow (c ∷ d ∷ t) ends (literal h) = ground (arith, →no_wildcard (c ∷ d ∷ t) h.1)
→token_allowed allow t ends (one e a) = rw (e, a)
→token_allowed allow t ends (rest e a b) = rw (e, a, b)

module _ (allow : Bool) (t : Bytes) where
  pub TokensAllowed-cons :
      (ts : List Bytes)
      → ts ≢ []
      → (TokenAllowed allow t false × TokensAllowed allow ts) ↔ TokensAllowed allow (t ∷ ts)
  TokensAllowed-cons [] n = absurd (n refl)
  TokensAllowed-cons (u ∷ ts) n = (λ h. h, λ h. h)

token_round_iff :
    (allow : Bool) (continue : Bytes → Bool) (s : Bytes) (p : Bytes × Option Bytes)
    → Split s p
    → ((r : Bytes) → length r < length s → (continue r ≡ true) ↔ TokensAllowed allow (tokens r))
    → (token_round allow continue p ≡ true) ↔ TokensAllowed allow (tokens s)
unfolding token_round
token_round_iff allow continue s _ (last t ts _) ih =
    rw ts (token_allowed→ allow t true, →token_allowed allow t true)
token_round_iff allow continue s _ (more t r ts _ l) ih =
    let (both→, →both) = TokensAllowed-cons allow t (tokens r) (tokens-ne-nil r) in
    let here = token_allowed→ allow t false in
    rw ts (
      λ h. both→ (here (ground arith), (ih r l).0 (ground arith)),
      λ h. let (p, q) = →both h in ground (arith, →token_allowed allow t false p, (ih r l).1 q),
    )

-- The loop, with more rounds left than bytes.
tokens_allowed_iff :
    (fuel : ℕ) (allow : Bool) (s : Bytes)
    → length s < fuel
    → (tokens_allowed fuel allow s ≡ true) ↔ TokensAllowed allow (tokens s)
unfolding tokens_allowed
tokens_allowed_iff zero allow s l = absurd (omega arith)
tokens_allowed_iff (suc fuel) allow s l =
    token_round_iff allow (tokens_allowed fuel allow) s (split_at_dot s) (split_at_dot-Split s)
      λ r m. tokens_allowed_iff fuel allow r (omega arith)

tokens_nil : (allow : Bool) → ¬ TokensAllowed allow (tokens [])
unfolding tokens
tokens_nil allow (literal h) = h.0 refl
tokens_nil allow (one e _) = cc
tokens_nil allow (rest e _ _) = cc

-- `mb_proto_subject_valid` accepts the subjects, or with wildcards the filters, of the grammar, and
-- nothing else.
pub subject_valid_iff :
    (s : Bytes) (allow : Bool) → (subject_valid s allow ≡ true) ↔ ValidSubject allow s
unfolding subject_valid
subject_valid_iff s allow =
    let (loop→, →loop) = tokens_allowed_iff (length s + 1) allow s (omega arith) in
    let (ok→, →ok) = token_valid_iff s in
    (
      λ h. ((ok→ (ground arith)).1, loop→ (ground arith)),
      λ (p, q).
          let n =
            λ (e : s ≡ []). tokens_nil allow (subst (λ r. TokensAllowed allow (tokens r)) e q) in
          ground (arith, →loop q, →ok (n, p)),
    )
