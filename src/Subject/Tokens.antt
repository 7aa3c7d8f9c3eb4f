-- ===== src/Subject/Tokens.antt =====
-- The scan for a dot takes one token off the token list.
use monoblok.Shared.{
  ℕ, ◌+◌, ◌≤◌, ◌<◌, ◌≡◌, refl, ap, ap₂, inl, inr, false, Option, none, some, List, [], ◌∷◌, ◌++◌,
  arith, Bytes, length, ◌==◌, Bool-cases, ==_iff, sym, ◌∙◌, ◌≢◌,
}
use monoblok.Subject.{split_at_dot, tokens, push}

-- What the scan found, and how it cuts the list of tokens.
pub data Split (s : Bytes) : Bytes × Option Bytes → Type 0 where
  last : (t : Bytes) → tokens s ≡ t ∷ [] → s ≡ t → Split s (t, none)
  more :
      (t r : Bytes)
      → tokens s ≡ t ∷ tokens r
      → s ≡ t ++ b'.' ∷ r
      → length r < length s
      → Split s (t, some r)

Split-step :
    (c : ℕ) (s : Bytes)
    → (c == b'.') ≡ false
    → (p : Bytes × Option Bytes) → Split s p
    → Split (c ∷ s) (c ∷ p.0, p.1)
unfolding tokens
Split-step c s h _ (last t e q) = last (c ∷ t) (rw (h, e)) (ap (◌∷◌ c) q)
Split-step c s h _ (more t r e q l) = more (c ∷ t) r (rw (h, e)) (ap (◌∷◌ c) q) (omega arith)

pub split_at_dot-Split : (s : Bytes) → Split s (split_at_dot s)
unfolding split_at_dot tokens
split_at_dot-Split [] = last [] refl refl
split_at_dot-Split (c ∷ s) = elim (Bool-cases (c == b'.')) [
  | inl dot ↦ rw dot (more [] s (rw dot) (ap (λ x. x ∷ s) ((==_iff c b'.').0 dot)) (omega arith))
  | inr other ↦ rw other (Split-step c s other (split_at_dot s) (split_at_dot-Split s))
]

-- The subject is its tokens with dots between them.
pub join : List Bytes → Bytes
join [] = []
join (t ∷ []) = t
join (t ∷ u ∷ ts) = t ++ b'.' ∷ join (u ∷ ts)

pub tokens-ne-nil : (s : Bytes) → tokens s ≢ []
unfolding tokens
tokens-ne-nil [] h = cc
tokens-ne-nil (c ∷ s) h = elim (Bool-cases (c == b'.')) [
  | inl dot ↦ cc (rw dot at h)
  | inr other ↦ push-ne-nil c (tokens s) (rw other at h)
]
  where
    push-ne-nil : (c : ℕ) (ts : List Bytes) → push c ts ≢ []
    push-ne-nil c [] e = cc
    push-ne-nil c (t ∷ ts) e = cc

join-push : (c : ℕ) (ts : List Bytes) → join (push c ts) ≡ c ∷ join ts
unfolding join
join-push c [] = refl
join-push c (t ∷ []) = refl
join-push c (t ∷ u ∷ ts) = refl

join_dot : (ts : List Bytes) → ts ≢ [] → join ([] ∷ ts) ≡ b'.' ∷ join ts
unfolding join
join_dot [] h = absurd (h refl)
join_dot (t ∷ ts) h = refl

pub join-tokens : (s : Bytes) → join (tokens s) ≡ s
unfolding tokens
join-tokens [] = unfold join in refl
join-tokens (c ∷ s) = elim (Bool-cases (c == b'.')) [
  | inl dot ↦ rw dot (
      join_dot (tokens s) (tokens-ne-nil s) ∙ ap₂ ◌∷◌ (sym ((==_iff c b'.').0 dot)) (join-tokens s))
  | inr other ↦ rw other (join-push c (tokens s) ∙ ap (◌∷◌ c) (join-tokens s))
]

-- Two byte strings with the same tokens are the same.
pub tokens-injective : (r s : Bytes) → tokens r ≡ tokens s → r ≡ s
tokens-injective r s e = sym (join-tokens r) ∙ ap join e ∙ join-tokens s

-- A subject has at most one token more than bytes.
pub length-tokens-le : (s : Bytes) → length (tokens s) ≤ length s + 1
unfolding tokens
length-tokens-le [] = omega arith
length-tokens-le (c ∷ s) = elim (Bool-cases (c == b'.')) [
  | inl dot ↦ rw dot (omega (arith, length-tokens-le s))
  | inr other ↦ rw other (omega (arith, length-push-le c (tokens s), length-tokens-le s))
]
  where
    length-push-le : (c : ℕ) (ts : List Bytes) → length (push c ts) ≤ length ts + 1
    length-push-le c [] = omega arith
    length-push-le c (t ∷ ts) = omega arith
