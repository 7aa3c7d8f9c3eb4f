-- ===== src/Subject.antt =====
-- Subjects as lists of tokens: the scan for '.' that proto.c and router.c both make, and the
-- token list that specifies it.
pub mod Tokens
use monoblok.Shared.{
  ℕ, ◌+◌, ◌≤◌, ◌<◌, ◌≡◌, Bool, Option, none, some, List, [], ◌∷◌, ◌++◌, Bytes, codes, ◌==◌,
  if◌then◌else◌,
}

-- `while (end < len && ptr[end] != '.')`: the token at the start of `s`, and what follows its dot;
-- `none` where the token ends the subject.
unfoldable pub split_at_dot : Bytes → Bytes × Option Bytes
split_at_dot [] = ([], none)
split_at_dot (c ∷ s) =
    let (t, rest) = split_at_dot s in if c == b'.' then ([], some s) else (c ∷ t, rest)

abbrev pub push : ℕ → List Bytes → List Bytes
push c [] = (c ∷ []) ∷ []
push c (t ∷ ts) = (c ∷ t) ∷ ts

-- The tokens of a subject: what stands between its dots.
unfoldable pub tokens : Bytes → List Bytes
tokens [] = [] ∷ []
tokens (c ∷ s) = if c == b'.' then [] ∷ tokens s else push c (tokens s)

abbrev pub star : Bytes
star = codes "*"

abbrev pub tail : Bytes
tail = codes ">"
