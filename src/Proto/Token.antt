-- ===== src/Proto/Token.antt =====
-- src/proto.c: blanks, tokens, verbs.
pub mod Laws
use monoblok.Shared.{
  ℕ, ◌-◌, ◌≡◌, Bool, true, false, ◌&&◌, ◌||◌, not, Option, none, some, List, [], ◌∷◌, Bytes, length,
  leb, ltb, ◌==◌, if◌then◌else◌,
}

pub is_blank : ℕ → Bool
is_blank c = c == b' ' || c == 9

-- The two loops of `trim_spaces`.
pub trim_start : Bytes → Bytes
trim_start [] = []
trim_start (c ∷ s) = if is_blank c then trim_start s else c ∷ s

pub trim_end : Bytes → Bytes
trim_end [] = []
trim_end (c ∷ s) = elim (trim_end s) [ [] ↦ if is_blank c then [] else c ∷ [] | d ∷ r ↦ c ∷ d ∷ r ]

unfoldable pub trim_spaces : Bytes → Bytes
unfolding trim_start trim_end is_blank
trim_spaces s = trim_end (trim_start s)

-- `while (i < len && !blank(ptr[i]))`: the token and what stands behind it.
pub span_token : Bytes → Bytes × Bytes
span_token [] = ([], [])
span_token (c ∷ s) = let (t, r) = span_token s in if is_blank c then ([], c ∷ s) else (c ∷ t, r)

-- `next_token`: `none` where it returns false, else the token and the new `rest`.
unfoldable pub next_token : Bytes → Option (Bytes × Bytes)
unfolding span_token trim_spaces
next_token rest = let s = trim_spaces rest in if length s == 0 then none else some (span_token s)

-- The test that the loop of `mb_proto_token_valid` makes of each byte.
pub printable : ℕ → Bool
printable c = not (leb c b' ' || c == 0x7f)

pub all_printable : Bytes → Bool
all_printable [] = true
all_printable (c ∷ s) = printable c && all_printable s

unfoldable pub token_valid : Bytes → Bool
unfolding printable all_printable
token_valid t = if length t == 0 then false else all_printable t

pub to_upper : ℕ → ℕ
to_upper c = if leb b'a' c && leb c b'z' then c - 32 else c

upper_same : Bytes → Bytes → Bool
upper_same [] [] = true
upper_same [] (d ∷ l) = false
upper_same (c ∷ s) [] = false
upper_same (c ∷ s) (d ∷ l) = to_upper c == d && upper_same s l

unfoldable pub eq_upper : Bytes → Bytes → Bool
unfolding upper_same to_upper
eq_upper s lit = if not (length s == length lit) then false else upper_same s lit
