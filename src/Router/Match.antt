-- ===== src/Router/Match.antt =====
-- src/router.c: the matching of subjects against filters. A position in a subject is the bytes from
-- there on, and `none` once it is past the end (`pos > len`).
pub mod Relation
pub mod Classes
use monoblok.Shared.{
  ℕ, zero, suc, ◌+◌, Bool, true, false, ◌&&◌, ◌||◌, not, Option, none, some, List, [], ◌∷◌, Bytes,
  length, ◌==◌, if◌then◌else◌, codes,
}
use monoblok.Subject.{split_at_dot}
use monoblok.Slice.{slice_eq, has_prefix}
use monoblok.Proto.Subjects.{is_byte}

abbrev pub Cursor : Type 0
Cursor = Option Bytes

abbrev pub past_end : Cursor → Bool
past_end none = true
past_end (some s) = false

-- `none` where it returns false, with the position as it was; else the token and the new position.
unfoldable pub next_subject_token : Cursor → Option (Bytes × Cursor)
next_subject_token none = none
next_subject_token (some s) = if length (split_at_dot s).0 == 0 then none else some (split_at_dot s)

unfoldable pub first_token : Bytes → Bytes
first_token s = elim (next_subject_token (some s)) [ none ↦ [] | some (t, next) ↦ t ]

unfoldable pub is_wildcard_token : Bytes → Bool
is_wildcard_token t = is_byte b'*' t || is_byte b'>' t

unfoldable pub is_literal_filter : Bytes → Bool
is_literal_filter [] = true
is_literal_filter (c ∷ s) = if c == b'*' || c == b'>' then false else is_literal_filter s

-- One round of `subject_matches`, on what the two scans return: `sp` is the position in the subject,
-- `continue` the rounds that follow.
pub match_subject : (Cursor → Cursor → Bool) → Bytes → Cursor → Option (Bytes × Cursor) → Bool
match_subject continue ftok fp none = false
match_subject continue ftok fp (some (stok, sp)) =
    if not (is_byte b'*' ftok) && not (slice_eq ftok stok) then false else continue fp sp

pub match_round : (Cursor → Cursor → Bool) → Cursor → Option (Bytes × Cursor) → Bool
match_round continue sp none = past_end sp
match_round continue sp (some (ftok, fp)) =
    if is_byte b'>' ftok
    then past_end fp
    else match_subject continue ftok fp (next_subject_token sp)

-- `for (;;)`: each round takes a token off the filter, and a filter has at most one more than bytes.
pub match_from : ℕ → Cursor → Cursor → Bool
match_from zero fp sp = false
match_from (suc fuel) fp sp = match_round (match_from fuel) sp (next_subject_token fp)

unfoldable pub subject_matches : Bytes → Bytes → Bool
unfolding match_from match_round match_subject next_subject_token
subject_matches filter subject = match_from (length filter + 2) (some filter) (some subject)

abbrev pub lvc_prefix : Bytes
lvc_prefix = codes "$LVC."

abbrev pub stats_prefix : Bytes
stats_prefix = codes "$STATS."

unfoldable pub subject_has_lvc_prefix : Bytes → Bool
subject_has_lvc_prefix subject = has_prefix subject lvc_prefix

unfoldable pub subject_has_stats_prefix : Bytes → Bool
subject_has_stats_prefix subject = has_prefix subject stats_prefix
