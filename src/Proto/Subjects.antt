-- ===== src/Proto/Subjects.antt =====
-- src/proto.c: which subjects and filters are valid.
pub mod Grammar
use monoblok.Shared.{
  ℕ, zero, suc, ◌+◌, Bool, true, false, ◌&&◌, ◌||◌, not, Option, none, some, List, [], ◌∷◌, Bytes,
  length, ◌==◌, if◌then◌else◌,
}
use monoblok.Subject.{split_at_dot, star, tail}
use monoblok.Slice.{slice_eq}
use monoblok.Proto.Token.{token_valid}

-- The inner loop: no byte of a token that is no wildcard may be one.
unfoldable pub no_wildcard : Bytes → Bool
no_wildcard [] = true
no_wildcard (c ∷ t) = not (c == b'*' || c == b'>') && no_wildcard t

-- `tok.len == 1 && tok.ptr[0] == c`
unfoldable pub is_byte : ℕ → Bytes → Bool
is_byte c [] = false
is_byte c (d ∷ []) = d == c
is_byte c (d ∷ e ∷ t) = false

-- The checks that one round makes of its token; `ends` is `end == subject.len`.
pub token_allowed : Bool → Bytes → Bool → Bool
token_allowed allow_wildcards t ends =
    if length t == 0
    then false
    else if is_byte b'*' t || is_byte b'>' t
    then not (not allow_wildcards || (is_byte b'>' t && not ends))
    else no_wildcard t

-- One round of `while (start <= subject.len)`, on the token found and the bytes behind its dot;
-- `continue` is the rounds that follow.
pub token_round : Bool → (Bytes → Bool) → Bytes × Option Bytes → Bool
token_round allow_wildcards continue (t, none) = token_allowed allow_wildcards t true
token_round allow_wildcards continue (t, some r) =
    if token_allowed allow_wildcards t false then continue r else false

-- The loop on the bytes from `start`. Each round moves `start` past a dot, so more rounds than bytes
-- are never made.
pub tokens_allowed : ℕ → Bool → Bytes → Bool
tokens_allowed zero allow_wildcards s = false
tokens_allowed (suc fuel) allow_wildcards s =
    token_round allow_wildcards (tokens_allowed fuel allow_wildcards) (split_at_dot s)

unfoldable pub subject_valid : Bytes → Bool → Bool
unfolding tokens_allowed token_round token_allowed
subject_valid subject allow_wildcards =
    if length subject == 0 || not (token_valid subject)
    then false
    else tokens_allowed (length subject + 1) allow_wildcards subject
