-- ===== src/Proto/Parser.antt =====
-- src/proto.c: `mb_parse_client_op` and the operations of a client.
pub mod Sound
pub mod Payload
pub mod Whole
pub mod Stable
use monoblok.Shared.{
  ℕ, zero, suc, ◌+◌, ◌-◌, ◌*◌, ◌/◌, ◌%◌, ◌^◌, ◌≤◌, ◌<◌, min, ◌≡◌, refl, sym, ap, ap₂, subst, ◌∙◌,
  ◌≢◌, ◌↔◌, ◌⊎◌, inl, inr, Bool, true, false, not, ◌&&◌, ◌||◌, Option, none, some, List, [], ◌∷◌,
  ◌++◌, map, append-nil, append_assoc, arith, Bytes, length, get_elem?, set, take, drop, replicate,
  All, ltb, leb, ◌==◌, if◌then◌else◌, size_max, Bool-cases, Option-cases, &&_split, &&_both, ==_iff,
  codes, ltb→lt, ltb→le, lt→ltb, le→ltb, leb→le, le→leb, length-append, length-drop, length-take,
  take-append, drop-append,
}
use monoblok.Proto.Token.{trim_spaces, next_token, token_valid, eq_upper}
use monoblok.Proto.Number.{parse_usize}
use monoblok.Proto.Subjects.{subject_valid}

-- src/proto.h: the limits.
abbrev pub max_control_line : ℕ
max_control_line = 4096

abbrev pub max_payload : ℕ
max_payload = 1024 * 1024

-- `mb_op` with its kind; a field that an operation does not use is not there.
pub data Op : Type 0 where
  connect : Bytes → Op
  ping : Op
  subscribe : (subject queue sid : Bytes) → Op
  unsubscribe : (sid : Bytes) → Option ℕ → Op
  publish : (subject reply_to payload : Bytes) → Op

-- `mb_parse_result`: the operation and the bytes consumed, or the status.
pub data Parsed : Type 0 where
  parsed : Op → ℕ → Parsed
  need_more : Parsed
  malformed : Parsed
  unknown : Parsed
  invalid_args : Parsed
  payload_too_large : Parsed
  control_line_too_long : Parsed

-- The two or three arguments that `SUB` and `PUB` take.
pub data Args : Type 0 where
  two : Bytes → Bytes → Args
  three : Bytes → Bytes → Bytes → Args
  wrong : Args

-- The calls of `next_token` at the start of `parse_sub` and of `parse_pub`.
unfoldable pub read_args : Bytes → Args
read_args rest = elim (next_token rest) [
  | none ↦ wrong
  | some (subject, r1) ↦ elim (next_token r1) [
    | none ↦ wrong
    | some (second, r2) ↦ elim (next_token r2) [
      | none ↦ two subject second
      | some (third, r3) ↦ elim (next_token r3) [
        | none ↦ three subject second third
        | some extra ↦ wrong
      ]
    ]
  ]
]

pub check_sub : Bytes → Bytes → Bytes → ℕ → Parsed
check_sub subject queue sid consumed =
    if not (subject_valid subject true)
      || (not (token_valid sid) || (not (length queue == 0) && not (token_valid queue)))
    then invalid_args
    else parsed (subscribe subject queue sid) consumed

pub sub_args : Args → ℕ → Parsed
sub_args (two subject sid) consumed = check_sub subject [] sid consumed
sub_args (three subject queue sid) consumed = check_sub subject queue sid consumed
sub_args wrong consumed = invalid_args

pub parse_sub : Bytes → ℕ → Parsed
parse_sub rest consumed = sub_args (read_args rest) consumed

-- The end of `parse_unsub`: no `extra` token may follow.
pub end_unsub : Option (Bytes × Bytes) → Bytes → Option ℕ → ℕ → Parsed
end_unsub none sid max_msgs consumed = parsed (unsubscribe sid max_msgs) consumed
end_unsub (some extra) sid max_msgs consumed = invalid_args

pub max_unsub : Option ℕ → Bytes → Bytes → ℕ → Parsed
max_unsub none rest sid consumed = invalid_args
max_unsub (some n) rest sid consumed = end_unsub (next_token rest) sid (some n) consumed

-- `parse_unsub` from the token behind the sid on; where there is none, neither is there an extra one.
pub more_unsub : Option (Bytes × Bytes) → Bytes → Bytes → ℕ → Parsed
more_unsub none rest sid consumed = end_unsub (next_token rest) sid none consumed
more_unsub (some (max_msgs, rest')) rest sid consumed =
    max_unsub (parse_usize max_msgs) rest' sid consumed

pub sid_unsub : Option (Bytes × Bytes) → ℕ → Parsed
sid_unsub none consumed = invalid_args
sid_unsub (some (sid, rest)) consumed =
    if not (token_valid sid) then invalid_args else more_unsub (next_token rest) rest sid consumed

pub parse_unsub : Bytes → ℕ → Parsed
parse_unsub rest consumed = sid_unsub (next_token rest) consumed

-- What stands behind a payload: the length of its line end.
pub data Trailer : Type 0 where
  ends : ℕ → Trailer
  unfinished : Trailer
  broken : Trailer

unfoldable pub trailer : Bytes → Trailer
trailer [] = unfinished
trailer (c ∷ []) = if c == 10 then ends 1 else if c == 13 then unfinished else broken
trailer (c ∷ d ∷ s) =
    if c == 10
    then ends 1
    else if c == 13
    then (if not (d == 10) then broken else ends 2)
    else broken

-- The last tests of `parse_pub`, on the trailer.
unfoldable pub end_payload : Trailer → Bytes → Bytes → ℕ → Bytes → ℕ → Parsed
end_payload (ends trailer_len) subject reply_to payload_len payload line_end =
    if ltb (size_max - line_end) payload_len || ltb (size_max - line_end - payload_len) trailer_len
    then payload_too_large
    else parsed (publish subject reply_to payload) (line_end + payload_len + trailer_len)
end_payload unfinished subject reply_to payload_len payload line_end = need_more
end_payload broken subject reply_to payload_len payload line_end = malformed

-- The end of `parse_pub`: the payload and its trailer in what stands behind the line.
unfoldable pub parse_payload : Bytes → Bytes → ℕ → Bytes → ℕ → Parsed
parse_payload subject reply_to payload_len behind line_end =
    if leb (length behind) payload_len
    then need_more
    else end_payload (trailer (drop payload_len behind)) subject reply_to payload_len
        (take payload_len behind) line_end

-- `parse_pub` once the length of the payload is read.
unfoldable pub check_pub : Option ℕ → Bytes → Bytes → Bytes → ℕ → Parsed
check_pub none subject reply_to buf line_end = invalid_args
check_pub (some payload_len) subject reply_to buf line_end =
    if not (subject_valid subject false)
    then invalid_args
    else if not (length reply_to == 0) && not (subject_valid reply_to false)
    then invalid_args
    else if ltb max_payload payload_len
    then payload_too_large
    else if ltb (length buf) line_end
    then need_more
    else parse_payload subject reply_to payload_len (drop line_end buf) line_end

unfoldable pub pub_args : Args → Bytes → ℕ → Parsed
pub_args (two subject bytes_str) buf line_end =
    check_pub (parse_usize bytes_str) subject [] buf line_end
pub_args (three subject reply_to bytes_str) buf line_end =
    check_pub (parse_usize bytes_str) subject reply_to buf line_end
pub_args wrong buf line_end = invalid_args

unfoldable pub parse_pub : Bytes → Bytes → ℕ → Parsed
parse_pub buf rest line_end = pub_args (read_args rest) buf line_end

-- `while (nl < len && buf[nl] != '\n')`
unfoldable pub newline_at : Bytes → ℕ
newline_at [] = 0
newline_at (c ∷ s) = let later = newline_at s in if c == 10 then 0 else later + 1

-- The line without the carriage return at its end.
unfoldable pub without_cr : Bytes → Bytes
without_cr [] = []
without_cr (c ∷ []) = if c == 13 then [] else c ∷ []
without_cr (c ∷ d ∷ s) = c ∷ without_cr (d ∷ s)

-- The part of `mb_parse_client_op` that looks at the verb.
unfoldable pub dispatch : Bytes → Bytes → Bytes → ℕ → Parsed
dispatch buf verb rest line_end =
    if eq_upper verb (codes "PING")
    then (if not (length (trim_spaces rest) == 0) then invalid_args else parsed ping line_end)
    else if eq_upper verb (codes "CONNECT")
    then parsed (connect (trim_spaces rest)) line_end
    else if eq_upper verb (codes "SUB")
    then parse_sub rest line_end
    else if eq_upper verb (codes "UNSUB")
    then parse_unsub rest line_end
    else if eq_upper verb (codes "PUB")
    then parse_pub buf rest line_end
    else unknown

unfoldable pub verb_line : Option (Bytes × Bytes) → Bytes → ℕ → Parsed
verb_line none buf line_end = malformed
verb_line (some (verb, rest)) buf line_end = dispatch buf verb rest line_end

unfoldable pub parse_line : Bytes → Bytes → ℕ → Parsed
parse_line buf line line_end =
    if length line == 0 then malformed else verb_line (next_token line) buf line_end

unfoldable pub parse_client_op : Bytes → Parsed
parse_client_op buf =
    let nl = newline_at buf in
    if nl == length buf
    then (if ltb max_control_line (length buf) then control_line_too_long else need_more)
    else if ltb max_control_line nl
    then control_line_too_long
    else parse_line buf (trim_spaces (without_cr (take nl buf))) (nl + 1)
