-- ===== src/Proto/Parser/Whole.antt =====
-- Every result of `mb_parse_client_op`.
use monoblok.Shared.{
  ℕ, ◌+◌, ◌≤◌, ◌<◌, inl, inr, Option, none, some, [], ◌∷◌, arith, Bytes, length, take, ltb, ◌==◌,
  Bool-cases, codes,
}
use monoblok.Proto.Token.{trim_spaces, next_token, eq_upper}
use monoblok.Proto.Parser.{
  read_args, parse_sub, parse_unsub, parse_pub, verb_line, newline_at, without_cr, dispatch,
  parse_line, parse_client_op, max_control_line,
}
use monoblok.Proto.Parser.Sound.{
  Outcome, accepted, waits, is_malformed, has_invalid_args, has_long_line, is_unknown,
  sub_args-Outcome, sid_unsub-Outcome,
}
use monoblok.Proto.Parser.Payload.{pub_args-Outcome}

pub newline_at-le : (s : Bytes) → newline_at s ≤ length s
unfolding newline_at
newline_at-le [] = omega arith
newline_at-le (c ∷ s) = ground (arith, newline_at-le s)

module _ (buf : Bytes) (n : ℕ) (p : 0 < n) (q : n ≤ length buf) where
  dispatch-Outcome : (verb rest : Bytes) → Outcome (length buf) (dispatch buf verb rest n)
  unfolding dispatch parse_sub parse_unsub parse_pub
  dispatch-Outcome verb rest = elim (Bool-cases (eq_upper verb (codes "PING"))) [
    | inl a ↦ elim (Bool-cases (length (trim_spaces rest) == 0)) [
      | inl b ↦ rw (a, b) (accepted tt p q)
      | inr b ↦ rw (a, b) has_invalid_args
    ]
    | inr a ↦ elim (Bool-cases (eq_upper verb (codes "CONNECT"))) [
      | inl b ↦ rw (a, b) (accepted tt p q)
      | inr b ↦ elim (Bool-cases (eq_upper verb (codes "SUB"))) [
        | inl c ↦ rw (a, b, c) (sub_args-Outcome (read_args rest) (length buf) n p q)
        | inr c ↦ elim (Bool-cases (eq_upper verb (codes "UNSUB"))) [
          | inl d ↦ rw (a, b, c, d) (sid_unsub-Outcome (next_token rest) (length buf) n p q)
          | inr d ↦ elim (Bool-cases (eq_upper verb (codes "PUB"))) [
            | inl e ↦ rw (a, b, c, d, e) (pub_args-Outcome (read_args rest) buf n p q)
            | inr e ↦ rw (a, b, c, d, e) is_unknown
          ]
        ]
      ]
    ]
  ]

  verb_line-Outcome : (o : Option (Bytes × Bytes)) → Outcome (length buf) (verb_line o buf n)
  unfolding verb_line
  verb_line-Outcome none = is_malformed
  verb_line-Outcome (some (verb, rest)) = dispatch-Outcome verb rest

  parse_line-Outcome : (line : Bytes) → Outcome (length buf) (parse_line buf line n)
  unfolding parse_line
  parse_line-Outcome line = elim (Bool-cases (length line == 0)) [
    | inl e ↦ rw e is_malformed
    | inr e ↦ rw e (verb_line-Outcome (next_token line))
  ]

-- Where the parser accepts an operation, it is well formed (a subject or filter of the grammar,
-- printable tokens, a payload within the limit), and the bytes consumed are at least one and stand
-- in the buffer.
pub parse_client_op-Outcome : (buf : Bytes) → Outcome (length buf) (parse_client_op buf)
unfolding parse_client_op
parse_client_op-Outcome buf = elim (Bool-cases (newline_at buf == length buf)) [
  | inl e ↦ elim (Bool-cases (ltb max_control_line (length buf))) [
    | inl f ↦ rw (e, f) has_long_line
    | inr f ↦ rw (e, f) waits
  ]
  | inr e ↦ elim (Bool-cases (ltb max_control_line (newline_at buf))) [
    | inl f ↦ rw (e, f) has_long_line
    | inr f ↦
        rw (e, f)
          (parse_line-Outcome buf (newline_at buf + 1) (omega arith)
            (ground (arith, newline_at-le buf))
            (trim_spaces (without_cr (take (newline_at buf) buf))))
  ]
]
