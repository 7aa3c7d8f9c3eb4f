-- ===== src/Tests/Parser.antt =====
-- Runs of the parser, and the theorems on it.
use monoblok.Shared.{◌≡◌, refl, ◌≢◌, [], ◌++◌, Bytes, length, codes}
use monoblok.Proto.Parser.{parse_client_op, parsed, publish, need_more}
use monoblok.Proto.Parser.Sound.{Outcome}
use monoblok.Proto.Parser.Whole.{parse_client_op-Outcome}
use monoblok.Proto.Parser.Stable.{parse_client_op-append}

-- `PUB a 1`, a line end, `b`, a line end.
abbrev publication : Bytes
publication = codes "PUB a 1\r\nb\r\n"

publication_parsed : parse_client_op publication ≡ parsed (publish (codes "a") [] (codes "b")) 12
unfolding parse_client_op monoblok.Proto.Parser.newline_at monoblok.Proto.Parser.parse_line
    monoblok.Proto.Token.trim_spaces monoblok.Proto.Parser.without_cr
    monoblok.Proto.Parser.verb_line monoblok.Proto.Token.next_token monoblok.Proto.Parser.dispatch
    monoblok.Proto.Token.eq_upper monoblok.Proto.Parser.parse_pub monoblok.Proto.Parser.pub_args
    monoblok.Proto.Parser.read_args monoblok.Proto.Parser.check_pub
    monoblok.Proto.Number.parse_usize monoblok.Proto.Number.digits_from
    monoblok.Proto.Subjects.subject_valid monoblok.Proto.Token.token_valid
    monoblok.Subject.split_at_dot monoblok.Proto.Subjects.no_wildcard
    monoblok.Proto.Subjects.is_byte monoblok.Proto.Parser.parse_payload
    monoblok.Proto.Parser.end_payload monoblok.Proto.Parser.trailer
publication_parsed = refl

half_parsed : parse_client_op (codes "PUB a 1\r\nb\r") ≡ need_more
unfolding parse_client_op monoblok.Proto.Parser.newline_at monoblok.Proto.Parser.parse_line
    monoblok.Proto.Token.trim_spaces monoblok.Proto.Parser.without_cr
    monoblok.Proto.Parser.verb_line monoblok.Proto.Token.next_token monoblok.Proto.Parser.dispatch
    monoblok.Proto.Token.eq_upper monoblok.Proto.Parser.parse_pub monoblok.Proto.Parser.pub_args
    monoblok.Proto.Parser.read_args monoblok.Proto.Parser.check_pub
    monoblok.Proto.Number.parse_usize monoblok.Proto.Number.digits_from
    monoblok.Proto.Subjects.subject_valid monoblok.Proto.Token.token_valid
    monoblok.Subject.split_at_dot monoblok.Proto.Subjects.no_wildcard
    monoblok.Proto.Subjects.is_byte monoblok.Proto.Parser.parse_payload
    monoblok.Proto.Parser.end_payload monoblok.Proto.Parser.trailer
half_parsed = refl

publication_settled : parse_client_op publication ≢ need_more
publication_settled e = let h = publication_parsed in cc

parse_client_op-Outcome_example : Outcome (length publication) (parse_client_op publication)
parse_client_op-Outcome_example = parse_client_op-Outcome publication

parse_client_op-append_example :
    parse_client_op (publication ++ codes "PING") ≡ parse_client_op publication
parse_client_op-append_example =
    parse_client_op-append publication (codes "PING") publication_settled
