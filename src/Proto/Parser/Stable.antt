-- ===== src/Proto/Parser/Stable.antt =====
-- More input does not change what the parser has decided.
use monoblok.Shared.{
  ℕ, ◌+◌, ◌≤◌, ◌<◌, ◌≡◌, refl, ◌≢◌, inl, inr, true, false, not, ◌&&◌, Option, none, some, [], ◌∷◌,
  ◌++◌, arith, Bytes, length, take, drop, ltb, leb, ◌==◌, Bool-cases, ==_iff, codes, length-append,
  take-append_left, drop-append_left,
}
use monoblok.Proto.Token.{trim_spaces, next_token, eq_upper}
use monoblok.Proto.Number.{parse_usize}
use monoblok.Proto.Subjects.{subject_valid}
use monoblok.Proto.Parser.{
  Parsed, need_more, control_line_too_long, Args, two, three, wrong, read_args, Trailer, ends,
  unfinished, broken, trailer, end_payload, parse_payload, check_pub, pub_args, parse_pub,
  verb_line, newline_at, without_cr, dispatch, parse_line, parse_client_op, max_payload,
  max_control_line,
}
use monoblok.Proto.Parser.Whole.{newline_at-le}

-- A result that is not `need_more` stays.
abbrev pub Settled : Parsed → Parsed → Type 0
Settled r s = r ≢ need_more → s ≡ r

trailer-append : (s more : Bytes) → trailer s ≢ unfinished → trailer (s ++ more) ≡ trailer s
unfolding trailer
trailer-append [] more h = absurd (h refl)
trailer-append (c ∷ []) [] h = refl
trailer-append (c ∷ []) (d ∷ more) h = elim (Bool-cases (c == 10)) [
  | inl e ↦ rw e refl
  | inr e ↦ elim (Bool-cases (c == 13)) [
    | inl f ↦ absurd (h (rw (e, f) refl))
    | inr f ↦ rw (e, f) refl
  ]
]
trailer-append (c ∷ d ∷ s) more h = refl

-- Of the trailer the end of the parser asks no more than this.
end_payload-Settled :
    (t u : Trailer) (subject reply_to payload : Bytes) (k n : ℕ)
    → (t ≢ unfinished → u ≡ t)
    → Settled
        (end_payload t subject reply_to k payload n)
        (end_payload u subject reply_to k payload n)
unfolding end_payload
end_payload-Settled (ends m) u subject reply_to payload k n h g = rw (h (λ e. cc)) refl
end_payload-Settled unfinished u subject reply_to payload k n h g = absurd (g refl)
end_payload-Settled broken u subject reply_to payload k n h g = rw (h (λ e. cc)) refl

parse_payload-Settled :
    (subject reply_to behind more : Bytes) (k n : ℕ)
    → Settled
        (parse_payload subject reply_to k behind n)
        (parse_payload subject reply_to k (behind ++ more) n)
unfolding parse_payload
parse_payload-Settled subject reply_to behind more k n g =
    elim (Bool-cases (leb (length behind) k)) [
      | inl e ↦ absurd (g (rw e refl))
      | inr e ↦
          let long : k ≤ length behind = ground arith in
          let wide : leb (length (behind ++ more)) k ≡ false =
            ground (arith, length-append behind more) in
          let g' : end_payload (trailer (drop k behind)) subject reply_to k (take k behind) n
              ≢ need_more =
            λ x. g (rw e x) in
          rw (e, wide, take-append_left k behind more long, drop-append_left k behind more long)
            (end_payload-Settled (trailer (drop k behind)) (trailer (drop k behind ++ more)) subject
              reply_to (take k behind) k n (trailer-append (drop k behind) more) g')
    ]

module _ (buf more : Bytes) (n : ℕ) (q : n ≤ length buf) where
  check_pub-Settled :
      (o : Option ℕ) (subject reply_to : Bytes)
      → Settled (check_pub o subject reply_to buf n) (check_pub o subject reply_to (buf ++ more) n)
  unfolding check_pub
  check_pub-Settled none subject reply_to g = refl
  check_pub-Settled (some k) subject reply_to g =
      let here : ltb (length buf) n ≡ false = ground arith in
      let there : ltb (length (buf ++ more)) n ≡ false = ground (arith, length-append buf more) in
      rw (here, there, drop-append_left n buf more q)
        (elim (Bool-cases (subject_valid subject false)) [
          | inr a ↦ rw a refl
          | inl a ↦
              elim (Bool-cases (not (length reply_to == 0) && not (subject_valid reply_to false))) [
                | inl b ↦ rw (a, b) refl
                | inr b ↦ elim (Bool-cases (ltb max_payload k)) [
                  | inl c ↦ rw (a, b, c) refl
                  | inr c ↦
                      rw (a, b, c)
                        (parse_payload-Settled subject reply_to (drop n buf) more k n
                          (λ x. g (rw (a, b, c, here) x)))
                ]
              ]
        ])

  pub_args-Settled : (a : Args) → Settled (pub_args a buf n) (pub_args a (buf ++ more) n)
  unfolding pub_args
  pub_args-Settled (two subject bytes_str) g =
      check_pub-Settled (parse_usize bytes_str) subject [] g
  pub_args-Settled (three subject reply_to bytes_str) g =
      check_pub-Settled (parse_usize bytes_str) subject reply_to g
  pub_args-Settled wrong g = refl

  dispatch-Settled :
      (verb rest : Bytes) → Settled (dispatch buf verb rest n) (dispatch (buf ++ more) verb rest n)
  unfolding dispatch parse_pub
  dispatch-Settled verb rest g = elim (Bool-cases (eq_upper verb (codes "PING"))) [
    | inl a ↦ rw a refl
    | inr a ↦ elim (Bool-cases (eq_upper verb (codes "CONNECT"))) [
      | inl b ↦ rw (a, b) refl
      | inr b ↦ elim (Bool-cases (eq_upper verb (codes "SUB"))) [
        | inl c ↦ rw (a, b, c) refl
        | inr c ↦ elim (Bool-cases (eq_upper verb (codes "UNSUB"))) [
          | inl d ↦ rw (a, b, c, d) refl
          | inr d ↦ elim (Bool-cases (eq_upper verb (codes "PUB"))) [
            | inl e ↦
                rw (a, b, c, d, e)
                  (pub_args-Settled (read_args rest) (λ x. g (rw (a, b, c, d, e) x)))
            | inr e ↦ rw (a, b, c, d, e) refl
          ]
        ]
      ]
    ]
  ]

  verb_line-Settled :
      (o : Option (Bytes × Bytes)) → Settled (verb_line o buf n) (verb_line o (buf ++ more) n)
  unfolding verb_line
  verb_line-Settled none g = refl
  verb_line-Settled (some (verb, rest)) g = dispatch-Settled verb rest g

  parse_line-Settled :
      (line : Bytes) → Settled (parse_line buf line n) (parse_line (buf ++ more) line n)
  unfolding parse_line
  parse_line-Settled line g = elim (Bool-cases (length line == 0)) [
    | inl e ↦ rw e refl
    | inr e ↦ rw e (verb_line-Settled (next_token line) (λ x. g (rw e x)))
  ]

newline_at-append :
    (s more : Bytes) → newline_at s < length s → newline_at (s ++ more) ≡ newline_at s
unfolding newline_at
newline_at-append [] more h = elim h [ ]
newline_at-append (c ∷ s) more h = ground (arith, newline_at-append s more)

newline_at-past :
    (s more : Bytes) → newline_at s ≡ length s → newline_at (s ++ more) ≡ length s + newline_at more
unfolding newline_at
newline_at-past [] more h = omega arith
newline_at-past (c ∷ s) more h = ground (arith, newline_at-past s more)

-- A line that is too long without its end is too long with it.
no_line-Settled :
    (buf more : Bytes)
    → newline_at buf ≡ length buf
    → ltb max_control_line (length buf) ≡ true
    → parse_client_op (buf ++ more) ≡ control_line_too_long
unfolding parse_client_op
no_line-Settled buf more e f =
    elim (Bool-cases (newline_at (buf ++ more) == length (buf ++ more))) [
      | inl a ↦ rw (a, longer) refl
      | inr a ↦ rw (a, far) refl
    ]
  where
    longer : ltb max_control_line (length (buf ++ more)) ≡ true
    longer = ground (arith, length-append buf more)

    far : ltb max_control_line (newline_at (buf ++ more)) ≡ true
    far = ground (arith, newline_at-past buf more e)

-- Whatever the parser returns for a buffer, unless it asks for more, it returns for every buffer
-- that begins with it: the operation, the bytes consumed, or the error.
pub parse_client_op-append :
    (buf more : Bytes)
    → parse_client_op buf ≢ need_more
    → parse_client_op (buf ++ more) ≡ parse_client_op buf
unfolding parse_client_op
parse_client_op-append buf more g = elim (Bool-cases (newline_at buf == length buf)) [
  | inl e ↦ elim (Bool-cases (ltb max_control_line (length buf))) [
    | inl f ↦ rw (e, f) (no_line-Settled buf more ((==_iff (newline_at buf) (length buf)).0 e) f)
    | inr f ↦ absurd (g (rw (e, f) refl))
  ]
  | inr e ↦ line e (ground (arith, newline_at-le buf))
]
  where
    line :
        (newline_at buf == length buf) ≡ false
        → newline_at buf < length buf
        → parse_client_op (buf ++ more) ≡ parse_client_op buf
    line e l =
        let same : newline_at (buf ++ more) ≡ newline_at buf = newline_at-append buf more l in
        let differs : (newline_at buf == length (buf ++ more)) ≡ false =
          ground (arith, length-append buf more) in
        rw (same, differs, e, take-append_left (newline_at buf) buf more (omega arith))
          (elim (Bool-cases (ltb max_control_line (newline_at buf))) [
            | inl f ↦ rw f refl
            | inr f ↦ rw f (
                parse_line-Settled buf more (newline_at buf + 1) (omega arith)
                  (trim_spaces (without_cr (take (newline_at buf) buf))) (λ x. g (rw (e, f) x)))
          ])
