-- ===== src/Proto/Parser/Sound.antt =====
-- What the parser returns for a buffer: an operation that is well formed and stands in it.
use monoblok.Shared.{
  ℕ, ◌≤◌, ◌<◌, ◌≡◌, refl, ◌≢◌, ◌⊎◌, inl, inr, true, false, Option, none, some, [], ◌∷◌, arith,
  Bytes, length, All, ◌==◌, Bool-cases,
}
use monoblok.Proto.Token.{next_token, token_valid}
use monoblok.Proto.Token.Laws.{Printable, token_valid_iff}
use monoblok.Proto.Number.{parse_usize}
use monoblok.Proto.Subjects.{subject_valid}
use monoblok.Proto.Subjects.Grammar.{ValidSubject, subject_valid_iff}
use monoblok.Proto.Parser.{
  Op, connect, ping, subscribe, unsubscribe, publish, Parsed, parsed, need_more, malformed, unknown,
  invalid_args, payload_too_large, control_line_too_long, Args, two, three, wrong, check_sub,
  sub_args, end_unsub, max_unsub, more_unsub, sid_unsub, max_payload,
}

-- A token of the line.
abbrev pub TokenLike : Bytes → Type 0
TokenLike t = (t ≢ []) × All Printable t

-- What the router may rely on in an operation.
abbrev pub ValidOp : Op → Type 0
ValidOp (connect options) = Unit
ValidOp ping = Unit
ValidOp (subscribe subject queue sid) =
    ValidSubject true subject × TokenLike sid × ((queue ≡ []) ⊎ TokenLike queue)
ValidOp (unsubscribe sid max_msgs) = TokenLike sid
ValidOp (publish subject reply_to payload) =
    ValidSubject false subject
    × ((reply_to ≡ []) ⊎ ValidSubject false reply_to)
    × (length payload ≤ max_payload)

-- A result on a buffer of `len` bytes.
pub data Outcome (len : ℕ) : Parsed → Type 0 where
  accepted : {op : Op} {n : ℕ} → ValidOp op → 0 < n → n ≤ len → Outcome len (parsed op n)
  waits : Outcome len need_more
  is_malformed : Outcome len malformed
  is_unknown : Outcome len unknown
  has_invalid_args : Outcome len invalid_args
  has_large_payload : Outcome len payload_too_large
  has_long_line : Outcome len control_line_too_long

pub empty_cases : (t : Bytes) → length t == 0 ≡ true → t ≡ []
empty_cases [] h = refl
empty_cases (c ∷ t) h = ground arith

check_sub-Outcome :
    (subject queue sid : Bytes) (len n : ℕ)
    → 0 < n
    → n ≤ len
    → Outcome len (check_sub subject queue sid n)
unfolding check_sub
check_sub-Outcome subject queue sid len n p q = elim (Bool-cases (subject_valid subject true)) [
  | inr s ↦ rw s has_invalid_args
  | inl s ↦ elim (Bool-cases (token_valid sid)) [
    | inr t ↦ rw (s, t) has_invalid_args
    | inl t ↦
        let ok : ((queue ≡ []) ⊎ TokenLike queue) → ValidOp (subscribe subject queue sid) =
          λ u. ((subject_valid_iff subject true).0 s, (token_valid_iff sid).0 t, u) in
        elim (Bool-cases (length queue == 0)) [
          | inl e ↦ rw (s, t, e) (accepted (ok (inl (empty_cases queue e))) p q)
          | inr e ↦ elim (Bool-cases (token_valid queue)) [
            | inl u ↦ rw (s, t, e, u) (accepted (ok (inr ((token_valid_iff queue).0 u))) p q)
            | inr u ↦ rw (s, t, e, u) has_invalid_args
          ]
        ]
  ]
]

pub sub_args-Outcome : (a : Args) (len n : ℕ) → 0 < n → n ≤ len → Outcome len (sub_args a n)
unfolding sub_args
sub_args-Outcome (two subject sid) len n p q = check_sub-Outcome subject [] sid len n p q
sub_args-Outcome (three subject queue sid) len n p q = check_sub-Outcome subject queue sid len n p q
sub_args-Outcome wrong len n p q = has_invalid_args

end_unsub-Outcome :
    (o : Option (Bytes × Bytes)) (sid : Bytes) (m : Option ℕ) (len n : ℕ)
    → TokenLike sid
    → 0 < n
    → n ≤ len
    → Outcome len (end_unsub o sid m n)
unfolding end_unsub
end_unsub-Outcome none sid m len n v p q = accepted v p q
end_unsub-Outcome (some extra) sid m len n v p q = has_invalid_args

more_unsub-Outcome :
    (o : Option (Bytes × Bytes)) (rest sid : Bytes) (len n : ℕ)
    → TokenLike sid
    → 0 < n
    → n ≤ len
    → Outcome len (more_unsub o rest sid n)
unfolding more_unsub max_unsub
more_unsub-Outcome none rest sid len n v p q =
    end_unsub-Outcome (next_token rest) sid none len n v p q
more_unsub-Outcome (some (max_msgs, rest')) rest sid len n v p q = go (parse_usize max_msgs)
  where
    go : (o : Option ℕ) → Outcome len (max_unsub o rest' sid n)
    go none = has_invalid_args
    go (some m) = end_unsub-Outcome (next_token rest') sid (some m) len n v p q

pub sid_unsub-Outcome :
    (o : Option (Bytes × Bytes)) (len n : ℕ) → 0 < n → n ≤ len → Outcome len (sid_unsub o n)
unfolding sid_unsub
sid_unsub-Outcome none len n p q = has_invalid_args
sid_unsub-Outcome (some (sid, rest)) len n p q = elim (Bool-cases (token_valid sid)) [
  | inr e ↦ rw e has_invalid_args
  | inl e ↦
      rw e (more_unsub-Outcome (next_token rest) rest sid len n ((token_valid_iff sid).0 e) p q)
]
