-- ===== src/Proto/Parser/Payload.antt =====
-- The results for `PUB`: the payload stands in the buffer, with its line end.
use monoblok.Shared.{
  ℕ, ◌+◌, ◌-◌, ◌≤◌, ◌<◌, ◌≡◌, ◌⊎◌, inl, inr, true, false, ◌||◌, Option, none, some, [], ◌∷◌, arith,
  Bytes, length, take, drop, ltb, leb, ◌==◌, if◌then◌else◌, size_max, Bool-cases, ltb→le,
  length-drop, length-take,
}
use monoblok.Proto.Number.{parse_usize}
use monoblok.Proto.Subjects.{subject_valid}
use monoblok.Proto.Subjects.Grammar.{ValidSubject, subject_valid_iff}
use monoblok.Proto.Parser.{
  publish, need_more, payload_too_large, Args, two, three, wrong, Trailer, ends, unfinished, broken,
  trailer, end_payload, parse_payload, check_pub, pub_args, max_payload,
}
use monoblok.Proto.Parser.Sound.{
  Outcome, accepted, waits, is_malformed, has_invalid_args, has_large_payload, ValidOp, empty_cases,
}

-- The trailer is no longer than what stands there.
data Trails (s : Bytes) : Trailer → Type 0 where
  trails : {k : ℕ} → k ≤ length s → Trails s (ends k)
  waiting : Trails s unfinished
  bad : Trails s broken

trailer-Trails : (s : Bytes) → Trails s (trailer s)
unfolding trailer
trailer-Trails [] = waiting
trailer-Trails (c ∷ []) = elim (Bool-cases (c == 10)) [
  | inl e ↦ rw e (trails (omega arith))
  | inr e ↦ elim (Bool-cases (c == 13)) [ inl f ↦ rw (e, f) waiting | inr f ↦ rw (e, f) bad ]
]
trailer-Trails (c ∷ d ∷ s) = elim (Bool-cases (c == 10)) [
  | inl e ↦ rw e (trails (omega arith))
  | inr e ↦ elim (Bool-cases (c == 13)) [
    | inl f ↦ elim (Bool-cases (d == 10)) [
      | inl g ↦ rw (e, f, g) (trails (omega arith))
      | inr g ↦ rw (e, f, g) bad
    ]
    | inr f ↦ rw (e, f) bad
  ]
]

end_payload-Outcome :
    (subject reply_to payload s : Bytes) (k n len : ℕ) (t : Trailer)
    → ValidOp (publish subject reply_to payload)
    → Trails s t
    → 0 < n
    → n + k + length s ≤ len
    → Outcome len (end_payload t subject reply_to k payload n)
unfolding end_payload
end_payload-Outcome subject reply_to payload s k n len _ v (trails {k = m} h) p q =
    elim (Bool-cases (ltb (size_max - n) k || ltb (size_max - n - k) m)) [
      | inl e ↦ rw e has_large_payload
      | inr e ↦ rw e (accepted v (omega arith) (omega arith))
    ]
end_payload-Outcome subject reply_to payload s k n len _ v waiting p q = waits
end_payload-Outcome subject reply_to payload s k n len _ v bad p q = is_malformed

parse_payload-Outcome :
    (subject reply_to behind : Bytes) (k n len : ℕ)
    → ValidSubject false subject
    → ((reply_to ≡ []) ⊎ ValidSubject false reply_to)
    → k ≤ max_payload
    → 0 < n
    → n + length behind ≤ len
    → Outcome len (parse_payload subject reply_to k behind n)
unfolding parse_payload
parse_payload-Outcome subject reply_to behind k n len v w small p q =
    elim (Bool-cases (leb (length behind) k)) [
      | inl e ↦ rw e waits
      | inr e ↦ rw e (
          end_payload-Outcome subject reply_to (take k behind) (drop k behind) k n len
            (trailer (drop k behind)) (v, w, omega (arith, length-take k behind))
            (trailer-Trails (drop k behind)) p (ground (arith, length-drop k behind)))
    ]

check_pub-Outcome :
    (o : Option ℕ) (subject reply_to buf : Bytes) (n : ℕ)
    → 0 < n
    → n ≤ length buf
    → Outcome (length buf) (check_pub o subject reply_to buf n)
unfolding check_pub
check_pub-Outcome none subject reply_to buf n p q = has_invalid_args
check_pub-Outcome (some k) subject reply_to buf n p q =
    elim (Bool-cases (subject_valid subject false)) [
      | inr e ↦ rw e has_invalid_args
      | inl e ↦ elim (Bool-cases (length reply_to == 0)) [
        | inl f ↦ rw (e, f) (checked e (inl (empty_cases reply_to f)))
        | inr f ↦ elim (Bool-cases (subject_valid reply_to false)) [
          | inl g ↦ rw (e, f, g) (checked e (inr ((subject_valid_iff reply_to false).0 g)))
          | inr g ↦ rw (e, f, g) has_invalid_args
        ]
      ]
    ]
  where
    checked :
        subject_valid subject false ≡ true
        → ((reply_to ≡ []) ⊎ ValidSubject false reply_to)
        → Outcome (length buf) (
            if ltb max_payload k
            then payload_too_large
            else if ltb (length buf) n
            then need_more
            else parse_payload subject reply_to k (drop n buf) n)
    checked e w = elim (Bool-cases (ltb max_payload k)) [
      | inl big ↦ rw big has_large_payload
      | inr fits ↦ elim (Bool-cases (ltb (length buf) n)) [
        | inl short ↦ rw (fits, short) waits
        | inr long ↦
            rw (fits, long)
              (parse_payload-Outcome subject reply_to (drop n buf) k n (length buf)
                ((subject_valid_iff subject false).0 e) w (ltb→le max_payload k fits) p
                (omega (arith, length-drop n buf)))
      ]
    ]

pub pub_args-Outcome :
    (a : Args) (buf : Bytes) (n : ℕ)
    → 0 < n
    → n ≤ length buf
    → Outcome (length buf) (pub_args a buf n)
unfolding pub_args
pub_args-Outcome (two subject bytes_str) buf n p q =
    check_pub-Outcome (parse_usize bytes_str) subject [] buf n p q
pub_args-Outcome (three subject reply_to bytes_str) buf n p q =
    check_pub-Outcome (parse_usize bytes_str) subject reply_to buf n p q
pub_args-Outcome wrong buf n p q = has_invalid_args
