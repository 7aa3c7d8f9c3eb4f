-- ===== src/Patchbay/Value.antt =====
-- src/patchbay/pb_sexpr.h and the first part of src/patchbay/pb_eval.c: values and their coercions.
use monoblok.Shared.{
  ℕ, zero, suc, ◌+◌, Bool, true, false, not, Option, none, some, [], Bytes, length, leb,
  if◌then◌else◌, codes,
}
use monoblok.Slice.{slice_eq}
use monoblok.Patchbay.Floats.{Floats}

-- `pb_value` and `pb_values`, over the type of numbers.
mutual
  pub data Value (N : Type 0) : Type 0 where
    nil : Value N
    boolean : Bool → Value N
    number : N → Value N
    symbol : Bytes → Value N
    keyword : Bytes → Value N
    string : Bytes → Value N
    list : Values N → Value N
    vector : Values N → Value N

  pub data Values (N : Type 0) : Type 0 where
    none_left : Values N
    cons : Value N → Values N → Values N

-- `pb_eval_error`, and `pb_eval_result`.
pub data EvalError : Type 0 where
  oom : EvalError
  unknown_symbol : EvalError
  type_mismatch : EvalError
  arity_mismatch : EvalError
  invalid_subject : EvalError
  publish_failed : EvalError

pub data Result (N : Type 0) : Type 0 where
  ok : Value N → Result N
  fail : EvalError → Result N

-- `pb_eval_truthy`
unfoldable pub truthy : {N : Type 0} → Value N → Bool
truthy nil = false
truthy (boolean b) = b
truthy _ = true

-- `pb_eval_as_string`
unfoldable pub as_string : {N : Type 0} → Value N → Option Bytes
as_string (string s) = some s
as_string (symbol s) = some s
as_string (boolean true) = some (codes "true")
as_string (boolean false) = some (codes "false")
as_string nil = some []
as_string _ = none

module _ (F : Floats) where
  -- `pb_eval_as_number`: a text is read in a buffer of 128 bytes.
  pub as_number : Value F.Num → Option F.Num
  as_number (number n) = some n
  as_number (string s) = if leb 128 (length s) then none else F.strtod s
  as_number (symbol s) = if leb 128 (length s) then none else F.strtod s
  as_number _ = none

  -- `value_eq`; lists and vectors are never equal.
  pub value_eq : Value F.Num → Value F.Num → Bool
  value_eq nil nil = true
  value_eq (boolean true) (boolean b) = b
  value_eq (boolean false) (boolean b) = not b
  value_eq (number a) (number b) = F.eq a b
  value_eq (symbol a) (symbol b) = slice_eq a b
  value_eq (keyword a) (keyword b) = slice_eq a b
  value_eq (string a) (string b) = slice_eq a b
  value_eq _ _ = false

  -- Whether the text, printed with a precision, reads back as the number.
  pub reads_back : Bytes → F.Num → Bool
  reads_back text n = elim (F.strtod text) [ none ↦ false | some m ↦ F.eq m n ]

  -- A `snprintf` into 32 bytes, `none` where it fails or is cut.
  pub print_short : ℕ → F.Num → Option Bytes
  print_short precision n = elim (F.print_g precision n) [
    | none ↦ none
    | some text ↦ if leb 32 (length text) then none else some text
  ]

  -- The loop of `coerce_payload` from a precision on, with the rounds that are left after this one.
  pub print_number_from : ℕ → ℕ → F.Num → Option Bytes
  print_number_from zero precision n = print_short precision n
  print_number_from (suc rounds) precision n =
      let later = print_number_from rounds (precision + 1) n in
      elim (print_short precision n) [
        | none ↦ none
        | some text ↦ if reads_back text n then some text else later
      ]

  -- The number printed with the least precision of 15 to 17 that reads back, and copied to the arena.
  pub print_number : (ℕ → Bool) → F.Num → Option Bytes
  print_number scratch n = elim (print_number_from 2 15 n) [
    | none ↦ none
    | some text ↦ if scratch (length text) then some text else none
  ]

  -- `pb_eval_coerce_payload`
  unfoldable pub coerce_payload : (ℕ → Bool) → Value F.Num → Option Bytes
  coerce_payload scratch (number n) = print_number scratch n
  coerce_payload scratch v = as_string v

pub values_length : {N : Type 0} → Values N → ℕ
values_length none_left = 0
values_length (cons v vs) = values_length vs + 1
