-- ===== src/Patchbay/Gates/Calls.antt =====
-- src/patchbay/pb_form_state.c: the forms on their evaluated arguments.
use monoblok.Shared.{
  ℕ, ◌+◌, Bool, true, false, not, ◌&&◌, ◌||◌, Option, none, some, ◌++◌, Bytes, length, leb,
  if◌then◌else◌, codes,
}
use monoblok.Proto.Subjects.{subject_valid}
use monoblok.Router.Match.{subject_has_lvc_prefix, subject_has_stats_prefix}
use monoblok.Slice.{slice_eq}
use monoblok.Patchbay.Floats.{Floats, whole}
use monoblok.Patchbay.Value.{
  Value, Values, nil, number, keyword, none_left, cons, EvalError, Result, ok, fail, oom,
  type_mismatch, arity_mismatch, invalid_subject, publish_failed, truthy, as_string, as_number,
}
use monoblok.Patchbay.Slot.{Context, Machine, note_suppressed, with_slot, beside}
use monoblok.Patchbay.Gates.{
  hold_off_step, edge_step, deadband_step, delta_step, count_step, changed_step,
}

-- `keyword_eq`
pub keyword_eq : {N : Type 0} → Value N → Bytes → Bool
keyword_eq (keyword k) s = slice_eq k s
keyword_eq _ s = false

-- `publish_subject_valid`
pub publish_subject_valid : Bytes → Bool
publish_subject_valid s =
    subject_valid s false && not (subject_has_lvc_prefix s) && not (subject_has_stats_prefix s)

-- What `call_count` reads of its arguments: a condition and a subject, where they are given.
pub data CountArgs (N : Type 0) : Type 0 where
  refused : EvalError → CountArgs N
  counted : Option (Value N) → Option Bytes → CountArgs N

module _ {N : Type 0} where
  -- The subject must be a text.
  pub with_subject : Option (Value N) → Option Bytes → CountArgs N
  with_subject cond none = refused type_mismatch
  with_subject cond (some s) = counted cond (some s)

  pub count_args : Values N → CountArgs N
  count_args none_left = counted none none
  count_args (cons a none_left) =
      if keyword_eq a (codes "subject") then refused arity_mismatch else counted (some a) none
  count_args (cons a (cons b none_left)) =
      if keyword_eq a (codes "subject")
      then with_subject none (as_string b)
      else refused type_mismatch
  count_args (cons a (cons b (cons c none_left))) =
      if keyword_eq a (codes "subject")
      then with_subject (some c) (as_string b)
      else if keyword_eq b (codes "subject")
      then with_subject (some a) (as_string c)
      else refused type_mismatch
  count_args (cons a (cons b (cons c (cons d vs)))) = refused arity_mismatch

  -- `!has_cond || truthy(cond)`
  pub condition : Option (Value N) → Bool
  condition none = true
  condition (some v) = truthy v

module _ (F : Floats) (alloc scratch : ℕ → Bool) (ctx : Context) where
  -- `call_squelch` and `call_changed`
  pub call_squelch : Values F.Num → Machine F.Num → Result F.Num × Machine F.Num
  call_squelch (cons v none_left) m =
      with_slot F alloc ctx (codes "squelch") (changed_step F alloc scratch false v) m
  call_squelch _ m = (fail arity_mismatch, m)

  pub call_changed : Values F.Num → Machine F.Num → Result F.Num × Machine F.Num
  call_changed (cons v none_left) m =
      with_slot F alloc ctx (codes "changed?") (changed_step F alloc scratch true v) m
  call_changed _ m = (fail arity_mismatch, m)

  -- `call_hold_off`
  pub hold_off_from : Option F.Num → Value F.Num → Machine F.Num → Result F.Num × Machine F.Num
  hold_off_from none v m = (fail type_mismatch, m)
  hold_off_from (some window) v m =
      if F.lt window (F.of_nat 0) || not (whole F window)
      then (fail type_mismatch, m)
      else with_slot F alloc ctx (codes "hold-off") (hold_off_step F window ctx.now_ms v) m

  pub call_hold_off : Values F.Num → Machine F.Num → Result F.Num × Machine F.Num
  call_hold_off (cons w (cons v none_left)) m = hold_off_from (as_number F w) v m
  call_hold_off _ m = (fail arity_mismatch, m)

  -- `call_edge`
  pub call_edge : Bool → Values F.Num → Machine F.Num → Result F.Num × Machine F.Num
  call_edge rising (cons v none_left) m =
      with_slot F alloc ctx (if rising then codes "rising-edge" else codes "falling-edge")
        (edge_step F rising (truthy v)) m
  call_edge rising _ m = (fail arity_mismatch, m)

  -- `call_deadband`
  pub deadband_from : Option F.Num → Option F.Num → Machine F.Num → Result F.Num × Machine F.Num
  deadband_from (some threshold) (some x) m =
      if F.lt threshold (F.of_nat 0)
      then (fail type_mismatch, m)
      else with_slot F alloc ctx (codes "deadband") (deadband_step F threshold x) m
  deadband_from _ _ m = (fail type_mismatch, m)

  pub call_deadband : Values F.Num → Machine F.Num → Result F.Num × Machine F.Num
  call_deadband (cons t (cons v none_left)) m = deadband_from (as_number F t) (as_number F v) m
  call_deadband _ m = (fail arity_mismatch, m)

  -- `call_delta`
  pub delta_from : Option F.Num → Machine F.Num → Result F.Num × Machine F.Num
  delta_from none m = (fail type_mismatch, m)
  delta_from (some x) m = with_slot F alloc ctx (codes "delta") (delta_step F x) m

  pub call_delta : Values F.Num → Machine F.Num → Result F.Num × Machine F.Num
  call_delta (cons v none_left) m = delta_from (as_number F v) m
  call_delta _ m = (fail arity_mismatch, m)

-- The form that publishes, through the callback `ctx->publish`, which changes a world of its own and,
-- where the rule is reentrant, the state of the rule.
module _ (F : Floats) (alloc scratch : ℕ → Bool) (ctx : Context) {W : Type 0}
    (publish : (Machine F.Num × W) → Bytes → Bytes → Bool × (Machine F.Num × W)) where
  -- `snprintf` with `%.0f` into 32 bytes, and the copy in the arena.
  pub print_count : F.Num → Option Bytes
  print_count n = elim (F.print_f 0 n) [
    | none ↦ none
    | some text ↦ if leb 32 (length text) then none else some text
  ]

  pub publish_text : (Machine F.Num × W) → Bytes → Bytes → Result F.Num × (Machine F.Num × W)
  publish_text p s text =
      let (sent, p') = publish p s text in if sent then (ok nil, p') else (fail publish_failed, p')

  -- The end of `call_count`, from the number that the entry has now.
  pub publish_count : W → Bytes → Result F.Num × Machine F.Num → Result F.Num × Machine F.Num × W
  publish_count w s (fail error, m) = (fail error, m, w)
  publish_count w s (ok (number n), m) = elim (print_count n) [
    | none ↦ (fail type_mismatch, m, w)
    | some text ↦
        if scratch (length text) then beside (publish_text (m, w) s text) else (fail oom, m, w)
  ]
  publish_count w s (ok v, m) = (ok v, m, w)

  -- `call_count` from its subject on.
  pub count_on : W → Option Bytes → Machine F.Num → Result F.Num × Machine F.Num × W
  count_on w none m = (fail oom, m, w)
  count_on w (some s) m =
      if publish_subject_valid s
      then publish_count w s (with_slot F alloc ctx (codes "count") (count_step F) m)
      else (fail invalid_subject, m, w)

  -- The subject that is given, or that of the message with `.count`.
  pub count_subject : Option Bytes → Option Bytes
  count_subject (some s) = some s
  count_subject none =
      if scratch (length ctx.subject + 6) then some (ctx.subject ++ codes ".count") else none

  pub count_from : CountArgs F.Num → W → Machine F.Num → Result F.Num × Machine F.Num × W
  count_from (refused error) w m = (fail error, m, w)
  count_from (counted cond subject) w m =
      if condition cond
      then count_on w (count_subject subject) m
      else (ok nil, note_suppressed m, w)

  -- `call_count`
  pub call_count : Values F.Num → W → Machine F.Num → Result F.Num × Machine F.Num × W
  call_count args w m = count_from (count_args args) w m
