-- ===== src/Patchbay/Windows/Calls.antt =====
-- src/patchbay/pb_form_windows.c: the forms on their evaluated arguments.
use monoblok.Shared.{ℕ, Bool, true, ◌||◌, Option, none, some, List, Bytes, if◌then◌else◌, codes}
use monoblok.Slice.{slice_eq}
use monoblok.Patchbay.Floats.{Floats, positive_whole}
use monoblok.Patchbay.Value.{
  Value, Values, keyword, none_left, cons, Result, fail, type_mismatch, arity_mismatch, as_number,
}
use monoblok.Patchbay.Entry.{Ring}
use monoblok.Patchbay.Slot.{Context, Machine, with_slot}
use monoblok.Patchbay.Windows.{
  Calc, Window, window_op, parse_window, parse_count, calc_ring, window_step, percentile_of,
  rate_of, throttle_step,
}

module _ (F : Floats) (alloc scratch : ℕ → Bool) (qsort : List F.Num → List F.Num)
    (ctx : Context) where
  -- The entry of a window, a value pushed to it, and the answer.
  pub push_and_answer :
      Bytes
      → Window F.Num
      → (Ring F.Num → Result F.Num)
      → Option F.Num
      → Machine F.Num
      → Result F.Num × Machine F.Num
  push_and_answer op w answer none m = (fail type_mismatch, m)
  push_and_answer op w answer (some x) m =
      with_slot F alloc ctx (window_op op w.time_window)
        (window_step F alloc scratch w.time_window w.count w.ms ctx.now_ms x answer) m

  pub calc_rest :
      Bytes → Calc → Window F.Num → Values F.Num → Machine F.Num → Result F.Num × Machine F.Num
  calc_rest op calc w (cons v none_left) m =
      push_and_answer op w (calc_ring F calc) (as_number F v) m
  calc_rest op calc w _ m = (fail arity_mismatch, m)

  -- `call_window_calc`
  pub call_window_calc : Bytes → Calc → Values F.Num → Machine F.Num → Result F.Num × Machine F.Num
  call_window_calc op calc args m = elim (parse_window F args) [
    | none ↦ (fail arity_mismatch, m)
    | some w ↦ calc_rest op calc w w.rest m
  ]

  -- `call_percentile`, from `p` on.
  pub percentile_at :
      Bytes → Window F.Num → F.Num → Values F.Num → Machine F.Num → Result F.Num × Machine F.Num
  percentile_at op w p (cons v none_left) m =
      push_and_answer op w (percentile_of F alloc scratch qsort p) (as_number F v) m
  percentile_at op w p _ m = (fail arity_mismatch, m)

  pub percentile_from :
      Window F.Num → Option F.Num → Values F.Num → Machine F.Num → Result F.Num × Machine F.Num
  percentile_from w none rest m = (fail type_mismatch, m)
  percentile_from w (some p) rest m =
      if F.lt p (F.of_nat 0) || F.lt (F.of_nat 1) p
      then (fail type_mismatch, m)
      else percentile_at (codes "percentile") w p rest m

  pub percentile_window : Window F.Num → Values F.Num → Machine F.Num → Result F.Num × Machine F.Num
  percentile_window w none_left m = (fail type_mismatch, m)
  percentile_window w (cons p rest) m = percentile_from w (as_number F p) rest m

  pub call_percentile : Values F.Num → Machine F.Num → Result F.Num × Machine F.Num
  call_percentile args m = elim (parse_window F args) [
    | none ↦ (fail arity_mismatch, m)
    | some w ↦ percentile_window w w.rest m
  ]

  pub call_median : Values F.Num → Machine F.Num → Result F.Num × Machine F.Num
  call_median args m = elim (parse_window F args) [
    | none ↦ (fail arity_mismatch, m)
    | some w ↦ percentile_at (codes "median") w (F.div (F.of_nat 1) (F.of_nat 2)) w.rest m
  ]

  -- `call_rate`
  pub rate_from : Option F.Num → Machine F.Num → Result F.Num × Machine F.Num
  rate_from none m = (fail type_mismatch, m)
  rate_from (some ms) m =
      if positive_whole F ms
      then with_slot F alloc ctx (window_op (codes "rate") true)
          (window_step F alloc scratch true 0 (F.to_nat ms) ctx.now_ms (F.of_nat 1)
            (rate_of F alloc scratch ms))
          m
      else (fail type_mismatch, m)

  pub call_rate : Values F.Num → Machine F.Num → Result F.Num × Machine F.Num
  call_rate (cons (keyword k) (cons v (cons x none_left))) m =
      if slice_eq k (codes "ms") then rate_from (as_number F v) m else (fail arity_mismatch, m)
  call_rate _ m = (fail arity_mismatch, m)

  -- `call_throttle`
  pub throttle_from :
      Window F.Num → Option ℕ → Value F.Num → Machine F.Num → Result F.Num × Machine F.Num
  throttle_from w none v m = (fail type_mismatch, m)
  throttle_from w (some max) v m =
      with_slot F alloc ctx (window_op (codes "throttle") w.time_window)
        (throttle_step F alloc scratch w.time_window w.count w.ms max ctx.now_ms v) m

  pub throttle_window : Window F.Num → Values F.Num → Machine F.Num → Result F.Num × Machine F.Num
  throttle_window w (cons max (cons v none_left)) m =
      throttle_from w (parse_count F (as_number F max)) v m
  throttle_window w _ m = (fail arity_mismatch, m)

  pub call_throttle : Values F.Num → Machine F.Num → Result F.Num × Machine F.Num
  call_throttle args m = elim (parse_window F args) [
    | none ↦ (fail arity_mismatch, m)
    | some w ↦ throttle_window w w.rest m
  ]
