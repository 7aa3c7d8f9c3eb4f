-- ===== src/Patchbay/Clocks/Calls.antt =====
-- src/patchbay/pb_form_clocks.c: `debounce!`, `sample!` and `aggregate!` on their evaluated arguments.
use monoblok.Shared.{ℕ, Bool, true, false, Option, none, some, Bytes, if◌then◌else◌, codes}
use monoblok.Slice.{slice_eq}
use monoblok.Patchbay.Floats.{Floats}
use monoblok.Patchbay.Value.{
  Value, Values, keyword, none_left, cons, Result, fail, type_mismatch, arity_mismatch,
  unknown_symbol, as_string, as_number, coerce_payload,
}
use monoblok.Patchbay.Entry.{
  ClockKind, debounce, sample, Metric, avg_metric, sum_metric, min_metric, max_metric, count_metric,
  rate_metric,
}
use monoblok.Patchbay.Slot.{Context, Machine, with_slot}
use monoblok.Patchbay.Windows.{parse_count}
use monoblok.Patchbay.Clocks.{retain_step, aggregate_step}

-- The metric that a keyword names.
pub metric_named : Bytes → Option Metric
metric_named k =
    if slice_eq k (codes "rate")
    then some rate_metric
    else if slice_eq k (codes "count")
    then some count_metric
    else if slice_eq k (codes "max")
    then some max_metric
    else if slice_eq k (codes "min")
    then some min_metric
    else if slice_eq k (codes "sum")
    then some sum_metric
    else if slice_eq k (codes "avg")
    then some avg_metric
    else none

module _ (F : Floats) (alloc scratch : ℕ → Bool) (ctx : Context) where
  -- `retain_publish`
  pub retain_texts :
      Bytes
      → ClockKind
      → ℕ
      → Bool
      → Option Bytes
      → Option Bytes
      → Machine F.Num
      → Result F.Num × Machine F.Num
  retain_texts op kind ms reset (some s) (some payload) m =
      with_slot F alloc ctx op (retain_step F alloc scratch ctx.now_ms ms kind reset s payload) m
  retain_texts op kind ms reset _ _ m = (fail type_mismatch, m)

  pub retain_publish :
      Bytes
      → ClockKind
      → Option ℕ
      → Value F.Num
      → Value F.Num
      → Bool
      → Machine F.Num
      → Result F.Num × Machine F.Num
  retain_publish op kind none s v reset m = (fail type_mismatch, m)
  retain_publish op kind (some ms) s v reset m =
      retain_texts op kind ms reset (as_string s) (coerce_payload F scratch v) m

  -- `call_debounce`
  pub call_debounce : Values F.Num → Machine F.Num → Result F.Num × Machine F.Num
  call_debounce (cons (keyword k) (cons ms (cons s (cons v none_left)))) m =
      if slice_eq k (codes "ms")
      then retain_publish (codes "debounce") debounce (parse_count F (as_number F ms)) s v true m
      else (fail arity_mismatch, m)
  call_debounce _ m = (fail arity_mismatch, m)

  -- `call_sample`
  pub call_sample : Values F.Num → Machine F.Num → Result F.Num × Machine F.Num
  call_sample (cons (keyword k) (cons ms (cons s (cons v none_left)))) m =
      if slice_eq k (codes "ms")
      then retain_publish (codes "sample") sample (parse_count F (as_number F ms)) s v false m
      else (fail arity_mismatch, m)
  call_sample _ m = (fail arity_mismatch, m)

  -- `call_aggregate` from its numbers on.
  pub aggregate_named :
      ℕ → F.Num → Option Metric → Option Bytes → Machine F.Num → Result F.Num × Machine F.Num
  aggregate_named ms x none s m = (fail unknown_symbol, m)
  aggregate_named ms x (some which) none m = (fail type_mismatch, m)
  aggregate_named ms x (some which) (some s) m =
      with_slot F alloc ctx (codes "aggregate")
        (aggregate_step F alloc scratch ctx.now_ms ms which s x) m

  pub aggregate_numbers :
      Option ℕ
      → Option F.Num
      → Option Metric
      → Option Bytes
      → Machine F.Num
      → Result F.Num × Machine F.Num
  aggregate_numbers (some ms) (some x) metric s m = aggregate_named ms x metric s m
  aggregate_numbers _ _ metric s m = (fail type_mismatch, m)

  pub call_aggregate : Values F.Num → Machine F.Num → Result F.Num × Machine F.Num
  call_aggregate (cons (keyword k) (cons ms (cons s (cons (keyword name) (cons v none_left))))) m =
      if slice_eq k (codes "ms")
      then aggregate_numbers (parse_count F (as_number F ms)) (as_number F v) (metric_named name)
          (as_string s) m
      else (fail arity_mismatch, m)
  call_aggregate _ m = (fail arity_mismatch, m)
