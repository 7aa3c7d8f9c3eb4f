-- ===== src/Patchbay/Clocks.antt =====
-- src/patchbay/pb_form_clocks.c: the forms that publish later, and the ticks of their clocks.
pub mod Due
pub mod Progress
pub mod Deadlines
pub mod Calls
use monoblok.Shared.{
  ℕ, zero, suc, ◌+◌, ◌-◌, ◌*◌, ◌/◌, ◌%◌, ◌^◌, ◌≤◌, ◌<◌, min, ◌≡◌, refl, sym, ap, ap₂, subst, ◌∙◌,
  ◌≢◌, ◌↔◌, ◌⊎◌, inl, inr, Bool, true, false, not, ◌&&◌, ◌||◌, Option, none, some, List, [], ◌∷◌,
  ◌++◌, map, append-nil, append_assoc, arith, Bytes, length, get_elem?, set, take, drop, replicate,
  All, ltb, leb, ◌==◌, if◌then◌else◌, size_max, Bool-cases, Option-cases, &&_split, &&_both, ==_iff,
  codes, ltb→lt, ltb→le, lt→ltb, le→ltb, leb→le, le→leb, length-append, length-drop, length-take,
  take-append, drop-append,
}
use monoblok.Slice.{slice_eq}
use monoblok.Patchbay.Floats.{Floats}
use monoblok.Patchbay.Value.{
  Value, Values, nil, number, EvalError, Result, ok, fail, oom, type_mismatch, unknown_symbol,
  coerce_payload,
}
use monoblok.Patchbay.Entry.{
  Kind, clock_kind, ring_kind, ClockKind, no_clock, on_silence, dropout, debounce, sample,
  aggregate, Metric, no_metric, avg_metric, sum_metric, min_metric, max_metric, count_metric,
  rate_metric, Ring, Bar, Clock, Entry, set_bytes, set_emit_subject,
}
use monoblok.Patchbay.Slot.{Outcome, passes, refuses}
use monoblok.Patchbay.Gates.{is_empty}
use monoblok.Patchbay.Ring.{elem, ring_push_time, ring_evict_time}
use monoblok.Patchbay.Windows.{sum_calc, avg_calc, min_calc, max_calc, calc_ring, is_ring}
use monoblok.Patchbay.Bars.{Close, bar_time_tick, is_bar}

unfoldable pub is_clock : Kind → Bool
is_clock clock_kind = true
is_clock _ = false

-- What a tick does once the entry is changed: nothing, `clock_publish`, the body of `on-silence` with
-- the payload that was kept, the lost form of `dropout`, the fields of a bar, or a refusal.
pub data Action (N : Type 0) : Type 0 where
  idle : Action N
  send : Action N
  run_body : Bytes → Values N → Action N
  run_form : Value N → Action N
  emit_bar : Close N → Action N
  refuse : EvalError → Action N

module _ (F : Floats) (alloc scratch : ℕ → Bool) where
  -- `retain_publish` on its entry.
  pub retained : ℕ → ℕ → ClockKind → Bool → Bytes → Entry F.Num → Entry F.Num
  retained now ms kind reset s e = record e {
    clock = record (e.clock) {
      kind = kind;
      interval_ms = ms;
      armed = true;
      deadline_ms =
          if reset || e.clock.deadline_ms == 0 then (now + ms) % 2 ^ 64 else e.clock.deadline_ms;
    };
  }

  pub retain_step : ℕ → ℕ → ClockKind → Bool → Bytes → Bytes → Entry F.Num → Outcome F.Num
  retain_step now ms kind reset s payload e =
      let (named, e₁) = set_emit_subject alloc (retained now ms kind reset s e) s in
      let (kept, e₂) = set_bytes alloc e₁ payload in
      if named
      then if kept then passes nil (record e₂ { kind = clock_kind }) else refuses oom e₂
      else refuses oom e₁

  -- `call_aggregate` on its entry.
  pub aggregate_started : ℕ → ℕ → Metric → Entry F.Num → Entry F.Num
  aggregate_started now ms metric e =
      if is_empty e.kind
      then record e {
        clock = record (e.clock) {
          kind = aggregate;
          interval_ms = ms;
          deadline_ms = (now + ms) % 2 ^ 64;
          armed = true;
          metric = metric;
        };
      }
      else record e { clock = record (e.clock) { metric = metric } }

  pub aggregate_step : ℕ → ℕ → Metric → Bytes → F.Num → Entry F.Num → Outcome F.Num
  aggregate_step now ms metric s x e =
      let (named, e₁) = set_emit_subject alloc (aggregate_started now ms metric e) s in
      let (pushed, r) = ring_push_time F alloc e₁.ring x now in
      if named
      then if pushed
        then passes nil (record e₁ { ring = r; kind = clock_kind })
        else refuses oom (record e₁ { ring = r })
      else refuses oom e₁

  -- The number that an aggregate publishes.
  pub metric_result : Metric → Entry F.Num → Result F.Num
  metric_result avg_metric e = calc_ring F avg_calc e.ring
  metric_result sum_metric e = calc_ring F sum_calc e.ring
  metric_result min_metric e = calc_ring F min_calc e.ring
  metric_result max_metric e = calc_ring F max_calc e.ring
  metric_result count_metric e = ok (number (F.of_nat e.ring.len))
  metric_result rate_metric e =
      ok (
        number (F.div (F.mul (F.of_nat e.ring.len) (F.of_nat 1000)) (F.of_nat e.clock.interval_ms)))
  metric_result no_metric e = fail type_mismatch

  -- `clock_deadline_ms += clock_interval_ms`
  unfoldable pub advance : Entry F.Num → Entry F.Num
  advance e = record e {
    clock = record (e.clock) { deadline_ms = (e.clock.deadline_ms + e.clock.interval_ms) % 2 ^ 64 };
  }

  pub disarm : Entry F.Num → Entry F.Num
  disarm e = record e { clock = record (e.clock) { armed = false } }

  -- The emptied ring of an aggregate that is published.
  pub emptied : Entry F.Num → Entry F.Num
  emptied e = record e {
    kind = clock_kind;
    ring = record (e.ring) { len = 0; start = 0; sum = F.of_nat 0 };
  }

  pub aggregate_payload : Option Bytes → Entry F.Num → Action F.Num × Entry F.Num
  aggregate_payload none e = (refuse oom, e)
  aggregate_payload (some text) e =
      let (kept, e') = set_bytes alloc e text in
      if kept then (send, advance (emptied e')) else (refuse oom, e')

  pub aggregate_tick : Result F.Num → Entry F.Num → Action F.Num × Entry F.Num
  aggregate_tick (fail error) e = (refuse error, e)
  aggregate_tick (ok v) e = aggregate_payload (coerce_payload F scratch v) e

  -- The `switch` of `tick_clock_state_entry`.
  unfoldable pub tick_due : ClockKind → Entry F.Num → Action F.Num × Entry F.Num
  tick_due on_silence e = (run_body e.bytes e.clock.body, disarm e)
  tick_due dropout e = (
    run_form e.clock.lost_form,
    record e { clock = record (e.clock) { lost = true; armed = false } },
  )
  tick_due debounce e = (send, disarm e)
  tick_due sample e = (send, advance e)
  tick_due aggregate e =
      if e.ring.len == 0
      then (idle, advance e)
      else aggregate_tick (metric_result e.clock.metric e) e
  tick_due no_clock e = (idle, e)

  -- `tick_clock_state_entry` on its entry.
  unfoldable pub tick_clock : ℕ → Entry F.Num → Action F.Num × Entry F.Num
  tick_clock now e =
      if not e.clock.armed || ltb now e.clock.deadline_ms
      then (idle, e)
      else tick_due e.clock.kind e

  -- The part of `pb_eval_tick_state_entry` for windows and bars.
  pub evicted : ℕ → Entry F.Num → Entry F.Num
  evicted now e =
      if is_ring e.kind && e.ring.time_window && ltb 0 e.ring.len
      then record e {
        ring =
            ring_evict_time F e.ring
              (if ltb e.ring.window_ms now then now - e.ring.window_ms else 0);
      }
      else e

  pub closed : Entry F.Num → Option (Close F.Num) × Bar F.Num → Action F.Num × Entry F.Num
  closed e (none, b) = (idle, record e { bar = b })
  closed e (some c, b) = (emit_bar c, record e { bar = b })

  -- `pb_eval_tick_state_entry` (src/patchbay/pb_forms.c) on its entry.
  unfoldable pub tick_entry : ℕ → Entry F.Num → Action F.Num × Entry F.Num
  tick_entry now e =
      let e' = evicted now e in
      if is_clock e.kind then tick_clock now e else closed e' (bar_time_tick F e'.kind e'.bar now)

-- `entry_deadline` (src/patchbay/pb_program.c)
pub ring_deadline : ℕ → ℕ → ℕ
ring_deadline window t =
    if leb t (size_max - window)
    then if ltb (t + window) size_max then t + window + 1 else t + window
    else size_max

unfoldable pub entry_deadline : {N : Type 0} → Entry N → Option ℕ
entry_deadline e =
    if is_ring e.kind && e.ring.time_window && ltb 0 e.ring.len
    then some (ring_deadline e.ring.window_ms (elem 0 e.ring.times e.ring.start))
    else if is_bar e.kind && e.bar.time_window && ltb 0 e.bar.count
    then some ((e.bar.window_start_ms + e.bar.window_ms) % 2 ^ 64)
    else if is_clock e.kind && e.clock.armed
    then some e.clock.deadline_ms
    else none
