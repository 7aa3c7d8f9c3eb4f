-- ===== src/Patchbay/Bars.antt =====
-- src/patchbay/pb_form_bar.c: bars of open, high, low and close, over a number of values or a window
-- in time.
pub mod Runs
pub mod Times
use monoblok.Shared.{
  ℕ, zero, suc, ◌+◌, ◌-◌, ◌*◌, ◌/◌, ◌%◌, ◌^◌, ◌≤◌, ◌<◌, min, ◌≡◌, refl, sym, ap, ap₂, subst, ◌∙◌,
  ◌≢◌, ◌↔◌, ◌⊎◌, inl, inr, Bool, true, false, not, ◌&&◌, ◌||◌, Option, none, some, List, [], ◌∷◌,
  ◌++◌, map, append-nil, append_assoc, arith, Bytes, length, get_elem?, set, take, drop, replicate,
  All, ltb, leb, ◌==◌, if◌then◌else◌, size_max, Bool-cases, Option-cases, &&_split, &&_both, ==_iff,
  codes, ltb→lt, ltb→le, lt→ltb, le→ltb, leb→le, le→leb, length-append, length-drop, length-take,
  take-append, drop-append,
}
use monoblok.Slice.{slice_eq}
use monoblok.Patchbay.Floats.{Floats, positive_whole}
use monoblok.Patchbay.Value.{
  Value, Values, nil, keyword, none_left, cons, EvalError, Result, ok, fail, oom, type_mismatch,
  arity_mismatch, publish_failed, as_number, print_short,
}
use monoblok.Patchbay.Entry.{Kind, bar_kind, Bar, Entry}
use monoblok.Patchbay.Gates.{is_empty}
use monoblok.Patchbay.Windows.{same_mode}
use monoblok.Patchbay.Slot.{Context, Machine, note_suppressed, put_entry, beside}
use monoblok.Patchbay.State.{State, state_slot}

-- `bar_close`
pub record Close (N : Type 0) : Type 0 where
  pub first : N
  pub high : N
  pub low : N
  pub last : N

unfoldable pub is_bar : Kind → Bool
is_bar bar_kind = true
is_bar _ = false

module _ (F : Floats) where
  -- `bar_open = bar_high = bar_low = x; bar_count = 1;`
  pub bar_start : Bar F.Num → F.Num → Bar F.Num
  bar_start b x = record b { first = x; high = x; low = x; count = 1 }

  -- `if (x > bar_high) …; if (x < bar_low) …; bar_count += 1;`, on 32 bits.
  pub bar_extend : Bar F.Num → F.Num → Bar F.Num
  bar_extend b x = record b {
    high = if F.lt b.high x then x else b.high;
    low = if F.lt x b.low then x else b.low;
    count = (b.count + 1) % 2 ^ 32;
  }

  pub close_of : Bar F.Num → F.Num → Close F.Num
  close_of b x = record { first = b.first; high = b.high; low = b.low; last = x }

  -- `bar_tick_update`
  pub bar_tick_update : Bar F.Num → F.Num → Option (Close F.Num) × Bar F.Num
  bar_tick_update b x =
      let more = if b.count == 0 then bar_start b x else bar_extend b x in
      if ltb more.count more.cap
      then (none, more)
      else (some (close_of more x), record more { count = 0 })

  -- `(now / bar_window_ms) * bar_window_ms`
  pub aligned : ℕ → ℕ → ℕ
  aligned window now = now / window * window

  -- `bar_time_update`
  pub bar_time_update : Bar F.Num → ℕ → F.Num → Option (Close F.Num) × Bar F.Num
  bar_time_update b now x =
      let begun : Bar F.Num = record (bar_start b x) {
        window_start_ms = aligned b.window_ms now;
        last_close = x;
      } in
      if b.count == 0
      then (none, begun)
      else if not (b.window_start_ms == aligned b.window_ms now)
      then (some (close_of b b.last_close), begun)
      else (none, record (bar_extend b x) { last_close = x })

  -- `bar_time_tick` of an entry of that kind. The difference of the times is one on 64 bits.
  unfoldable pub bar_time_tick : Kind → Bar F.Num → ℕ → Option (Close F.Num) × Bar F.Num
  bar_time_tick kind b now =
      if not (is_bar kind) || not b.time_window || b.count == 0
      then (none, b)
      else if ltb ((now + (2 ^ 64 - b.window_start_ms)) % 2 ^ 64) b.window_ms
      then (none, b)
      else (some (close_of b b.last_close), record b { count = 0; window_start_ms = 0 })

  -- What `call_bar` reads of its arguments: the window, or the count, and the value.
  pub data BarArgs : Type 0 where
    refused : EvalError → BarArgs
    by_count : ℕ → F.Num → BarArgs
    by_time : ℕ → F.Num → BarArgs

  pub count_args : Option F.Num → Option F.Num → BarArgs
  count_args none x = refused type_mismatch
  count_args (some n) none = refused type_mismatch
  count_args (some n) (some x) =
      if positive_whole F n && not (F.lt (F.of_nat (2 ^ 32 - 1)) n)
      then by_count (F.to_nat n) x
      else refused type_mismatch

  pub time_args : Option F.Num → Option F.Num → BarArgs
  time_args none x = refused type_mismatch
  time_args (some ms) none = refused type_mismatch
  time_args (some ms) (some x) =
      if positive_whole F ms then by_time (F.to_nat ms) x else refused type_mismatch

  pub bar_args : Values F.Num → BarArgs
  bar_args (cons n (cons v none_left)) = count_args (as_number F n) (as_number F v)
  bar_args (cons (keyword k) (cons ms (cons v none_left))) =
      if slice_eq k (codes "ms")
      then time_args (as_number F ms) (as_number F v)
      else refused arity_mismatch
  bar_args _ = refused arity_mismatch

  -- The entry once it is a bar, where it was empty.
  pub bar_entry : Bool → ℕ → ℕ → Entry F.Num → Entry F.Num
  bar_entry time_window count ms e =
      if is_empty e.kind
      then record e {
        kind = bar_kind;
        bar = record (e.bar) { time_window = time_window; cap = count; window_ms = ms };
      }
      else e

  pub bar_update : Bool → ℕ → F.Num → Bar F.Num → Option (Close F.Num) × Bar F.Num
  bar_update true now x b = bar_time_update b now x
  bar_update false now x b = bar_tick_update b x

-- `publish` changes a world of its own and, where the rule is reentrant, the state of the rule.
module _ (F : Floats) (scratch : ℕ → Bool) (ctx : Context) {P : Type 0}
    (publish : P → Bytes → Bytes → Bool × P) where
  pub send_field : Bytes → Option Bytes → P → Bool × P
  send_field name none w = (false, w)
  send_field name (some text) w =
      if scratch (length text)
      then publish w (ctx.subject ++ codes ".bar." ++ name) text
      else (false, w)

  pub emit_one_bar_field : Bytes → F.Num → P → Bool × P
  emit_one_bar_field name x w =
      if scratch (length ctx.subject + 5 + length name)
      then send_field name (print_short F 17 x) w
      else (false, w)

  -- The fields from one on; the first that cannot be sent is the last that is tried.
  pub emit_each : List (Bytes × F.Num) → P → Result F.Num × P
  emit_each [] w = (ok nil, w)
  emit_each ((name, x) ∷ fields) w =
      let (sent, w') = emit_one_bar_field name x w in
      let rest = emit_each fields w' in if sent then rest else (fail publish_failed, w')

  -- `emit_bar_fields`
  pub emit_bar_fields : Close F.Num → P → Result F.Num × P
  emit_bar_fields c w =
      emit_each
        ((codes "open", c.first)
          ∷ (codes "high", c.high)
          ∷ (codes "low", c.low)
          ∷ (codes "close", c.last)
          ∷ [])
        w

module _ (F : Floats) (alloc scratch : ℕ → Bool) (ctx : Context) {W : Type 0}
    (publish : (Machine F.Num × W) → Bytes → Bytes → Bool × (Machine F.Num × W)) where
  pub store_bar :
      ℕ
      → Entry F.Num
      → Machine F.Num
      → W
      → Option (Close F.Num) × Bar F.Num
      → Result F.Num × Machine F.Num × W
  store_bar i e m w (none, b) = (ok nil, note_suppressed (put_entry m i (record e { bar = b })), w)
  store_bar i e m w (some c, b) =
      beside (emit_bar_fields F scratch ctx publish c (put_entry m i (record e { bar = b }), w))

  pub bar_at :
      Bool
      → ℕ
      → ℕ
      → F.Num
      → Machine F.Num
      → W
      → Option ℕ × State F.Num
      → Result F.Num × Machine F.Num × W
  bar_at time_window count ms x m w (none, s) = (fail oom, record m { state = s }, w)
  bar_at time_window count ms x m w (some i, s) = elim (get_elem? s.items i) [
    | none ↦ (fail oom, record m { state = s }, w)
    | some e₀ ↦
        let e = bar_entry F time_window count ms e₀ in
        let stored : Machine F.Num = record m { state = s } in
        if is_bar e.kind && same_mode e.bar.time_window time_window
        then store_bar i e stored w (bar_update F time_window ctx.now_ms x e.bar)
        else (fail type_mismatch, stored, w)
  ]

  pub bar_on : Bool → Bytes → ℕ → ℕ → F.Num → Machine F.Num → W → Result F.Num × Machine F.Num × W
  bar_on time_window op count ms x m w =
      bar_at time_window count ms x m w
        (state_slot (F.of_nat 0) alloc m.state ctx.rule_id op ctx.subject)

  -- `call_bar`
  pub bar_from : BarArgs F → Machine F.Num → W → Result F.Num × Machine F.Num × W
  bar_from (refused error) m w = (fail error, m, w)
  bar_from (by_count n x) m w = bar_on false (codes "bar/t") n 0 x m w
  bar_from (by_time ms x) m w = bar_on true (codes "bar/m") 0 ms x m w

  pub call_bar : Values F.Num → Machine F.Num → W → Result F.Num × Machine F.Num × W
  call_bar args m w = bar_from (bar_args F args) m w
