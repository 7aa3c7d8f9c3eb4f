-- ===== src/Patchbay/Clocks/Progress.antt =====
-- The ticks of entries that are due (src/patchbay/pb_forms.c, src/patchbay/pb_form_clocks.c).
use monoblok.Shared.{
  ℕ, ◌+◌, ◌-◌, ◌%◌, ◌^◌, ◌≤◌, ◌<◌, ◌≡◌, refl, sym, ap, subst, ◌≢◌, inl, inr, Bool, false, not, ◌&&◌,
  ◌||◌, Option, none, some, arith, Bytes, length, ltb, ◌==◌, if◌then◌else◌, size_max, Bool-cases,
  &&_split, ltb→lt, le→ltb, if-both,
}
use native.Mathlib.Nat.{mod-eq_of_lt}
use monoblok.Patchbay.Floats.{Floats}
use monoblok.Patchbay.Value.{EvalError, Result, ok, fail, oom, coerce_payload}
use monoblok.Patchbay.Entry.{
  ring_kind, bar_kind, clock_kind, ClockKind, no_clock, on_silence, dropout, debounce, sample,
  aggregate, Entry, set_bytes,
}
use monoblok.Patchbay.Ring.{elem, ring_evict_time}
use monoblok.Patchbay.Ring.Held.{IsTimed}
use monoblok.Patchbay.Ring.Timed.{first_time-ring_evict_time, ring_evict_time-Evicts}
use monoblok.Patchbay.Windows.{is_ring}
use monoblok.Patchbay.Bars.{bar_time_tick, is_bar}
use monoblok.Patchbay.Clocks.Due.{
  Due, entry_deadline_of, window_due, window_last, bar_due, clock_due,
}
use monoblok.Patchbay.Clocks.{
  is_clock, Action, refuse, aggregate_payload, aggregate_tick, metric_result, advance, disarm,
  emptied, tick_due, tick_clock, evicted, closed, tick_entry, ring_deadline, entry_deadline,
}

-- No deadline, or one after `now`.
pub data Later : ℕ → Option ℕ → Type 0 where
  never : {now : ℕ} → Later now none
  after : {now d : ℕ} → now < d → Later now (some d)

module _ (F : Floats) (alloc scratch : ℕ → Bool) where
  set_bytes-clock : (e : Entry F.Num) (s : Bytes) → (set_bytes alloc e s).1.clock ≡ e.clock
  unfolding set_bytes
  set_bytes-clock e s =
      if-both {A = Bool × Entry F.Num} (λ o. o.1.clock ≡ e.clock) (ltb e.bytes_cap (length s))
        (λ _.
          if-both {A = Bool × Entry F.Num} (λ o. o.1.clock ≡ e.clock) (alloc (length s)) (λ _. refl)
            (λ _. refl))
        (λ _. refl)

  -- An interval later.
  advance-Later :
      (e : Entry F.Num) (d i : ℕ)
      → e.kind ≡ clock_kind
      → e.clock.deadline_ms ≡ d
      → e.clock.interval_ms ≡ i
      → 0 < i
      → d + i < 2 ^ 64
      → Later d (entry_deadline (advance F alloc scratch e))
  unfolding advance entry_deadline is_ring is_bar is_clock
  advance-Later e d i k p q z h =
      rw (k, p, q)
        (if-both (Later d) e.clock.armed
          (λ _. after (omega (arith, mod-eq_of_lt {n = d + i} {m = 2 ^ 64} h))) (λ _. never))

  abbrev NotRefused : Action F.Num → Type 0
  NotRefused a = (error : EvalError) → a ≢ refuse error

  aggregate_payload-Later :
      (o : Option Bytes) (e : Entry F.Num)
      → 0 < e.clock.interval_ms
      → e.clock.deadline_ms + e.clock.interval_ms < 2 ^ 64
      → NotRefused (aggregate_payload F alloc scratch o e).0
      → Later e.clock.deadline_ms (entry_deadline (aggregate_payload F alloc scratch o e).1)
  unfolding aggregate_payload emptied
  aggregate_payload-Later none e z h n = absurd (n oom refl)
  aggregate_payload-Later (some s) e z h n =
      let (kept, e') = set_bytes alloc e s in
      let same = set_bytes-clock e s in
      elim (Bool-cases kept) [
        | inl c ↦ rw c (
            advance-Later (emptied F alloc scratch e') e.clock.deadline_ms e.clock.interval_ms refl
              (ap (λ k. k.deadline_ms) same) (ap (λ k. k.interval_ms) same) z h)
        | inr c ↦ absurd (n oom (rw c refl))
      ]

  aggregate_tick-Later :
      (r : Result F.Num) (e : Entry F.Num)
      → 0 < e.clock.interval_ms
      → e.clock.deadline_ms + e.clock.interval_ms < 2 ^ 64
      → NotRefused (aggregate_tick F alloc scratch r e).0
      → Later e.clock.deadline_ms (entry_deadline (aggregate_tick F alloc scratch r e).1)
  unfolding aggregate_tick
  aggregate_tick-Later (fail error) e z h n = absurd (n error refl)
  aggregate_tick-Later (ok v) e z h n = aggregate_payload-Later (coerce_payload F scratch v) e z h n

  tick_due-Later :
      (k : ClockKind) (e : Entry F.Num)
      → k ≢ no_clock
      → e.kind ≡ clock_kind
      → 0 < e.clock.interval_ms
      → e.clock.deadline_ms + e.clock.interval_ms < 2 ^ 64
      → NotRefused (tick_due F alloc scratch k e).0
      → Later e.clock.deadline_ms (entry_deadline (tick_due F alloc scratch k e).1)
  unfolding tick_due disarm entry_deadline is_ring is_bar is_clock
  tick_due-Later no_clock e c k z h n = absurd (c refl)
  tick_due-Later on_silence e c k z h n = rw k never
  tick_due-Later dropout e c k z h n = rw k never
  tick_due-Later debounce e c k z h n = rw k never
  tick_due-Later sample e c k z h n =
      advance-Later e e.clock.deadline_ms e.clock.interval_ms k refl refl z h
  tick_due-Later aggregate e c k z h n =
      if-both {A = Action F.Num × Entry F.Num}
        (λ o. NotRefused o.0 → Later e.clock.deadline_ms (entry_deadline o.1)) (e.ring.len == 0)
        (λ _ _. advance-Later e e.clock.deadline_ms e.clock.interval_ms k refl refl z h)
        (λ _ m. aggregate_tick-Later (metric_result F alloc scratch e.clock.metric e) e z h m) n

  -- The deadline of a window with a first time that is not before `now - window`.
  ring_deadline-later :
      (window t now t' : ℕ)
      → ring_deadline window t ≡ now
      → now < size_max
      → (if ltb window now then now - window else 0) ≤ t'
      → now < ring_deadline window t'
  unfolding ring_deadline
  ring_deadline-later window t now t' e n h = ground arith

  clock_tick-Later :
      (e : Entry F.Num) (now : ℕ)
      → e.kind ≡ clock_kind
      → e.clock.kind ≢ no_clock
      → 0 < e.clock.interval_ms
      → e.clock.deadline_ms + e.clock.interval_ms < 2 ^ 64
      → entry_deadline e ≡ some now
      → NotRefused (tick_clock F alloc scratch now e).0
      → Later now (entry_deadline (tick_clock F alloc scratch now e).1)
  unfolding tick_clock entry_deadline is_ring is_bar is_clock
  clock_tick-Later e now k c z h d n = elim (Bool-cases e.clock.armed) [
    | inl a ↦
        let due : e.clock.deadline_ms ≡ now = ground (arith, (rw (k, a) at d)) in
        if-both {A = Action F.Num × Entry F.Num}
          (λ o. NotRefused o.0 → Later now (entry_deadline o.1))
          (not e.clock.armed || ltb now e.clock.deadline_ms) (λ early. absurd (ground arith))
          (λ _ m.
            subst (λ t. Later t (entry_deadline (tick_due F alloc scratch e.clock.kind e).1)) due
              (tick_due-Later e.clock.kind e c k z h m))
          n
    | inr a ↦ cc (rw (k, a) at d)
  ]

  -- The time since the start of a window is its length when it is due, also past 2^64.
  elapsed :
      (start window now : ℕ)
      → start < 2 ^ 64
      → window < 2 ^ 64
      → (start + window) % 2 ^ 64 ≡ now
      → window ≤ (now + (2 ^ 64 - start)) % 2 ^ 64
  elapsed start window now s w e = omega arith

  bar_tick-Later :
      (e : Entry F.Num) (now : ℕ)
      → e.kind ≡ bar_kind
      → e.bar.window_start_ms < 2 ^ 64
      → e.bar.window_ms < 2 ^ 64
      → entry_deadline e ≡ some now
      → Later now (entry_deadline (closed F alloc scratch e (bar_time_tick F e.kind e.bar now)).1)
  unfolding bar_time_tick closed entry_deadline is_ring is_bar is_clock
  bar_tick-Later e now k s w d = elim (Bool-cases (e.bar.time_window && ltb 0 e.bar.count)) [
    | inl a ↦
        let (t, open_bar) = &&_split e.bar.time_window (ltb 0 e.bar.count) a in
        let due : (e.bar.window_start_ms + e.bar.window_ms) % 2 ^ 64 ≡ now =
          ground (arith, (rw (k, t, open_bar) at d)) in
        let wide : ltb ((now + (2 ^ 64 - e.bar.window_start_ms)) % 2 ^ 64) e.bar.window_ms ≡ false =
          le→ltb ((now + (2 ^ 64 - e.bar.window_start_ms)) % 2 ^ 64) e.bar.window_ms
            (omega arith) in
        let full : (e.bar.count == 0) ≡ false = ground arith in rw (k, t, full, wide) never
    | inr a ↦ cc (rw (k, a) at d)
  ]

  window_tick-Later :
      (e : Entry F.Num) (now : ℕ)
      → e.kind ≡ ring_kind
      → IsTimed F e.ring
      → now < size_max
      → entry_deadline e ≡ some now
      → Later now (entry_deadline (evicted F alloc scratch now e))
  unfolding evicted entry_deadline is_ring is_bar is_clock
  window_tick-Later e now k v b d =
      let cutoff = if ltb e.ring.window_ms now then now - e.ring.window_ms else 0 in
      let q = ring_evict_time F e.ring cutoff in
      let ev = ring_evict_time-Evicts F e.ring cutoff v in
      if-both {A = Entry F.Num} (λ x. Later now (entry_deadline x))
        (is_ring e.kind && e.ring.time_window && ltb 0 e.ring.len)
        (λ full.
          let due : ring_deadline e.ring.window_ms (elem 0 e.ring.times e.ring.start) ≡ now =
            ground (arith, (rw full at d)) in
          if-both (Later now) (is_ring e.kind && q.time_window && ltb 0 q.len)
            (λ left.
              let (_, some_left) = &&_split (is_ring e.kind && q.time_window) (ltb 0 q.len) left in
              let first = first_time-ring_evict_time F e.ring cutoff v (ltb→lt 0 q.len some_left) in
              let later =
                ring_deadline-later e.ring.window_ms (elem 0 e.ring.times e.ring.start) now
                  (elem 0 q.times q.start) due b first in
              after {d = ring_deadline q.window_ms (elem 0 q.times q.start)} (
                omega (
                  arith,
                  later,
                  ap (λ w. ring_deadline w (elem 0 q.times q.start)) ev.same_window.0,
                )))
            (λ _. rw k never))
        (λ other. cc (rw (other, k) at d))

  evicted_other :
      (e : Entry F.Num) (now : ℕ) → is_ring e.kind ≡ false → evicted F alloc scratch now e ≡ e
  unfolding evicted
  evicted_other e now h = rw h refl

  evicted_kind : (e : Entry F.Num) (now : ℕ) → (evicted F alloc scratch now e).kind ≡ e.kind
  unfolding evicted
  evicted_kind e now =
      if-both {A = Entry F.Num} (λ x. x.kind ≡ e.kind)
        (is_ring e.kind && e.ring.time_window && ltb 0 e.ring.len) (λ _. refl) (λ _. refl)

  closed_other :
      (x : Entry F.Num) (now : ℕ)
      → is_bar x.kind ≡ false
      → (closed F alloc scratch x (bar_time_tick F x.kind x.bar now)).1 ≡ x
  unfolding closed bar_time_tick
  closed_other x now h = rw h refl

  tick_clock_kind :
      (e : Entry F.Num) (now : ℕ)
      → e.kind ≡ clock_kind
      → tick_entry F alloc scratch now e ≡ tick_clock F alloc scratch now e
  unfolding tick_entry is_clock
  tick_clock_kind e now k = rw (k, tick_entry) refl

  tick_bar_kind :
      (e : Entry F.Num) (now : ℕ)
      → e.kind ≡ bar_kind
      → tick_entry F alloc scratch now e
        ≡ closed F alloc scratch e (bar_time_tick F e.kind e.bar now)
  unfolding tick_entry is_clock is_ring
  tick_bar_kind e now k =
      let no_clock_kind : is_clock e.kind ≡ false = rw k refl in
      rw (no_clock_kind, tick_entry)
        (ap (λ x. closed F alloc scratch x (bar_time_tick F x.kind x.bar now))
          (evicted_other e now (rw k refl)))

  tick_ring_kind :
      (e : Entry F.Num) (now : ℕ)
      → e.kind ≡ ring_kind
      → (tick_entry F alloc scratch now e).1 ≡ evicted F alloc scratch now e
  unfolding tick_entry is_clock is_bar
  tick_ring_kind e now k =
      let x = evicted F alloc scratch now e in
      let no_clock_kind : is_clock e.kind ≡ false = rw k refl in
      rw (no_clock_kind, tick_entry) (closed_other x now (rw (evicted_kind e now, k) refl))

  window_entry-Later :
      (e : Entry F.Num) (now : ℕ)
      → IsTimed F e.ring
      → now < size_max
      → e.kind ≡ ring_kind
      → entry_deadline e ≡ some now
      → Later now (entry_deadline (tick_entry F alloc scratch now e).1)
  window_entry-Later e now v small k q =
      subst (λ x. Later now (entry_deadline x)) (sym (tick_ring_kind e now k))
        (window_tick-Later e now k v small q)

  tick_entry-deadline :
      (e : Entry F.Num) (now : ℕ)
      → (e.kind ≡ ring_kind → IsTimed F e.ring)
      → (e.kind ≡ bar_kind → (e.bar.window_start_ms < 2 ^ 64) × (e.bar.window_ms < 2 ^ 64))
      → (e.kind ≡ clock_kind
          → (e.clock.kind ≢ no_clock)
            × ((0 < e.clock.interval_ms) × (now + e.clock.interval_ms < 2 ^ 64)))
      → now < size_max
      → Due e now
      → NotRefused (tick_entry F alloc scratch now e).0
      → Later now (entry_deadline (tick_entry F alloc scratch now e).1)
  tick_entry-deadline e now r b c small (window_due k w l h) m =
      window_entry-Later e now (r k) small k (entry_deadline_of e now (window_due k w l h))
  tick_entry-deadline e now r b c small (window_last k w l h g) m =
      window_entry-Later e now (r k) small k (entry_deadline_of e now (window_last k w l h g))
  tick_entry-deadline e now r b c small (bar_due k w l) m =
      subst (λ o. Later now (entry_deadline o.1)) (sym (tick_bar_kind e now k))
        (bar_tick-Later e now k (b k).0 (b k).1 (entry_deadline_of e now (bar_due k w l)))
  tick_entry-deadline e now r b c small (clock_due k a) m =
      subst (λ o. NotRefused o.0 → Later now (entry_deadline o.1)) (sym (tick_clock_kind e now k))
        (clock_tick-Later e now k (c k).0 (c k).1.0 (c k).1.1
          (entry_deadline_of e now (clock_due k a)))
        m

  -- An entry that is due at `now`, before 2^64 - 1, is due later after its tick at `now`, if it still
  -- is, unless the tick is refused, as that of an aggregate is where memory is short. The ring of a
  -- window is valid; the window of a bar and its start are 64-bit numbers; a clock is that of one of
  -- the clocked forms, its interval is not 0, and `now` and the interval sum to less than 2^64.
  pub tick_entry-Later :
      (e : Entry F.Num) (now : ℕ)
      → (e.kind ≡ ring_kind → IsTimed F e.ring)
      → (e.kind ≡ bar_kind → (e.bar.window_start_ms < 2 ^ 64) × (e.bar.window_ms < 2 ^ 64))
      → (e.kind ≡ clock_kind
          → (e.clock.kind ≢ no_clock)
            × ((0 < e.clock.interval_ms) × (now + e.clock.interval_ms < 2 ^ 64)))
      → now < size_max
      → Due e now
      → NotRefused (tick_entry F alloc scratch now e).0
      → (d : ℕ) → Due (tick_entry F alloc scratch now e).1 d
      → now < d
  tick_entry-Later e now r b c small due n d after_tick = later_after now d (
      subst (Later now) (entry_deadline_of (tick_entry F alloc scratch now e).1 d after_tick)
        (tick_entry-deadline e now r b c small due n))
    where
      later_after : (now d : ℕ) → Later now (some d) → now < d
      later_after now d (after p) = p
