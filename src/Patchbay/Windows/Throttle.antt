-- ===== src/Patchbay/Windows/Throttle.antt =====
-- `throttle` with a window in time (src/patchbay/pb_form_windows.c), over a run of messages.
use monoblok.Shared.{
  ℕ, ◌+◌, ◌-◌, ◌*◌, ◌^◌, ◌≤◌, ◌≡◌, refl, sym, ap, ap₂, ◌∙◌, inl, inr, Bool, true, not, List, [],
  ◌∷◌, ◌++◌, map, arith, length, drop, ltb, leb, if◌then◌else◌, Bool-cases, ltb→lt,
}
use monoblok.Patchbay.Floats.{Floats}
use monoblok.Patchbay.Value.{Value}
use monoblok.Patchbay.Entry.{Entry}
use monoblok.Patchbay.Slot.{Outcome, passes, suppresses}
use monoblok.Patchbay.Ring.{ring_evict_time, held_times}
use monoblok.Patchbay.Ring.Held.{IsTimed, length-held_times}
use monoblok.Patchbay.Ring.Timed.{leading_old, ring_evict_time-Evicts}
use monoblok.Patchbay.Ring.Pushed.{ring_push_time-PushResult}
use monoblok.Patchbay.Windows.{throttle_time}
use monoblok.Patchbay.Windows.History.{
  cutoff_at, recent, allowed, throttled, ring_throttle, reference_throttle, Ascending,
  Ascending-suffix, ring_throttle-eq,
}
use monoblok.Patchbay.Gates.Runs.{run, passed}

module _ (F : Floats) (alloc scratch : ℕ → Bool) where
  -- The entry of a throttle that has let through the messages at the times `ts`.
  pub record Throttles (max : ℕ) (ts : List ℕ) (e : Entry F.Num) : Type 0 where
    pub timed : IsTimed F e.ring
    pub times : held_times F e.ring ≡ ts
    pub small : e.ring.cap ≤ 16 + 2 * max

  abbrev Step : ℕ → ℕ → ℕ → List ℕ → Value F.Num → Outcome F.Num → Type 0
  Step ms max now ts v o =
      (o.result ≡ passed F v (allowed ms max now ts))
      × Throttles max (throttled ms max now ts) o.entry

  throttle_time-Step :
      (ms max now : ℕ) (ts : List ℕ) (v : Value F.Num) (e : Entry F.Num)
      → ((n : ℕ) → alloc n ≡ true)
      → max ≤ 2 ^ 58
      → Throttles max ts e
      → Step ms max now ts v (throttle_time F alloc scratch ms max now v e)
  unfolding throttle_time passed allowed throttled recent cutoff_at passes suppresses
  throttle_time-Step ms max now ts v e room b h =
      let cutoff = if ltb ms now then now - ms else 0 in
      let q = ring_evict_time F e.ring cutoff in
      let ev = ring_evict_time-Evicts F e.ring cutoff h.timed in
      let same : held_times F q ≡ recent ms now ts =
        ev.times ∙ ap (λ xs. drop (leading_old cutoff xs) xs) h.times in
      let count : q.len ≡ length (recent ms now ts) =
        sym (length-held_times F q) ∙ ap length same in
      let small : q.cap ≤ 16 + 2 * max = omega (arith, ev.same_cap, h.small) in
      let p = ring_push_time-PushResult F alloc q (F.of_nat 1) now ev.timed (omega arith) in
      let given = p.given room in
      let more = p.pushed given in
      elim (Bool-cases (ltb (length (recent ms now ts)) max)) [
        | inl c ↦
            rw (full max q.len (recent ms now ts) count ∙ ap not c, given, c)
              (
                refl,
                record {
                  timed = more.timed;
                  times = more.times ∙ ap (λ xs. xs ++ now ∷ []) same;
                  small =
                      p.bounded (16 + 2 * max) small
                        (omega (arith, ltb→lt (length (recent ms now ts)) max c));
                },
              )
        | inr c ↦
            rw (full max q.len (recent ms now ts) count ∙ ap not c, c)
              (refl, record { timed = ev.timed; times = same; small = small })
      ]
    where
      full : (max len : ℕ) (ts : List ℕ) → len ≡ length ts → leb max len ≡ not (ltb (length ts) max)
      full max len ts e = ground arith

  run-ring_throttle :
      (ms max : ℕ) (v : Value F.Num) (nows ts : List ℕ) (e : Entry F.Num)
      → ((n : ℕ) → alloc n ≡ true)
      → max ≤ 2 ^ 58
      → Throttles max ts e
      → run (λ now. throttle_time F alloc scratch ms max now v) nows e
        ≡ map (passed F v) (ring_throttle ms max ts nows)
  unfolding run ring_throttle
  run-ring_throttle ms max v [] ts e room b h = refl
  run-ring_throttle ms max v (now ∷ nows) ts e room b h =
      let (r, k) = throttle_time-Step ms max now ts v e room b h in
      ap₂ ◌∷◌ r (
        run-ring_throttle ms max v nows (throttled ms max now ts)
          (throttle_time F alloc scratch ms max now v e).entry room b k)

  -- Where the heap has room, the maximum is at most 2^58 and no time is before the one that precedes
  -- it, `throttle` with a window of `ms` milliseconds lets through, of a run of messages at the times
  -- `nows`, exactly those before which fewer than the maximum passed at most `ms` before. `ts` are the
  -- times of those that passed before the run, which the valid ring of the entry holds in at most 16
  -- places and twice the maximum.
  pub run-throttle :
      (ms max : ℕ) (v : Value F.Num) (nows ts : List ℕ) (e : Entry F.Num)
      → ((n : ℕ) → alloc n ≡ true)
      → max ≤ 2 ^ 58
      → Ascending 0 (ts ++ nows)
      → Throttles max ts e
      → run (λ now. throttle_time F alloc scratch ms max now v) nows e
        ≡ map (passed F v) (reference_throttle ms max ts nows)
  run-throttle ms max v nows ts e room b a h =
      run-ring_throttle ms max v nows ts e room b h
      ∙ ap (map (passed F v))
          (ring_throttle-eq ms max 0 [] ts nows tt (Ascending-suffix ts nows a) a)
