-- ===== src/Tests/Forms.antt =====
-- Runs of the forms of src/patchbay, over the natural numbers in place of `double`.
use monoblok.Shared.{
  Option, ◌≤◌, ◌<◌, size_max, ℕ, ◌+◌, ◌-◌, ◌*◌, ◌/◌, ◌^◌, ◌≡◌, refl, sym, ◌∙◌, ◌≢◌, true, false,
  none, some, List, [], ◌∷◌, map, arith, All, ltb, leb, ◌==◌, codes,
}
use monoblok.Patchbay.Floats.{Floats}
use monoblok.Patchbay.Value.{Value, nil, string, number, boolean, EvalError}
use monoblok.Patchbay.Entry.{
  ring_kind, bar_kind, no_clock, clock_kind, sample, Ring, Bar, Entry, fresh_entry,
}
use monoblok.Patchbay.Ring.{ring_push_count, ring_evict_time, held, held_times}
use monoblok.Patchbay.Ring.Held.{IsValid, IsTimed, slide, ring_push_count-held}
use monoblok.Patchbay.Ring.Timed.{Evicts, leading_old, ring_evict_time-Evicts}
use monoblok.Patchbay.Gates.{hold_off_step, edge_step}
use monoblok.Patchbay.Gates.Runs.{
  ExactIntegers, run, passed, reference_hold_off, reference_edges, fresh, no_flag, run-hold_off,
  run-edge,
}
use monoblok.Patchbay.Gates.Squelch.{nothing}
use monoblok.Patchbay.Windows.{throttle_time}
use monoblok.Patchbay.Windows.History.{Ascending, no_times, next_time, reference_throttle}
use monoblok.Patchbay.Windows.Throttle.{Throttles, run-throttle}
use monoblok.Patchbay.Bars.Runs.{reference_bars, tick_run, tick_run-eq}
use monoblok.Patchbay.Bars.Times.{no_bar, reference_windows, time_run, time_run-eq}
use monoblok.Patchbay.Clocks.{tick_entry, Action, send, refuse}
use monoblok.Patchbay.Clocks.Due.{Due, clock_due}
use monoblok.Patchbay.Clocks.Progress.{tick_entry-Later}
use monoblok.Patchbay.Clocks.Deadlines.{InRules, next_clock_deadline, next_clock_deadline-least}
use monoblok.Patchbay.State.{State, state_slot}
use monoblok.Patchbay.State.Keys.{Slots, Once, state_slot-Slots}
use monoblok.Tests.Bytes.{granted}

-- Numbers that are integers, and a printer that writes nothing.
abbrev integers : Floats
integers = record {
  Num = ℕ;
  of_nat = λ n. n;
  to_nat = λ n. n;
  lt = ltb;
  le = leb;
  eq = λ a b. a == b;
  add = ◌+◌;
  sub = ◌-◌;
  mul = ◌*◌;
  div = ◌/◌;
  neg = λ n. n;
  fabs = λ n. n;
  floor = λ n. n;
  round = λ n. n;
  sqrt = λ n. n;
  pow = ◌^◌;
  strtod = λ s. none;
  print_g = λ p n. some [];
  print_f = λ p n. some [];
}

integers-ExactIntegers : ExactIntegers integers
integers-ExactIntegers = record {
  lt_exact = λ a b p q. refl;
  eq_exact = λ a b p q. refl;
  add_exact = λ a b p. refl;
  sub_exact = λ a b p q. refl;
}

abbrev new_entry : Entry ℕ
new_entry = fresh_entry 0 0 [] []

run-hold_off_example :
    run (λ t. hold_off_step integers 10 t (string [])) (5 ∷ 9 ∷ 15 ∷ 30 ∷ []) new_entry
    ≡ map (passed integers (string [])) (reference_hold_off 10 none (5 ∷ 9 ∷ 15 ∷ 30 ∷ []))
unfolding fresh_entry
run-hold_off_example =
    run-hold_off integers integers-ExactIntegers 10 (string []) (5 ∷ 9 ∷ 15 ∷ 30 ∷ []) none
      new_entry (fresh new_entry refl) (omega arith)
      (omega arith, (omega arith, (omega arith, (omega arith, tt))))

-- The second message comes too early.
held_off : reference_hold_off 10 none (5 ∷ 9 ∷ 15 ∷ 30 ∷ []) ≡ true ∷ false ∷ true ∷ true ∷ []
unfolding reference_hold_off monoblok.Patchbay.Gates.Runs.spaced
held_off = refl

run-edge_example :
    run (edge_step integers true) (false ∷ true ∷ true ∷ []) new_entry
    ≡ map (passed integers (boolean true)) (reference_edges true none (false ∷ true ∷ true ∷ []))
unfolding fresh_entry
run-edge_example =
    run-edge integers integers-ExactIntegers true (false ∷ true ∷ true ∷ []) none new_entry
      (no_flag new_entry refl)

abbrev some_values : List (Value ℕ)
some_values = number 1 ∷ number 1 ∷ string (codes "a") ∷ string (codes "a") ∷ []

abbrev no_ring : Ring ℕ
no_ring = new_entry.ring

new_entry-Throttles : Throttles integers granted granted 1 [] new_entry
unfolding fresh_entry held_times monoblok.Patchbay.Ring.ring_slice
new_entry-Throttles = record {
  timed = record {
    valid = record { within = omega arith; begins = omega arith; room = omega arith };
    times_room = omega arith;
  };
  times = refl;
  small = omega arith;
}

run-throttle_example :
    run (λ now. throttle_time integers granted granted 15 1 now nil) (10 ∷ 20 ∷ 30 ∷ []) new_entry
    ≡ map (passed integers nil) (reference_throttle 15 1 [] (10 ∷ 20 ∷ 30 ∷ []))
run-throttle_example =
    run-throttle integers granted granted 15 1 nil (10 ∷ 20 ∷ 30 ∷ []) [] new_entry (λ n. refl)
      (omega arith)
      (next_time (omega arith) (next_time (omega arith) (next_time (omega arith) no_times)))
      new_entry-Throttles

-- The second message comes within the window of the first, the third after it.
throttled_one : reference_throttle 15 1 [] (10 ∷ 20 ∷ 30 ∷ []) ≡ true ∷ false ∷ true ∷ []
unfolding reference_throttle monoblok.Patchbay.Windows.History.count_within
throttled_one = refl

abbrev tick_bar : Bar ℕ
tick_bar = record {
  first = 0;
  high = 0;
  low = 0;
  last_close = 0;
  count = 0;
  cap = 3;
  window_ms = 100;
  window_start_ms = 0;
  time_window = false;
}

tick_run-eq_example :
    tick_run integers tick_bar (4 ∷ 9 ∷ 2 ∷ 5 ∷ [])
    ≡ reference_bars integers 3 [] (4 ∷ 9 ∷ 2 ∷ 5 ∷ [])
tick_run-eq_example =
    tick_run-eq integers (4 ∷ 9 ∷ 2 ∷ 5 ∷ []) [] tick_bar
      (monoblok.Patchbay.Bars.Runs.nothing tick_bar refl) (omega arith) (omega arith)

time_run-eq_example :
    time_run integers tick_bar ((10, 4) ∷ (20, 9) ∷ (110, 2) ∷ [])
    ≡ reference_windows integers 100 [] 0 ((10, 4) ∷ (20, 9) ∷ (110, 2) ∷ [])
time_run-eq_example =
    time_run-eq integers ((10, 4) ∷ (20, 9) ∷ (110, 2) ∷ []) [] 0 tick_bar (omega arith)
      (no_bar 0 tick_bar refl) (omega arith)

abbrev sampled : Entry ℕ
sampled = record new_entry {
  kind = clock_kind;
  clock = record (new_entry.clock) {
    kind = sample;
    interval_ms = 50;
    deadline_ms = 100;
    armed = true;
  };
}

sampled-Due : Due sampled 100
sampled-Due = clock_due refl refl

sampled_sent : (tick_entry integers granted granted 100 sampled).0 ≡ send
unfolding tick_entry monoblok.Patchbay.Clocks.is_clock monoblok.Patchbay.Clocks.tick_clock
    monoblok.Patchbay.Clocks.tick_due
sampled_sent = refl

abbrev sends : Action ℕ
sends = send

send_not_refused : (error : EvalError) → sends ≢ refuse error
send_not_refused error e = cc

sampled_no_ring : sampled.kind ≢ ring_kind
sampled_no_ring e = cc

sampled_no_bar : sampled.kind ≢ bar_kind
sampled_no_bar e = cc

sampled_clock : sampled.clock.kind ≢ no_clock
sampled_clock e = cc

-- After the tick it is due again.
sampled_after-Due : Due (tick_entry integers granted granted 100 sampled).1 150
unfolding tick_entry monoblok.Patchbay.Clocks.is_clock monoblok.Patchbay.Clocks.tick_clock
    monoblok.Patchbay.Clocks.tick_due monoblok.Patchbay.Clocks.advance
sampled_after-Due = clock_due refl refl

tick_entry-Later_example : 100 < 150
tick_entry-Later_example =
    tick_entry-Later integers granted granted sampled 100 (λ k. absurd (sampled_no_ring k))
      (λ k. absurd (sampled_no_bar k)) (λ _. (sampled_clock, (omega arith, omega arith)))
      (omega arith) sampled-Due (λ error e. send_not_refused error (sym sampled_sent ∙ e)) 150
      sampled_after-Due

-- A ring of two values, both of them held.
abbrev full_ring : Ring ℕ
full_ring = record {
  values = 7 ∷ 8 ∷ [];
  times = 10 ∷ 20 ∷ [];
  cap = 2;
  len = 2;
  start = 1;
  sum = 15;
  window_ms = 50;
  time_window = true;
}

full_ring-IsValid : IsValid integers full_ring
full_ring-IsValid = record { within = omega arith; begins = omega arith; room = omega arith }

full_ring-IsTimed : IsTimed integers full_ring
full_ring-IsTimed = record { valid = full_ring-IsValid; times_room = omega arith }

ring_push_count-held_example :
    IsValid integers (ring_push_count integers full_ring 9)
    × (held integers (ring_push_count integers full_ring 9) ≡ slide 2 (held integers full_ring) 9)
ring_push_count-held_example =
    ring_push_count-held integers full_ring 9 full_ring-IsValid (omega arith)

ring_evict_time-Evicts_example :
    Evicts integers full_ring
      (leading_old 15 (held_times integers full_ring))
      (ring_evict_time integers full_ring 15)
ring_evict_time-Evicts_example = ring_evict_time-Evicts integers full_ring 15 full_ring-IsTimed

-- Two rules; the second has an entry with a deadline.
abbrev two_rules : List (List (Entry ℕ))
two_rules = (new_entry ∷ []) ∷ (sampled ∷ []) ∷ []

two_rules_bounds : All (All (λ e. e.ring.window_ms ≤ size_max)) two_rules
unfolding fresh_entry
two_rules_bounds = ((omega arith, tt), ((omega arith, tt), tt))

next_clock_deadline-least_example :
    ((e : Entry ℕ) (d : ℕ)
      → InRules e two_rules
      → Due e d
      → (d' : ℕ) × ((next_clock_deadline true two_rules ≡ some d') × (d' ≤ d)))
    × ((d : ℕ)
        → next_clock_deadline true two_rules ≡ some d
        → (e : Entry ℕ) × (InRules e two_rules × Due e d))
next_clock_deadline-least_example = next_clock_deadline-least two_rules two_rules_bounds

abbrev one_entry : State ℕ
one_entry = record { items = fresh_entry 0 3 (codes "delta") (codes "a") ∷ []; cap = 8; index = [] }

abbrev delta_slot : Option ℕ × State ℕ
delta_slot = state_slot 0 granted one_entry 3 (codes "delta") (codes "a")

state_slot-Slots_example :
    Slots 3 (codes "delta") (codes "a") one_entry delta_slot
    × Once 3 (codes "delta") (codes "a") one_entry delta_slot
state_slot-Slots_example = state_slot-Slots 3 (codes "delta") (codes "a") 0 granted one_entry
