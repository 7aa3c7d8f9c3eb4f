-- ===== src/Patchbay/Windows.antt =====
-- src/patchbay/pb_form_windows.c: the forms over a window of values.
pub mod History
pub mod Calls
pub mod Throttle
use monoblok.Shared.{
  ℕ, zero, suc, ◌+◌, ◌-◌, ◌*◌, ◌/◌, ◌%◌, ◌^◌, ◌≤◌, ◌<◌, min, ◌≡◌, refl, sym, ap, ap₂, subst, ◌∙◌,
  ◌≢◌, ◌↔◌, ◌⊎◌, inl, inr, Bool, true, false, not, ◌&&◌, ◌||◌, Option, none, some, List, [], ◌∷◌,
  ◌++◌, map, append-nil, append_assoc, arith, Bytes, length, get_elem?, set, take, drop, replicate,
  All, ltb, leb, ◌==◌, if◌then◌else◌, size_max, Bool-cases, Option-cases, &&_split, &&_both, ==_iff,
  codes, ltb→lt, ltb→le, lt→ltb, le→ltb, leb→le, le→leb, length-append, length-drop, length-take,
  take-append, drop-append,
}
use monoblok.Slice.{slice_eq}
use monoblok.Patchbay.Floats.{Floats, positive_whole}
use monoblok.Patchbay.Value.{
  Value, Values, nil, boolean, number, symbol, keyword, string, list, vector, none_left, cons,
  Result, ok, fail, oom, type_mismatch, arity_mismatch, as_number,
}
use monoblok.Patchbay.Entry.{Kind, empty, ring_kind, Ring, Entry}
use monoblok.Patchbay.Slot.{Context, Machine, Outcome, passes, suppresses, refuses, with_slot}
use monoblok.Patchbay.Gates.{is_empty}
use monoblok.Patchbay.Ring.{
  elem, ring_reserve, ring_push_count, ring_evict_time, ring_push_time, window_push, held,
}

-- `window_calc`
pub data Calc : Type 0 where
  sum_calc : Calc
  avg_calc : Calc
  min_calc : Calc
  max_calc : Calc
  variance_calc : Calc
  stddev_calc : Calc

-- What `parse_window` finds, with the arguments from `pos` on.
pub record Window (N : Type 0) : Type 0 where
  pub time_window : Bool
  pub count : ℕ
  pub ms : ℕ
  pub rest : Values N

unfoldable pub is_ring : Kind → Bool
is_ring ring_kind = true
is_ring _ = false

pub same_mode : Bool → Bool → Bool
same_mode true b = b
same_mode false b = not b

-- `window_op`; the names are short enough for its buffer.
pub window_op : Bytes → Bool → Bytes
window_op name time_window = name ++ (if time_window then codes "/m" else codes "/t")

module _ (F : Floats) where
  -- `(uint64_t)n` or `(size_t)n` of a number that is whole and at least 1.
  pub parse_count : Option F.Num → Option ℕ
  parse_count none = none
  parse_count (some n) = if positive_whole F n then some (F.to_nat n) else none

  pub ms_window : Values F.Num → Option ℕ → Option (Window F.Num)
  ms_window rest none = none
  ms_window rest (some ms) = some (record { time_window = true; count = 0; ms = ms; rest = rest })

  pub count_window : Values F.Num → Option ℕ → Option (Window F.Num)
  count_window rest none = none
  count_window rest (some n) = some (record { time_window = false; count = n; ms = 0; rest = rest })

  -- `parse_window`
  pub parse_window : Values F.Num → Option (Window F.Num)
  parse_window none_left = none
  parse_window (cons (keyword k) none_left) = none
  parse_window (cons (keyword k) (cons v rest)) =
      if slice_eq k (codes "ms") then ms_window rest (parse_count (as_number F v)) else none
  parse_window (cons v rest) = count_window rest (parse_count (as_number F v))

  -- The loop of `calc_ring` for the least and the greatest value.
  pub extreme : Bool → F.Num → List F.Num → F.Num
  extreme least acc [] = acc
  extreme least acc (x ∷ xs) =
      extreme least (if (if least then F.lt x acc else F.lt acc x) then x else acc) xs

  -- Its loop for the sum of squares.
  pub square_sum : F.Num → F.Num → List F.Num → F.Num
  square_sum mean acc [] = acc
  square_sum mean acc (x ∷ xs) =
      square_sum mean (F.add acc (F.mul (F.sub x mean) (F.sub x mean))) xs

  pub mean_of : Ring F.Num → F.Num
  mean_of r = F.div r.sum (F.of_nat r.len)

  pub variance_of : Ring F.Num → F.Num
  variance_of r = F.div (square_sum (mean_of r) (F.of_nat 0) (held F r)) (F.of_nat r.len)

  pub calc_number : Calc → Ring F.Num → F.Num
  calc_number sum_calc r = r.sum
  calc_number avg_calc r = mean_of r
  calc_number min_calc r = extreme true (elem (F.of_nat 0) (held F r) 0) (drop 1 (held F r))
  calc_number max_calc r = extreme false (elem (F.of_nat 0) (held F r) 0) (drop 1 (held F r))
  calc_number variance_calc r = variance_of r
  calc_number stddev_calc r = F.sqrt (variance_of r)

  -- `calc_ring`
  pub calc_ring : Calc → Ring F.Num → Result F.Num
  calc_ring calc r = if r.len == 0 then ok nil else ok (number (calc_number calc r))

module _ (F : Floats) (alloc scratch : ℕ → Bool) where
  -- `window_slot` from the entry on: whether it is the window that is asked for, and the entry, which
  -- is a ring from now on even where its array could not be had.
  pub window_slot : Bool → ℕ → ℕ → Entry F.Num → Bool × Entry F.Num
  window_slot time_window count ms e =
      let started : Ring F.Num = record (e.ring) { time_window = time_window; window_ms = ms } in
      let (room, r) = ring_reserve F alloc started count false in
      if is_empty e.kind
      then if time_window
        then (true, record e { kind = ring_kind; ring = started })
        else (room, record e { kind = ring_kind; ring = r })
      else (is_ring e.kind && same_mode e.ring.time_window time_window, e)

  -- What the forms do that push a value and then answer from the ring.
  pub window_step :
      Bool → ℕ → ℕ → ℕ → F.Num → (Ring F.Num → Result F.Num) → Entry F.Num → Outcome F.Num
  window_step time_window count ms now x answer e =
      let (opened, e') = window_slot time_window count ms e in
      let (pushed, r) = window_push F alloc e'.ring time_window count ms now x in
      let kept : Entry F.Num = record e' { ring = r } in
      if opened
      then if pushed
        then record { result = answer r; entry = kept; quiet = false }
        else refuses oom kept
      else refuses oom e'

  -- The answer of `call_percentile` for `p`, with what `qsort` makes of the copy in the arena.
  pub percentile_of : (List F.Num → List F.Num) → F.Num → Ring F.Num → Result F.Num
  percentile_of qsort p r =
      let place = if r.len == 1 then 0 else F.to_nat (F.floor (F.mul p (F.of_nat (r.len - 1)))) in
      if scratch (r.len * 8 % 2 ^ 64)
      then ok (number (elem (F.of_nat 0) (qsort (held F r)) place))
      else fail oom

  -- The answer of `call_rate`.
  pub rate_of : F.Num → Ring F.Num → Result F.Num
  rate_of ms r = ok (number (F.div (F.mul (F.of_nat r.len) (F.of_nat 1000)) ms))

  -- `call_throttle` with its window in time, on its entry.
  pub throttle_time : ℕ → ℕ → ℕ → Value F.Num → Entry F.Num → Outcome F.Num
  throttle_time ms max now v e =
      let cutoff = if ltb ms now then now - ms else 0 in
      let recent = ring_evict_time F e.ring cutoff in
      let (pushed, r) = ring_push_time F alloc recent (F.of_nat 1) now in
      if leb max recent.len
      then suppresses (record e { ring = recent })
      else if pushed
      then passes v (record e { ring = r })
      else refuses oom (record e { ring = r })

  -- And over a number of messages.
  pub throttle_count : ℕ → Value F.Num → Entry F.Num → Outcome F.Num
  throttle_count max v e =
      if F.lt e.ring.sum (F.of_nat max)
      then passes v (record e { ring = ring_push_count F e.ring (F.of_nat 1) })
      else suppresses (record e { ring = ring_push_count F e.ring (F.of_nat 0) })

  pub throttle_step : Bool → ℕ → ℕ → ℕ → ℕ → Value F.Num → Entry F.Num → Outcome F.Num
  throttle_step time_window count ms max now v e =
      let (opened, e') = window_slot time_window count ms e in
      if opened
      then if time_window then throttle_time ms max now v e' else throttle_count max v e'
      else refuses oom e'
