-- ===== src/Patchbay/Bars/Times.antt =====
-- The bars that a run of values with their times closes.
use monoblok.Shared.{
  ℕ, ◌+◌, ◌-◌, ◌*◌, ◌/◌, ◌^◌, ◌<◌, ◌≡◌, refl, sym, ap, ap₂, ◌∙◌, inl, inr, Bool, true, false, ◌||◌,
  Option, none, some, List, [], ◌∷◌, ◌++◌, arith, length, ◌==◌, if◌then◌else◌, Bool-cases, ==_iff,
  length-append,
}
use native.Mathlib.Nat.{mul-div_cancel}
use monoblok.Patchbay.Floats.{Floats}
use monoblok.Patchbay.Entry.{Bar}
use monoblok.Patchbay.Bars.{Close, bar_start, bar_extend, close_of, aligned, bar_time_update}
use monoblok.Patchbay.Bars.Runs.{
  close_eq, greatest, least, last_of, last_of-snoc, bar_of, Collects, nothing, some_values,
  extend-Collects,
}

module _ (F : Floats) where
  -- What is open in a bar over time: the values since it began, and the number of its window, of those
  -- that divide the time since the epoch.
  pub data Opens : List F.Num → ℕ → Bar F.Num → Type 0 where
    no_bar : (k : ℕ) (b : Bar F.Num) → b.count ≡ 0 → Opens [] k b
    a_bar :
        (x : F.Num) (xs : List F.Num) (k : ℕ) (b : Bar F.Num)
        → Collects F (x ∷ xs) b
        → b.window_start_ms ≡ k * b.window_ms
        → b.last_close ≡ last_of F x xs
        → Opens (x ∷ xs) k b

  -- The fields of the window are no part of what is collected.
  at_window :
      {seen : List F.Num} {b : Bar F.Num} (w : ℕ) (l : F.Num)
      → Collects F seen b
      → Collects F seen (record b { window_start_ms = w; last_close = l })
  at_window w l (nothing b k) = nothing (record b { window_start_ms = w; last_close = l }) k
  at_window w l (some_values b x xs k f g m) =
      some_values (record b { window_start_ms = w; last_close = l }) x xs k f g m

  -- The bar that begins with a value.
  abbrev begun_with : Bar F.Num → ℕ → F.Num → Bar F.Num
  begun_with b now y = record (bar_start F b y) {
    window_start_ms = aligned F b.window_ms now;
    last_close = y;
  }

  begun-Opens :
      (b : Bar F.Num) (now : ℕ) (y : F.Num)
      → Opens (y ∷ []) (now / b.window_ms) (begun_with b now y)
  unfolding bar_start greatest least last_of aligned
  begun-Opens b now y =
      a_bar y [] (now / b.window_ms) (begun_with b now y)
        (at_window (aligned F b.window_ms now) y
          (some_values (bar_start F b y) y [] refl refl refl refl))
        refl refl

  -- The windows begin at different times.
  same_start : (k h w : ℕ) → 0 < w → (k * w == h * w) ≡ (k == h)
  same_start k h w z = elim (Bool-cases (k == h)) [
    | inl e ↦ rw ((==_iff k h).0 e, (==_iff (h * w) (h * w)).1 refl, (==_iff h h).1 refl) refl
    | inr e ↦ elim (Bool-cases (k * w == h * w)) [
      | inl d ↦
          let eq : k * w ≡ h * w = (==_iff (k * w) (h * w)).0 d in
          d
          ∙ sym
              ((==_iff k h).1 (sym (mul-div_cancel k z) ∙ ap (λ n. n / w) eq ∙ mul-div_cancel h z))
      | inr d ↦ d ∙ sym e
    ]
  ]

  -- The bar of values, if there are any.
  pub bar_if : List F.Num → Option (Close F.Num)
  bar_if [] = none
  bar_if (x ∷ xs) = some (bar_of F x xs)

  pub no_values : List F.Num → Bool
  no_values [] = true
  no_values (x ∷ xs) = false

  -- What is closed by a run of values with their times: a bar, when a value is of another window. The
  -- windows are numbered: that of a time is its quotient by the length of a window.
  pub reference_windows : ℕ → List F.Num → ℕ → List (ℕ × F.Num) → List (Option (Close F.Num))
  reference_windows window seen k [] = []
  reference_windows window seen k ((now, y) ∷ ys) =
      let here = now / window in
      if no_values seen || k == here
      then none ∷ reference_windows window (seen ++ y ∷ []) here ys
      else bar_if seen ∷ reference_windows window (y ∷ []) here ys

  -- What `bar_time_update` closes over a run of values with their times.
  pub time_run : Bar F.Num → List (ℕ × F.Num) → List (Option (Close F.Num))
  time_run b [] = []
  time_run b ((now, y) ∷ ys) = let (c, b') = bar_time_update F b now y in c ∷ time_run b' ys

  closing :
      (x : F.Num) (xs : List F.Num) (b : Bar F.Num)
      → Collects F (x ∷ xs) b
      → b.last_close ≡ last_of F x xs
      → close_of F b b.last_close ≡ bar_of F x xs
  unfolding close_of bar_of
  closing x xs b (some_values _ _ _ k f g l) z = close_eq f g l z

  -- In a window of more than 0 milliseconds and over a run of values with their times, fewer than
  -- 2^32 - 1 with those before it in the open bar, `bar_time_update` closes a bar when a value comes
  -- whose time, divided by the length of the window, has another quotient than the times of the open
  -- bar: its open is the first of the values of the open bar, its close the last, and its high and low
  -- the greatest and the least. `seen` are the values before the run, and `k` is their quotient.
  pub time_run-eq :
      (ys : List (ℕ × F.Num)) (seen : List F.Num) (k : ℕ) (b : Bar F.Num)
      → 0 < b.window_ms
      → Opens seen k b
      → length seen + length ys < 2 ^ 32 - 1
      → time_run b ys ≡ reference_windows b.window_ms seen k ys
  unfolding time_run reference_windows no_values bar_time_update bar_start bar_extend close_of
      bar_if bar_of aligned
  time_run-eq [] seen k b w o h = refl
  time_run-eq ((now, y) ∷ ys) [] k b w (no_bar _ _ none_seen) h = rw none_seen (
      ap (◌∷◌ none) (
        time_run-eq ys (y ∷ []) (now / b.window_ms) (begun_with b now y) w (begun-Opens b now y)
          (omega arith)))
  time_run-eq ((now, y) ∷ ys) (x ∷ xs) k b w (a_bar _ _ _ _ c s z) h =
      let here = now / b.window_ms in
      let (open_bar, longer) = extend-Collects F x xs b y c (omega arith) in
      let extended : Bar F.Num = record (bar_extend F b y) { last_close = y } in
      let test : (b.window_start_ms == here * b.window_ms) ≡ (k == here) =
        ap (λ t. t == here * b.window_ms) s ∙ same_start k here b.window_ms w in
      elim (Bool-cases (k == here)) [
        | inl e ↦
            let at : k ≡ here = (==_iff k here).0 e in
            rw (open_bar, test ∙ e, e)
              (ap (◌∷◌ none) (
                time_run-eq ys (x ∷ (xs ++ y ∷ [])) here extended w
                  (a_bar x (xs ++ y ∷ []) here extended (at_window b.window_start_ms y longer)
                    (s ∙ ap (λ k. k * b.window_ms) at) (sym (last_of-snoc F x xs y)))
                  (omega (arith, length-append xs (y ∷ [])))))
        | inr e ↦
            rw (open_bar, test ∙ e, e)
              (ap₂ ◌∷◌ (ap some (closing x xs b c z)) (
                time_run-eq ys (y ∷ []) here (begun_with b now y) w (begun-Opens b now y)
                  (omega arith)))
      ]
