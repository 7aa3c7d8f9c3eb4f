-- ===== src/Patchbay/Ring/Pushed.antt =====
-- A value pushed to a time window.
use native.Mathlib.Nat.{mod-eq_of_lt}
use monoblok.Shared.{
  ℕ, zero, suc, ◌+◌, ◌*◌, ◌%◌, ◌^◌, ◌≤◌, ◌<◌, ◌≡◌, refl, sym, ap, ◌∙◌, Bool, true, false, [], ◌∷◌,
  ◌++◌, arith, ◌==◌, if◌then◌else◌, size_max, ==_iff, if-both,
}
use monoblok.Patchbay.Floats.{Floats}
use monoblok.Patchbay.Entry.{Ring}
use monoblok.Patchbay.Ring.{ring_reserve, put_time, ring_push_time, held, held_times}
use monoblok.Patchbay.Ring.Held.{IsTimed}
use monoblok.Patchbay.Ring.Timed.{Pushes, put_time-Pushes, ring_reserve-Reserves}

module _ (F : Floats) (alloc : ℕ → Bool) where
  -- What `ring_push_time` returns: the value is at the end, or memory was refused and nothing changed;
  -- the capacity is kept, or doubled where the ring was full.
  pub record PushResult (r : Ring F.Num) (x : F.Num) (t : ℕ) (o : Bool × Ring F.Num) : Type 0 where
    pub pushed : o.0 ≡ true → Pushes F r x t o.1
    pub refused : o.0 ≡ false → o.1 ≡ r
    pub bounded : (m : ℕ) → r.cap ≤ m → 16 + 2 * r.len ≤ m → o.1.cap ≤ m
    pub given : ((n : ℕ) → alloc n ≡ true) → o.0 ≡ true

  wider :
      (r r' : Ring F.Num) (x : F.Num) (t : ℕ) (q : Ring F.Num)
      → held F r' ≡ held F r
      → held_times F r' ≡ held_times F r
      → (r'.window_ms ≡ r.window_ms) × (r'.time_window ≡ r.time_window)
      → Pushes F r' x t q
      → Pushes F r x t q
  wider r r' x t q v s (w, m) p = record {
    timed = p.timed;
    values = p.values ∙ ap (λ xs. xs ++ x ∷ []) v;
    times = p.times ∙ ap (λ xs. xs ++ t ∷ []) s;
    same_window = (p.same_window.0 ∙ w, p.same_window.1 ∙ m);
  }

  -- A full ring grows to a capacity above its own.
  next_cap-grows :
      (cap : ℕ)
      → cap * 16 ≤ size_max
      → (cap < (if cap == 0 then 16 else cap * 2 % 2 ^ 64))
        × ((if cap == 0 then 16 else cap * 2 % 2 ^ 64) * 8 ≤ size_max)
        × ((if cap == 0 then 16 else cap * 2 % 2 ^ 64) ≤ 16 + 2 * cap)
  next_cap-grows zero h = (omega arith, omega arith, omega arith)
  next_cap-grows (suc n) h =
      let e : suc n * 2 % 2 ^ 64 ≡ suc n * 2 = mod-eq_of_lt (omega arith) in
      rw e (ground arith, ground arith, ground arith)

  pub ring_push_time-PushResult :
      (r : Ring F.Num) (x : F.Num) (t : ℕ)
      → IsTimed F r
      → r.cap * 16 ≤ size_max
      → PushResult r x t (ring_push_time F alloc r x t)
  unfolding ring_push_time put_time
  ring_push_time-PushResult r x t v s =
      let next = if r.cap == 0 then 16 else r.cap * 2 % 2 ^ 64 in
      let (more, small, bound) = next_cap-grows r.cap s in
      let g = ring_reserve F alloc r next true in
      let w = ring_reserve-Reserves F alloc r next v small in
      if-both (PushResult r x t) (r.len == r.cap)
        (λ full.
          let e : r.len ≡ r.cap = (==_iff r.len r.cap).0 full in
          if-both (PushResult r x t) g.0
            (λ grown. record {
              pushed = λ _.
                  wider r g.1 x t (put_time F g.1 x t) w.values w.times w.same_window
                    (put_time-Pushes F g.1 x t w.timed (omega (arith, w.enough grown, w.same_len)));
              refused = λ h. absurd (ground arith);
              bounded = λ m a b. w.bounded m a (omega arith);
              given = λ _. refl;
            })
            (λ short. record {
              pushed = λ h. absurd (ground arith);
              refused = λ _. w.refused short;
              bounded = λ m a b. w.bounded m a (omega arith);
              given = λ all. sym short ∙ w.given (all (next * 8 % 2 ^ 64));
            }))
        (λ room. record {
          pushed = λ _. put_time-Pushes F r x t v (ground (arith, v.valid.within));
          refused = λ h. absurd (ground arith);
          bounded = λ m a b. a;
          given = λ _. refl;
        })
