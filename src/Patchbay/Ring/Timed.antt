-- ===== src/Patchbay/Ring/Timed.antt =====
-- A time window holds what is not older than its cutoff.
use native.Mathlib.Nat.{mod-lt, mod-eq_of_lt}
use monoblok.Shared.{
  ℕ, zero, suc, ◌+◌, ◌-◌, ◌*◌, ◌%◌, ◌^◌, ◌≤◌, ◌<◌, ◌≡◌, refl, sym, ap, ap₂, subst, ◌∙◌, inl, inr,
  Bool, true, false, List, [], ◌∷◌, ◌++◌, arith, length, drop, replicate, leb, if◌then◌else◌,
  size_max, Bool-cases, leb→le, length-append, length-set, length-replicate, if-both,
}
use monoblok.Patchbay.Floats.{Floats}
use monoblok.Patchbay.Entry.{Ring}
use monoblok.Patchbay.Ring.{
  elem, ring_slice, new_array, ring_reserve, evict_from, ring_evict_time, put_time, held,
  held_times,
}
use monoblok.Patchbay.Ring.Slices.{
  length-ring_slice, ring_slice-push, ring_slice-next, ring_slice-new_array, new_array-eq,
  ring_index-pos,
}
use monoblok.Patchbay.Ring.Held.{IsTimed}

-- How many times at the front are before the cutoff.
unfoldable pub leading_old : ℕ → List ℕ → ℕ
leading_old cutoff [] = 0
leading_old cutoff (t ∷ ts) = if leb cutoff t then 0 else suc (leading_old cutoff ts)

module _ (F : Floats) where
  -- What the eviction of `n` elements leaves of `r`.
  pub record Evicts (r : Ring F.Num) (n : ℕ) (q : Ring F.Num) : Type 0 where
    pub timed : IsTimed F q
    pub values : held F q ≡ drop n (held F r)
    pub times : held_times F q ≡ drop n (held_times F r)
    pub same_cap : q.cap ≡ r.cap
    pub same_window : (q.window_ms ≡ r.window_ms) × (q.time_window ≡ r.time_window)

  abbrev without_first : Ring F.Num → Ring F.Num
  without_first r = record r {
    sum = F.sub r.sum (elem (F.of_nat 0) r.values r.start);
    start = (r.start + 1) % r.cap;
    len = r.len - 1;
  }

  first_of {ℓ} :
      {A : Type ℓ} (z : A) (xs : List A) (cap start len : ℕ)
      → 0 < len
      → len ≤ cap
      → start ≤ cap - 1
      → ring_slice z xs cap start 0 len
        ≡ elem z xs start ∷ ring_slice z xs cap ((start + 1) % cap) 0 (len - 1)
  unfolding ring_slice
  first_of z xs cap start zero p h b = elim p [ ]
  first_of z xs cap start (suc m) p h b =
      ap₂ ◌∷◌
        (ap (elem z xs) (
          ring_index-pos cap start 0 (omega arith)
          ∙ ap (λ k. k % cap) (omega arith)
          ∙ mod-eq_of_lt (omega arith)))
        (sym (ring_slice-next z xs cap start 0 m (omega arith))
          ∙ ap (ring_slice z xs cap ((start + 1) % cap) 0) (omega arith))

  without_first-IsTimed : (r : Ring F.Num) → IsTimed F r → 0 < r.len → IsTimed F (without_first r)
  without_first-IsTimed r v p = record {
    valid = record {
      within = omega (arith, v.valid.within);
      begins = omega (arith, mod-lt (r.start + 1) {m = r.cap} (omega (arith, v.valid.within)));
      room = v.valid.room;
    };
    times_room = v.times_room;
  }

  nothing_evicted : (r : Ring F.Num) → IsTimed F r → Evicts r 0 r
  nothing_evicted r v = record {
    timed = v;
    values = refl;
    times = refl;
    same_cap = refl;
    same_window = (refl, refl);
  }

  first_evicted :
      (r : Ring F.Num) (k : ℕ) (q : Ring F.Num)
      → IsTimed F r
      → 0 < r.len
      → Evicts (without_first r) k q
      → Evicts r (suc k) q
  unfolding held held_times
  first_evicted r k q v p h = record {
    timed = h.timed;
    values =
        h.values
        ∙ sym (
            ap (drop (suc k))
              (first_of (F.of_nat 0) r.values r.cap r.start r.len p v.valid.within v.valid.begins));
    times =
        h.times
        ∙ sym (
            ap (drop (suc k))
              (first_of 0 r.times r.cap r.start r.len p v.valid.within v.valid.begins));
    same_cap = h.same_cap;
    same_window = h.same_window;
  }

  evict_from-Evicts :
      (rounds : ℕ) (r : Ring F.Num) (cutoff : ℕ)
      → r.len ≡ rounds
      → IsTimed F r
      → Evicts r (leading_old cutoff (held_times F r)) (evict_from F rounds r cutoff)
  unfolding evict_from leading_old held held_times ring_slice
  evict_from-Evicts zero r cutoff e v =
      subst (λ ts. Evicts r (leading_old cutoff ts) r)
        (sym (ap (ring_slice 0 r.times r.cap r.start 0) e)) (nothing_evicted r v)
  evict_from-Evicts (suc m) r cutoff e v =
      let p : 0 < r.len = omega arith in
      let next = without_first r in
      let q = evict_from F m next cutoff in
      let later = evict_from-Evicts m next cutoff (omega arith) (without_first-IsTimed r v p) in
      subst
        (λ ts.
          Evicts r (leading_old cutoff ts) (if leb cutoff (elem 0 r.times r.start) then r else q))
        (sym (first_of 0 r.times r.cap r.start r.len p v.valid.within v.valid.begins))
        (either (leb cutoff (elem 0 r.times r.start)) (leading_old cutoff (held_times F next)) q
          (nothing_evicted r v)
          (first_evicted r (leading_old cutoff (held_times F next)) q v p later))
    where
      either :
          (b : Bool) (k : ℕ) (q : Ring F.Num)
          → Evicts r 0 r
          → Evicts r (suc k) q
          → Evicts r (if b then 0 else suc k) (if b then r else q)
      either true k q a b = a
      either false k q a b = b

  -- From a valid ring with times, `ring_evict_time` takes out the values at the front whose times
  -- are before the cutoff, up to the first that is not, with their times; the ring stays valid and
  -- keeps its capacity and its window.
  pub ring_evict_time-Evicts :
      (r : Ring F.Num) (cutoff : ℕ)
      → IsTimed F r
      → Evicts r (leading_old cutoff (held_times F r)) (ring_evict_time F r cutoff)
  unfolding ring_evict_time
  ring_evict_time-Evicts r cutoff v = evict_from-Evicts r.len r cutoff refl v

  -- What is left of a list is not before the cutoff.
  front-drop :
      (ts us : List ℕ) (cutoff t : ℕ) → drop (leading_old cutoff ts) ts ≡ t ∷ us → cutoff ≤ t
  unfolding leading_old
  front-drop [] us cutoff t h = cc
  front-drop (x ∷ ts) us cutoff t h = elim (Bool-cases (leb cutoff x)) [
    | inl c ↦ let same = (rw c at h) in ground (arith, leb→le cutoff x c)
    | inr c ↦ front-drop ts us cutoff t (rw c at h)
  ]

  -- The first time that an eviction leaves is not before the cutoff.
  pub first_time-ring_evict_time :
      (r : Ring F.Num) (cutoff : ℕ)
      → IsTimed F r
      → 0 < (ring_evict_time F r cutoff).len
      → cutoff ≤ elem 0 (ring_evict_time F r cutoff).times (ring_evict_time F r cutoff).start
  unfolding held_times
  first_time-ring_evict_time r cutoff v p =
      let q = ring_evict_time F r cutoff in
      let ev = ring_evict_time-Evicts r cutoff v in
      front-drop (held_times F r) (ring_slice 0 q.times q.cap ((q.start + 1) % q.cap) 0 (q.len - 1))
        cutoff (elem 0 q.times q.start)
        (sym ev.times
          ∙ first_of 0 q.times q.cap q.start q.len p ev.timed.valid.within ev.timed.valid.begins)

  -- One value more, at the end.
  pub record Pushes (r : Ring F.Num) (x : F.Num) (t : ℕ) (q : Ring F.Num) : Type 0 where
    pub timed : IsTimed F q
    pub values : held F q ≡ held F r ++ x ∷ []
    pub times : held_times F q ≡ held_times F r ++ t ∷ []
    pub same_window : (q.window_ms ≡ r.window_ms) × (q.time_window ≡ r.time_window)

  pub put_time-Pushes :
      (r : Ring F.Num) (x : F.Num) (t : ℕ)
      → IsTimed F r
      → r.len < r.cap
      → Pushes r x t (put_time F r x t)
  unfolding put_time held held_times
  put_time-Pushes r x t v h =
      let k = (r.start + r.len) % r.cap in
      record {
        timed = record {
          valid = record {
            within = omega arith;
            begins = v.valid.begins;
            room = omega (arith, v.valid.room, length-set r.values k x);
          };
          times_room = omega (arith, v.times_room, length-set r.times k t);
        };
        values = ring_slice-push (F.of_nat 0) r.values r.cap r.start r.len x h v.valid.room;
        times = ring_slice-push 0 r.times r.cap r.start r.len t h v.times_room;
        same_window = (refl, refl);
      }

length-new_array {ℓ} :
    {A : Type ℓ} (z : A) (ys : List A) (n : ℕ)
    → length ys ≤ n
    → n * 8 ≤ size_max
    → n ≤ length (new_array z ys n)
length-new_array z ys n h s = omega (
  arith,
  ap length (new_array-eq z ys n h s),
  length-append ys (replicate (n - length ys) z),
  length-replicate (n - length ys) z,
)

module _ (F : Floats) (alloc : ℕ → Bool) where
  -- What a reservation of `cap` elements leaves, with times.
  pub record Reserves (r : Ring F.Num) (cap : ℕ) (o : Bool × Ring F.Num) : Type 0 where
    pub timed : IsTimed F o.1
    pub values : held F o.1 ≡ held F r
    pub times : held_times F o.1 ≡ held_times F r
    pub same_window : (o.1.window_ms ≡ r.window_ms) × (o.1.time_window ≡ r.time_window)
    pub same_len : o.1.len ≡ r.len
    pub enough : o.0 ≡ true → cap ≤ o.1.cap
    pub refused : o.0 ≡ false → o.1 ≡ r
    pub bounded : (m : ℕ) → r.cap ≤ m → cap ≤ m → o.1.cap ≤ m
    pub given : alloc (cap * 8 % 2 ^ 64) ≡ true → o.0 ≡ true

  pub ring_reserve-Reserves :
      (r : Ring F.Num) (cap : ℕ)
      → IsTimed F r
      → cap * 8 ≤ size_max
      → Reserves r cap (ring_reserve F alloc r cap true)
  unfolding ring_reserve held held_times
  ring_reserve-Reserves r cap v s =
      let z = F.of_nat 0 in
      let vs = ring_slice z r.values r.cap r.start 0 r.len in
      let ts = ring_slice 0 r.times r.cap r.start 0 r.len in
      let nv : length vs ≡ r.len = length-ring_slice z r.values r.cap r.start 0 r.len in
      let nt : length ts ≡ r.len = length-ring_slice 0 r.times r.cap r.start 0 r.len in
      if-both (Reserves r cap) (leb cap r.cap)
        (λ there. record {
          timed = v;
          values = refl;
          times = refl;
          same_window = (refl, refl);
          same_len = refl;
          enough = λ _. leb→le cap r.cap there;
          refused = λ _. refl;
          bounded = λ m a b. a;
          given = λ _. refl;
        })
        (λ short.
          let wide : r.len ≤ cap = ground (arith, v.valid.within) in
          if-both (Reserves r cap) (alloc (cap * 8 % 2 ^ 64))
            (λ _. record {
              timed = record {
                valid = record {
                  within = wide;
                  begins = omega arith;
                  room = length-new_array z vs cap (omega arith) s;
                };
                times_room = length-new_array 0 ts cap (omega arith) s;
              };
              values =
                  ap (ring_slice z (new_array z vs cap) cap 0 0) (sym nv)
                  ∙ ring_slice-new_array z vs cap (omega arith) s;
              times =
                  ap (ring_slice 0 (new_array 0 ts cap) cap 0 0) (sym nt)
                  ∙ ring_slice-new_array 0 ts cap (omega arith) s;
              same_window = (refl, refl);
              same_len = refl;
              enough = λ _. omega arith;
              refused = λ e. absurd (ground arith);
              bounded = λ m a b. b;
              given = λ _. refl;
            })
            (λ exhausted. record {
              timed = v;
              values = refl;
              times = refl;
              same_window = (refl, refl);
              same_len = refl;
              enough = λ e. absurd (ground arith);
              refused = λ _. refl;
              bounded = λ m a b. a;
              given = λ e. absurd (ground arith);
            }))
