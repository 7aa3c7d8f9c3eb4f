-- ===== src/Patchbay/Ring.antt =====
-- src/patchbay/pb_form_windows.c: the ring of the window forms.
pub mod Slices
pub mod Held
pub mod Timed
pub mod Pushed
use monoblok.Shared.{
  ℕ, zero, suc, ◌+◌, ◌-◌, ◌*◌, ◌/◌, ◌%◌, ◌^◌, ◌≤◌, ◌<◌, min, ◌≡◌, refl, sym, ap, ap₂, subst, ◌∙◌,
  ◌≢◌, ◌↔◌, ◌⊎◌, inl, inr, Bool, true, false, not, ◌&&◌, ◌||◌, Option, none, some, List, [], ◌∷◌,
  ◌++◌, map, append-nil, append_assoc, arith, Bytes, length, get_elem?, set, take, drop, replicate,
  All, ltb, leb, ◌==◌, if◌then◌else◌, size_max, Bool-cases, Option-cases, &&_split, &&_both, ==_iff,
  codes, ltb→lt, ltb→le, lt→ltb, le→ltb, leb→le, le→leb, length-append, length-drop, length-take,
  take-append, drop-append,
}
use monoblok.Patchbay.Floats.{Floats}
use monoblok.Patchbay.Entry.{Ring}

unfoldable pub elem_or {ℓ} : {A : Type ℓ} → A → Option A → A
elem_or z none = z
elem_or z (some x) = x

-- An element of an array; what stands past its end is never asked for by a valid ring.
unfoldable pub elem {ℓ} : {A : Type ℓ} → A → List A → ℕ → A
elem z xs i = elem_or z (get_elem? xs i)

-- `ring_cap == 0 ? 0 : (ring_start + i) % ring_cap`
pub ring_index : ℕ → ℕ → ℕ → ℕ
ring_index cap start i = if cap == 0 then 0 else (start + i) % cap

-- The `n` elements from the `i`th of the ring on.
unfoldable pub ring_slice {ℓ} : {A : Type ℓ} → A → List A → ℕ → ℕ → ℕ → ℕ → List A
ring_slice z xs cap start i zero = []
ring_slice z xs cap start i (suc n) =
    elem z xs (ring_index cap start i) ∷ ring_slice z xs cap start (i + 1) n

-- The array of `malloc(cap * 8)`, whose size wraps, with the copied elements in front. What the
-- others hold is not determined and not read.
pub new_array {ℓ} : {A : Type ℓ} → A → List A → ℕ → List A
new_array z xs cap =
    let room = cap * 8 % 2 ^ 64 / 8 in take room (xs ++ replicate (room - length xs) z)

module _ (F : Floats) where
  -- `ring_push_count`
  pub ring_push_count : Ring F.Num → F.Num → Ring F.Num
  ring_push_count r x =
      if ltb r.len r.cap
      then record r {
        values = set r.values ((r.start + r.len) % r.cap) x;
        len = r.len + 1;
        sum = F.add r.sum x;
      }
      else record r {
        values = set r.values r.start x;
        sum = F.add (F.sub r.sum (elem (F.of_nat 0) r.values r.start)) x;
        start = (r.start + 1) % r.cap;
      }

  -- The loop of `ring_evict_time`: a round for each element is enough.
  pub evict_from : ℕ → Ring F.Num → ℕ → Ring F.Num
  evict_from zero r cutoff = r
  evict_from (suc rounds) r cutoff =
      let next =
        evict_from rounds
          (record r {
            sum = F.sub r.sum (elem (F.of_nat 0) r.values r.start);
            start = (r.start + 1) % r.cap;
            len = r.len - 1;
          })
          cutoff in
      if leb cutoff (elem 0 r.times r.start) then r else next

  pub ring_evict_time : Ring F.Num → ℕ → Ring F.Num
  ring_evict_time r cutoff = evict_from r.len r cutoff

  -- `ring_push_time` once there is room.
  pub put_time : Ring F.Num → F.Num → ℕ → Ring F.Num
  put_time r x t = record r {
    values = set r.values ((r.start + r.len) % r.cap) x;
    times = set r.times ((r.start + r.len) % r.cap) t;
    len = r.len + 1;
    sum = F.add r.sum x;
  }

module _ (F : Floats) (alloc : ℕ → Bool) where
  -- `ring_reserve`
  pub ring_reserve : Ring F.Num → ℕ → Bool → Bool × Ring F.Num
  ring_reserve r cap with_times =
      let bytes = cap * 8 % 2 ^ 64 in
      let values =
        new_array (F.of_nat 0) (ring_slice (F.of_nat 0) r.values r.cap r.start 0 r.len) cap in
      let times = new_array 0 (ring_slice 0 r.times r.cap r.start 0 r.len) cap in
      let grown : Ring F.Num = record r {
        values = values;
        times = if with_times then times else [];
        cap = cap;
        start = 0;
      } in
      if leb cap r.cap then (true, r) else if alloc bytes then (true, grown) else (false, r)

  -- `ring_push_time`
  pub ring_push_time : Ring F.Num → F.Num → ℕ → Bool × Ring F.Num
  ring_push_time r x t =
      let next = if r.cap == 0 then 16 else r.cap * 2 % 2 ^ 64 in
      let (grown, r') = ring_reserve r next true in
      if r.len == r.cap
      then if grown then (true, put_time F r' x t) else (false, r')
      else (true, put_time F r x t)

  -- `window_push` of a time window, and of a window that counts.
  pub window_push_time : Ring F.Num → ℕ → ℕ → F.Num → Bool × Ring F.Num
  window_push_time r ms now x =
      let configured = if r.window_ms == 0 then ms else r.window_ms in
      let cutoff = if ltb configured now then now - configured else 0 in
      ring_push_time (ring_evict_time F r cutoff) x now

  pub window_push_count : Ring F.Num → ℕ → F.Num → Bool × Ring F.Num
  window_push_count r count x =
      let (reserved, r') = ring_reserve r count false in
      if r.cap == 0
      then if reserved then (true, ring_push_count F r' x) else (false, r')
      else (true, ring_push_count F r x)

  pub window_push : Ring F.Num → Bool → ℕ → ℕ → ℕ → F.Num → Bool × Ring F.Num
  window_push r true count ms now x = window_push_time r ms now x
  window_push r false count ms now x = window_push_count r count x

-- The values that a ring holds, the oldest first, and their times.
pub held : (F : Floats) → Ring F.Num → List F.Num
held F r = ring_slice (F.of_nat 0) r.values r.cap r.start 0 r.len

unfoldable pub held_times : (F : Floats) → Ring F.Num → List ℕ
held_times F r = ring_slice 0 r.times r.cap r.start 0 r.len
