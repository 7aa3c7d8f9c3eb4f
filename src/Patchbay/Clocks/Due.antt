-- ===== src/Patchbay/Clocks/Due.antt =====
-- When an entry is due: a description of `entry_deadline` of src/patchbay/pb_program.c by what the
-- forms keep.
use monoblok.Shared.{
  ℕ, ◌+◌, ◌%◌, ◌^◌, ◌≤◌, ◌<◌, ◌≡◌, refl, sym, ap, subst, inl, inr, true, ◌&&◌, Option, none, some,
  arith, ltb, size_max, Bool-cases, &&_split, ltb→lt, ltb→le, lt→ltb,
}
use monoblok.Patchbay.Entry.{
  Kind, empty, number_kind, bytes_kind, ring_kind, bar_kind, clock_kind, Entry,
}
use monoblok.Patchbay.Ring.{elem}
use monoblok.Patchbay.Windows.{is_ring}
use monoblok.Patchbay.Bars.{is_bar}
use monoblok.Patchbay.Clocks.{is_clock, ring_deadline, entry_deadline}

-- A window over time that holds something is due a millisecond after its oldest value has been in it
-- for the whole window, or at the greatest time there is; an open bar over time at the end of its
-- window; an armed clock at its deadline.
pub data Due {N : Type 0} (e : Entry N) : ℕ → Type 0 where
  window_due :
      e.kind ≡ ring_kind
      → e.ring.time_window ≡ true
      → 0 < e.ring.len
      → elem 0 e.ring.times e.ring.start + e.ring.window_ms < size_max
      → Due e (elem 0 e.ring.times e.ring.start + e.ring.window_ms + 1)
  window_last :
      e.kind ≡ ring_kind
      → e.ring.time_window ≡ true
      → 0 < e.ring.len
      → e.ring.window_ms ≤ size_max
      → size_max ≤ elem 0 e.ring.times e.ring.start + e.ring.window_ms
      → Due e size_max
  bar_due :
      e.kind ≡ bar_kind
      → e.bar.time_window ≡ true
      → 0 < e.bar.count
      → Due e ((e.bar.window_start_ms + e.bar.window_ms) % 2 ^ 64)
  clock_due : e.kind ≡ clock_kind → e.clock.armed ≡ true → Due e e.clock.deadline_ms

is_ring-kind : (k : Kind) → is_ring k ≡ true → k ≡ ring_kind
unfolding is_ring
is_ring-kind empty h = cc
is_ring-kind number_kind h = cc
is_ring-kind bytes_kind h = cc
is_ring-kind ring_kind h = refl
is_ring-kind bar_kind h = cc
is_ring-kind clock_kind h = cc

is_bar-kind : (k : Kind) → is_bar k ≡ true → k ≡ bar_kind
unfolding is_bar
is_bar-kind empty h = cc
is_bar-kind number_kind h = cc
is_bar-kind bytes_kind h = cc
is_bar-kind ring_kind h = cc
is_bar-kind bar_kind h = refl
is_bar-kind clock_kind h = cc

is_clock-kind : (k : Kind) → is_clock k ≡ true → k ≡ clock_kind
unfolding is_clock
is_clock-kind empty h = cc
is_clock-kind number_kind h = cc
is_clock-kind bytes_kind h = cc
is_clock-kind ring_kind h = cc
is_clock-kind bar_kind h = cc
is_clock-kind clock_kind h = refl

ring_deadline-before :
    (window t : ℕ) → t + window < size_max → ring_deadline window t ≡ t + window + 1
unfolding ring_deadline
ring_deadline-before window t h = ground arith

ring_deadline-last :
    (window t : ℕ) → window ≤ size_max → size_max ≤ t + window → ring_deadline window t ≡ size_max
unfolding ring_deadline
ring_deadline-last window t b h = ground arith

pub entry_deadline_of : {N : Type 0} (e : Entry N) (d : ℕ) → Due e d → entry_deadline e ≡ some d
unfolding entry_deadline is_ring is_bar is_clock
entry_deadline_of e d (window_due k w l h) =
    rw (k, w, lt→ltb 0 e.ring.len l)
      (ap some (ring_deadline-before e.ring.window_ms (elem 0 e.ring.times e.ring.start) h))
entry_deadline_of e d (window_last k w l b h) =
    rw (k, w, lt→ltb 0 e.ring.len l)
      (ap some (ring_deadline-last e.ring.window_ms (elem 0 e.ring.times e.ring.start) b h))
entry_deadline_of e d (bar_due k w l) = rw (k, w, lt→ltb 0 e.bar.count l) refl
entry_deadline_of e d (clock_due k a) = rw (k, a) refl

window_Due :
    {N : Type 0} (e : Entry N)
    → e.ring.window_ms ≤ size_max
    → e.kind ≡ ring_kind
    → e.ring.time_window ≡ true
    → 0 < e.ring.len
    → Due e (ring_deadline e.ring.window_ms (elem 0 e.ring.times e.ring.start))
window_Due e b k w l =
    let t = elem 0 e.ring.times e.ring.start in
    elim (Bool-cases (ltb (t + e.ring.window_ms) size_max)) [
      | inl c ↦
          let h = ltb→lt (t + e.ring.window_ms) size_max c in
          subst (Due e) (sym (ring_deadline-before e.ring.window_ms t h)) (window_due k w l h)
      | inr c ↦
          let h = ltb→le (t + e.ring.window_ms) size_max c in
          subst (Due e) (sym (ring_deadline-last e.ring.window_ms t b h)) (window_last k w l b h)
    ]

abbrev deadline_or : Option ℕ → ℕ
deadline_or none = 0
deadline_or (some d) = d

pub entry_deadline-Due :
    {N : Type 0} (e : Entry N) (d : ℕ)
    → e.ring.window_ms ≤ size_max
    → entry_deadline e ≡ some d
    → Due e d
unfolding entry_deadline
entry_deadline-Due e d b h =
    elim (Bool-cases (is_ring e.kind && e.ring.time_window && ltb 0 e.ring.len)) [
      | inl c ↦
          let (kw, l) = &&_split (is_ring e.kind && e.ring.time_window) (ltb 0 e.ring.len) c in
          let (k, w) = &&_split (is_ring e.kind) e.ring.time_window kw in
          subst (Due e) (ap deadline_or (rw (c, entry_deadline) at h))
            (window_Due e b (is_ring-kind e.kind k) w (ltb→lt 0 e.ring.len l))
      | inr c ↦ elim (Bool-cases (is_bar e.kind && e.bar.time_window && ltb 0 e.bar.count)) [
        | inl c' ↦
            let (kw, l) = &&_split (is_bar e.kind && e.bar.time_window) (ltb 0 e.bar.count) c' in
            let (k, w) = &&_split (is_bar e.kind) e.bar.time_window kw in
            subst (Due e) (ap deadline_or (rw (c, c', entry_deadline) at h))
              (bar_due (is_bar-kind e.kind k) w (ltb→lt 0 e.bar.count l))
        | inr c' ↦ elim (Bool-cases (is_clock e.kind && e.clock.armed)) [
          | inl a ↦
              let (k, armed) = &&_split (is_clock e.kind) e.clock.armed a in
              subst (Due e) (ap deadline_or (rw (c, c', a, entry_deadline) at h))
                (clock_due (is_clock-kind e.kind k) armed)
          | inr a ↦ cc (rw (c, c', a, entry_deadline) at h)
        ]
      ]
    ]
