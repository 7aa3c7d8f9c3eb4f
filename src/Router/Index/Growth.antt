-- ===== src/Router/Index/Growth.antt =====
-- The capacities of the hash indexes.
use monoblok.Shared.{ℕ, zero, suc, ◌^◌, ◌≤◌, ◌≡◌, inl, inr, some, arith, ltb, Bool-cases}
use native.Mathlib.Nat.{pow-suc}
use monoblok.Router.Index.{next_index_cap_from, next_index_cap}

-- The smallest of 16, 32, 64, … that is enough: a power of two.
next_index_cap_from_lem :
    (fuel exp needed : ℕ) {cap : ℕ}
    → next_index_cap_from fuel (2 ^ exp) needed ≡ some cap
    → (k : ℕ) × (cap ≡ 2 ^ k) × (needed ≤ cap) × (exp ≤ k)
unfolding next_index_cap_from
next_index_cap_from_lem zero exp needed h = (exp, ground arith, ground arith, omega arith)
next_index_cap_from_lem (suc fuel) exp needed h = elim (Bool-cases (ltb (2 ^ exp) needed)) [
  | inr enough ↦ (exp, ground arith, ground arith, omega arith)
  | inl small ↦
      let (k, e, n, m) =
        next_index_cap_from_lem fuel (suc exp) needed (rw pow-suc (ground arith)) in
      (k, e, n, omega arith)
]

-- A capacity that `next_index_cap` returns is a power of two, at least 16, and as large as asked.
pub next_index_cap_lem :
    (needed : ℕ) {cap : ℕ}
    → next_index_cap needed ≡ some cap
    → (k : ℕ) × (cap ≡ 2 ^ k) × (needed ≤ cap) × (4 ≤ k)
unfolding next_index_cap
next_index_cap_lem needed h = next_index_cap_from_lem 64 4 needed h
