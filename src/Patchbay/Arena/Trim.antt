-- ===== src/Patchbay/Arena/Trim.antt =====
-- What a trimmed arena retains.
use monoblok.Shared.{
  ℕ, ◌+◌, ◌-◌, ◌≤◌, ◌≡◌, sym, subst, Bool, ◌||◌, List, [], ◌∷◌, arith, ltb, leb, if◌then◌else◌,
  size_max, if-both,
}
use monoblok.Patchbay.Arena.{Block, arena_reset, arena_trim, trim_from}

-- The capacity of an arena.
pub total : List Block → ℕ
total [] = 0
total (b ∷ bs) = b.cap + total bs

trim_from-within :
    (keep retained : ℕ) (bs : List Block)
    → keep ≤ size_max
    → retained ≤ keep
    → retained + total (trim_from keep retained (arena_reset bs)) ≤ keep
unfolding trim_from arena_reset total
trim_from-within keep retained [] h r = omega arith
trim_from-within keep retained (b ∷ bs) h r =
    let all = arena_reset bs in
    let over : Bool = leb keep retained || ltb (keep - retained) b.cap in
    if-both (λ bs'. retained + total bs' ≤ keep) over (λ _. trim_from-within keep retained bs h r)
      (λ fits.
        let small : b.cap ≤ keep - retained = ground (arith, fits) in
        let whole : (if ltb (size_max - b.cap) retained then size_max else retained + b.cap)
            ≡ retained + b.cap =
          ground arith in
        let later = trim_from-within keep (retained + b.cap) bs h (omega arith) in
        subst (λ n. retained + (b.cap + total (trim_from keep n all)) ≤ keep) (sym whole)
          (omega arith))

-- After a reset, `pb_arena_trim` with a budget leaves blocks whose capacities sum to at most the
-- budget.
pub arena_trim-within :
    (keep : ℕ) (bs : List Block) → keep ≤ size_max → total (arena_trim (arena_reset bs) keep) ≤ keep
unfolding arena_trim
arena_trim-within keep bs h = omega (arith, trim_from-within keep 0 bs h (omega arith))
