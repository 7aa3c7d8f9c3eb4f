-- ===== src/Patchbay/Bars/Runs.antt =====
-- The bars that a run of values closes.
use monoblok.Shared.{
  ℕ, ◌+◌, ◌-◌, ◌%◌, ◌^◌, ◌<◌, ◌≡◌, refl, sym, ap, ap₂, ◌∙◌, inl, inr, false, Option, none, some,
  List, [], ◌∷◌, ◌++◌, arith, length, ltb, ◌==◌, if◌then◌else◌, Bool-cases, ltb→lt, length-append,
}
use native.Mathlib.Nat.{mod-eq_of_lt}
use monoblok.Patchbay.Floats.{Floats}
use monoblok.Patchbay.Entry.{Bar}
use monoblok.Patchbay.Bars.{Close, bar_start, bar_extend, close_of, bar_tick_update}

abbrev a_close : {N : Type 0} → N → N → N → N → Close N
a_close f h l z = record { first = f; high = h; low = l; last = z }

pub close_eq :
    {N : Type 0} {f f' h h' l l' z z' : N}
    → f ≡ f'
    → h ≡ h'
    → l ≡ l'
    → z ≡ z'
    → a_close f h l z ≡ a_close f' h' l' z'
close_eq p q r s = λ i. a_close (p i) (q i) (r i) (s i)

module _ (F : Floats) where
  -- The greatest of values, the least, and the last.
  unfoldable pub greatest : F.Num → List F.Num → F.Num
  greatest acc [] = acc
  greatest acc (x ∷ xs) = greatest (if F.lt acc x then x else acc) xs

  unfoldable pub least : F.Num → List F.Num → F.Num
  least acc [] = acc
  least acc (x ∷ xs) = least (if F.lt x acc then x else acc) xs

  unfoldable pub last_of : F.Num → List F.Num → F.Num
  last_of acc [] = acc
  last_of acc (x ∷ xs) = last_of x xs

  -- The bar of the values `x ∷ xs`.
  unfoldable pub bar_of : F.Num → List F.Num → Close F.Num
  bar_of x xs = record { first = x; high = greatest x xs; low = least x xs; last = last_of x xs }

  greatest-snoc :
      (acc : F.Num) (xs : List F.Num) (y : F.Num)
      → greatest acc (xs ++ y ∷ []) ≡ (if F.lt (greatest acc xs) y then y else greatest acc xs)
  unfolding greatest
  greatest-snoc acc [] y = refl
  greatest-snoc acc (x ∷ xs) y = greatest-snoc (if F.lt acc x then x else acc) xs y

  least-snoc :
      (acc : F.Num) (xs : List F.Num) (y : F.Num)
      → least acc (xs ++ y ∷ []) ≡ (if F.lt y (least acc xs) then y else least acc xs)
  unfolding least
  least-snoc acc [] y = refl
  least-snoc acc (x ∷ xs) y = least-snoc (if F.lt x acc then x else acc) xs y

  pub last_of-snoc : (acc : F.Num) (xs : List F.Num) (y : F.Num) → last_of acc (xs ++ y ∷ []) ≡ y
  unfolding last_of
  last_of-snoc acc [] y = refl
  last_of-snoc acc (x ∷ xs) y = last_of-snoc x xs y

  -- What a bar has collected since it was closed.
  pub data Collects : List F.Num → Bar F.Num → Type 0 where
    nothing : (b : Bar F.Num) → b.count ≡ 0 → Collects [] b
    some_values :
        (b : Bar F.Num) (x : F.Num) (xs : List F.Num)
        → b.count ≡ length xs + 1
        → b.first ≡ x
        → b.high ≡ greatest x xs
        → b.low ≡ least x xs
        → Collects (x ∷ xs) b

  pub collected : List F.Num → F.Num → Close F.Num
  collected [] y = bar_of y []
  collected (x ∷ xs) y = bar_of x (xs ++ y ∷ [])

  -- What is closed by a run of values in bars of `cap`, after the values `seen`.
  pub reference_bars : ℕ → List F.Num → List F.Num → List (Option (Close F.Num))
  reference_bars cap seen [] = []
  reference_bars cap seen (y ∷ ys) =
      if ltb (length seen + 1) cap
      then none ∷ reference_bars cap (seen ++ y ∷ []) ys
      else some (collected seen y) ∷ reference_bars cap [] ys

  -- What `bar_tick_update` closes over a run of values.
  pub tick_run : Bar F.Num → List F.Num → List (Option (Close F.Num))
  tick_run b [] = []
  tick_run b (y ∷ ys) = let (c, b') = bar_tick_update F b y in c ∷ tick_run b' ys

  extended_eq :
      (x : F.Num) (xs : List F.Num) (b : Bar F.Num) (y : F.Num)
      → b.count ≡ length xs + 1
      → b.high ≡ greatest x xs
      → b.low ≡ least x xs
      → length xs + 1 < 2 ^ 32 - 1
      → ((bar_extend F b y).high ≡ greatest x (xs ++ y ∷ []))
        × ((bar_extend F b y).low ≡ least x (xs ++ y ∷ []))
        × ((bar_extend F b y).count ≡ length xs + 1 + 1)
  unfolding bar_extend
  extended_eq x xs b y k g l h = (
    ap (λ z. if F.lt z y then y else z) g ∙ sym (greatest-snoc x xs y),
    ap (λ z. if F.lt y z then y else z) l ∙ sym (least-snoc x xs y),
    ap (λ n. (n + 1) % 2 ^ 32) k ∙ mod-eq_of_lt (omega arith),
  )

  pub extend-Collects :
      (x : F.Num) (xs : List F.Num) (b : Bar F.Num) (y : F.Num)
      → Collects (x ∷ xs) b
      → length xs + 1 < 2 ^ 32 - 1
      → ((b.count == 0) ≡ false) × Collects (x ∷ (xs ++ y ∷ [])) (bar_extend F b y)
  unfolding bar_extend
  extend-Collects x xs b y (some_values _ _ _ k f g l) h =
      let (high, low, count) = extended_eq x xs b y k g l h in
      (
        ground arith,
        some_values (bar_extend F b y) x (xs ++ y ∷ [])
            (count ∙ ap (λ n. n + 1) (sym (length-append xs (y ∷ [])))) f high low,
      )

  -- A bar with one value more.
  abbrev more : Bar F.Num → F.Num → Bar F.Num
  more b y = if b.count == 0 then bar_start F b y else bar_extend F b y

  more-Collects :
      (seen : List F.Num) (b : Bar F.Num) (y : F.Num)
      → Collects seen b
      → length seen < 2 ^ 32 - 1
      → Collects (seen ++ y ∷ []) (more b y)
        × (close_of F (more b y) y ≡ collected seen y)
        × ((more b y).count ≡ length seen + 1)
        × ((more b y).cap ≡ b.cap)
  unfolding bar_start bar_extend close_of collected bar_of greatest least last_of
  more-Collects [] b y (nothing _ k) h =
      rw k (some_values _ y [] refl refl refl refl, refl, refl, refl)
  more-Collects (x ∷ xs) b y (some_values _ _ _ k f g l) h =
      let (open_bar, longer) =
        extend-Collects x xs b y (some_values b x xs k f g l) (omega arith) in
      let (high, low, count) = extended_eq x xs b y k g l (omega arith) in
      rw open_bar
        (longer, close_eq f high low (sym (last_of-snoc x xs y)), count ∙ omega arith, refl)

  -- In bars of `cap` values, which is less than 2^32, `bar_tick_update` closes a bar at each `cap`th
  -- value of a run and at no other: its open is the first of those values, its close the last, and its
  -- high and low the greatest and the least. `seen` are the values before the run in the open bar.
  pub tick_run-eq :
      (ys seen : List F.Num) (b : Bar F.Num)
      → Collects seen b
      → length seen < b.cap
      → b.cap < 2 ^ 32
      → tick_run b ys ≡ reference_bars b.cap seen ys
  unfolding tick_run reference_bars bar_tick_update
  tick_run-eq [] seen b c h w = refl
  tick_run-eq (y ∷ ys) seen b c h w =
      let (k, e, n, same) = more-Collects seen b y c (omega arith) in
      let test : ltb (more b y).count (more b y).cap ≡ ltb (length seen + 1) b.cap =
        ap₂ ltb n same in
      let m = more b y in
      let emptied : Bar F.Num = record m { count = 0 } in
      elim (Bool-cases (ltb (length seen + 1) b.cap)) [
        | inl c ↦
            let lt = ltb→lt (length seen + 1) b.cap c in
            rw (test ∙ c, c)
              (ap (◌∷◌ none) (
                tick_run-eq ys (seen ++ y ∷ []) m k
                  (omega (arith, same, length-append seen (y ∷ []))) (omega (arith, same))
                ∙ ap (λ cap. reference_bars cap (seen ++ y ∷ []) ys) same))
        | inr c ↦
            rw (test ∙ c, c)
              (ap₂ ◌∷◌ (ap some e) (
                tick_run-eq ys [] emptied (nothing emptied refl) (omega (arith, same))
                  (omega (arith, same))
                ∙ ap (λ cap. reference_bars cap [] ys) same))
      ]
