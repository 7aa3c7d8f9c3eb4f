-- ===== src/Router/Remove/Lists.antt =====
-- The sweep of one list: what it takes out, and what it keeps.
use monoblok.Shared.{
  ℕ, zero, suc, ◌+◌, ◌-◌, ◌≤◌, ◌<◌, ◌≡◌, refl, sym, ap, subst, ◌∙◌, ◌≢◌, inl, inr, false, Option,
  none, some, List, [], ◌∷◌, arith, length, get_elem?, set, take, ltb, ◌==◌, if◌then◌else◌,
  Bool-cases, ==_iff, ltb→lt, length-take, length-set, get_elem?-some, get_elem?-set_ne,
  get_elem?-lt, get_elem?-set_self,
}
use monoblok.Router.State.{Sub, World}
use monoblok.Router.Remove.{
  swap_remove, note_sub_removed, Action, keep, change, remove, sweep_round, sweep_at, sweep,
}

-- An element stands in a list.
abbrev pub Has {ℓ} : {A : Type ℓ} → List A → A → Type ℓ
Has xs a = (j : ℕ) × (get_elem? xs j ≡ some a)

-- What stands before a position has the property.
abbrev pub Clean {ℓ κ} : {A : Type ℓ} → (A → Type κ) → List A → ℕ → Type (ℓ ⊔ κ)
Clean P xs n = (j : ℕ) (a : _) → j < n → get_elem? xs j ≡ some a → P a

module _ {ℓ} {A : Type ℓ} where
  get_elem?-take : (xs : List A) (n j : ℕ) → j < n → get_elem? (take n xs) j ≡ get_elem? xs j
  get_elem?-take xs zero j h = elim h [ ]
  get_elem?-take [] (suc n) j h = refl
  get_elem?-take (x ∷ xs) (suc n) zero h = refl
  get_elem?-take (x ∷ xs) (suc n) (suc j) h = get_elem?-take xs n j (omega arith)

  -- The list that `swap_remove` takes its elements from.
  moved : List A → ℕ → A → List A
  moved xs i last = if i == length xs - 1 then xs else set xs i last

  length-moved : (xs : List A) (i : ℕ) (last : A) → length (moved xs i last) ≡ length xs
  unfolding moved
  length-moved xs i last = elim (Bool-cases (i == length xs - 1)) [
    | inl e ↦ rw e refl
    | inr e ↦ rw e (length-set xs i last)
  ]

  moved-ne :
      (xs : List A) (i j : ℕ) (last : A) → i ≢ j → get_elem? (moved xs i last) j ≡ get_elem? xs j
  unfolding moved
  moved-ne xs i j last h = elim (Bool-cases (i == length xs - 1)) [
    | inl e ↦ rw e refl
    | inr e ↦ rw e (get_elem?-set_ne xs i j last h)
  ]

  swap_remove_at :
      (xs : List A) (i : ℕ) (last : A)
      → get_elem? xs (length xs - 1) ≡ some last
      → swap_remove xs i ≡ take (length xs - 1) (moved xs i last)
  unfolding moved
  swap_remove_at xs i last e = rw (e, swap_remove) refl

  swap_remove-moved :
      (xs : List A) (i : ℕ)
      → i < length xs
      → (last : A) × (get_elem? xs (length xs - 1) ≡ some last)
        × (swap_remove xs i ≡ take (length xs - 1) (moved xs i last))
  swap_remove-moved xs i h =
      let (last, e) = get_elem?-some xs (length xs - 1) (omega arith) in
      (last, e, swap_remove_at xs i last e)

  pub length-swap_remove :
      (xs : List A) (i : ℕ) → i < length xs → length (swap_remove xs i) ≡ length xs - 1
  length-swap_remove xs i h =
      let (last, e, s) = swap_remove-moved xs i h in
      ap length s
      ∙ omega (arith, length-take (length xs - 1) (moved xs i last), length-moved xs i last)

  pub swap_remove-before :
      (xs : List A) (i j : ℕ)
      → i < length xs
      → j < i
      → get_elem? (swap_remove xs i) j ≡ get_elem? xs j
  swap_remove-before xs i j h l =
      let (last, e, s) = swap_remove-moved xs i h in
      ap (λ ys. get_elem? ys j) s
      ∙ get_elem?-take (moved xs i last) (length xs - 1) j (omega arith)
      ∙ moved-ne xs i j last (omega arith)

  -- The last element moves to the place that is free; the others stay.
  pub swap_remove-Has :
      (xs : List A) (i j : ℕ) (a : A)
      → i < length xs
      → i ≢ j
      → get_elem? xs j ≡ some a
      → Has (swap_remove xs i) a
  unfolding moved
  swap_remove-Has xs i j a h n g =
      let (last, e, s) = swap_remove-moved xs i h in
      let l : j < length xs = get_elem?-lt xs j a g in
      elim (Bool-cases (j == length xs - 1)) [
        | inr before ↦ (
          j,
          ap (λ ys. get_elem? ys j) s
              ∙ get_elem?-take (moved xs i last) (length xs - 1) j (ground arith)
              ∙ moved-ne xs i j last n
              ∙ g,
        )
        | inl at_end ↦
            let q : j ≡ length xs - 1 = (==_iff j (length xs - 1)).0 at_end in
            let d : (i == length xs - 1) ≡ false = ground arith in
            let same : some last ≡ some a = sym e ∙ ap (get_elem? xs) (sym q) ∙ g in
            (
              i,
              ap (λ ys. get_elem? ys i) s
                  ∙ get_elem?-take (moved xs i last) (length xs - 1) i (ground arith)
                  ∙ rw d (get_elem?-set_self xs i last h)
                  ∙ same,
            )
      ]

-- Every item of what a sweep leaves has the property.
abbrev pub Done : (Sub → Type 0) → List Sub → Type 0
Done P xs = (j : ℕ) (s : Sub) → get_elem? xs j ≡ some s → P s

module _ (act : Sub → Action) (P : Sub → Type 0) (kept : (s : Sub) → act s ≡ keep → P s)
    (changed : (s t : Sub) → act s ≡ change t → P t) where
  module _ (continue : World → List Sub → ℕ → World × List Sub) (fuel : ℕ)
      (go : (v : World) (xs : List Sub) (k : ℕ)
        → length xs ≤ k + fuel
        → Clean P xs k
        → Done P (continue v xs k).1)
      (w : World) (items : List Sub) (i : ℕ) (h : length items ≤ i + suc fuel)
      (c : Clean P items i) where
    sweep_round-Clean :
        (sub : Sub) (a : Action)
        → get_elem? items i ≡ some sub
        → act sub ≡ a
        → Done P (sweep_round continue w items i sub a).1
    unfolding sweep_round
    sweep_round-Clean sub keep e q = go w items (i + 1) (omega arith) (λ j s l g.
        elim (Bool-cases (j == i)) [
          | inl same ↦
              let f : some sub ≡ some s =
                sym e ∙ ap (get_elem? items) (sym ((==_iff j i).0 same)) ∙ g in
              kept s (ground arith)
          | inr other ↦ c j s (ground arith) g
        ])
    sweep_round-Clean sub (change t) e q =
        let l : i < length items = get_elem?-lt items i sub e in
        go w (set items i t) (i + 1) (omega (arith, length-set items i t)) (λ j s m g.
          elim (Bool-cases (j == i)) [
            | inl same ↦
                let f : some t ≡ some s =
                  sym (get_elem?-set_self items i t l)
                  ∙ ap (get_elem? (set items i t)) (sym ((==_iff j i).0 same))
                  ∙ g in
                let f' : t ≡ s = ground arith in subst P f' (changed sub t q)
            | inr other ↦
                c j s (ground arith) (sym (get_elem?-set_ne items i j t (ground arith)) ∙ g)
          ])
    sweep_round-Clean sub remove e q =
        let l : i < length items = get_elem?-lt items i sub e in
        go (note_sub_removed w sub) (swap_remove items i) i
          (omega (arith, length-swap_remove items i l))
          (λ j s m g. c j s m (sym (swap_remove-before items i j l m) ∙ g))

    sweep_at-Clean :
        (o : Option Sub) → get_elem? items i ≡ o → Done P (sweep_at continue act w items i o).1
    unfolding sweep_at
    sweep_at-Clean none e j s g = elim (Bool-cases (ltb j i)) [
      | inl before ↦ c j s (ltb→lt j i before) g
      | inr after ↦
          let (a, f) = get_elem?-some items i (ground (arith, get_elem?-lt items j s g)) in
          absurd (ground arith)
    ]
    sweep_at-Clean (some sub) e j s g = sweep_round-Clean sub (act sub) e refl j s g

  -- With a round for each item that is left, every item of the result has the property.
  pub sweep-Clean :
      (fuel : ℕ) (w : World) (items : List Sub) (i : ℕ)
      → length items ≤ i + fuel
      → Clean P items i
      → Done P (sweep act fuel w items i).1
  unfolding sweep
  sweep-Clean zero w items i h c = λ j s g. c j s (omega (arith, get_elem?-lt items j s g)) g
  sweep-Clean (suc fuel) w items i h c =
      sweep_at-Clean (sweep act fuel) fuel (sweep-Clean fuel) w items i h c (get_elem? items i) refl

-- What a sweep keeps is still there.
module _ (act : Sub → Action) (s : Sub) (q : act s ≡ keep) where
  module _ (continue : World → List Sub → ℕ → World × List Sub)
      (go : (v : World) (xs : List Sub) (k : ℕ) → Has xs s → Has (continue v xs k).1 s) (w : World)
      (items : List Sub) (i : ℕ) (here : Has items s) where
    sweep_round-Has :
        (sub : Sub) (a : Action)
        → get_elem? items i ≡ some sub
        → act sub ≡ a
        → Has (sweep_round continue w items i sub a).1 s
    unfolding sweep_round
    sweep_round-Has sub keep e p = go w items (i + 1) here
    sweep_round-Has sub (change t) e p =
        go w (set items i t) (i + 1)
          (here.0, get_elem?-set_ne items i here.0 t (not_here sub e (λ r. cc)) ∙ here.1)
      where
        not_here : (x : Sub) → get_elem? items i ≡ some x → (act x ≢ keep) → i ≢ here.0
        not_here x e n r = n (ground arith)
    sweep_round-Has sub remove e p =
        go (note_sub_removed w sub) (swap_remove items i) i
          (swap_remove-Has items i here.0 s (get_elem?-lt items i sub e) (λ r. cc) here.1)

    sweep_at-Has :
        (o : Option Sub) → get_elem? items i ≡ o → Has (sweep_at continue act w items i o).1 s
    unfolding sweep_at
    sweep_at-Has none e = here
    sweep_at-Has (some sub) e = sweep_round-Has sub (act sub) e refl

  pub sweep-Has :
      (fuel : ℕ) (w : World) (items : List Sub) (i : ℕ)
      → Has items s
      → Has (sweep act fuel w items i).1 s
  unfolding sweep
  sweep-Has zero w items i here = here
  sweep-Has (suc fuel) w items i here =
      sweep_at-Has (sweep act fuel) (sweep-Has fuel) w items i here (get_elem? items i) refl
