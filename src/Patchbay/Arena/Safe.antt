-- ===== src/Patchbay/Arena/Safe.antt =====
-- What an arena gives out is aligned, lies in its blocks, and was not given out before.
use monoblok.Shared.{
  ℕ, ◌+◌, ◌-◌, ◌*◌, ◌/◌, ◌%◌, ◌≤◌, ◌<◌, ◌≡◌, refl, sym, ap, subst, ◌∙◌, ◌⊎◌, inl, inr, ◌&&◌, ◌||◌,
  Option, none, some, List, [], ◌∷◌, arith, All, ltb, leb, ◌==◌, if◌then◌else◌, size_max,
  Option-cases, if-both,
}
use native.Mathlib.Nat.{div-add-mod', mul-mod_left, mod-lt}
use monoblok.Patchbay.Arena.{
  Block, is_power_of_two, align_ptr_offset, Placed, failed, placed, no_room, place_later, place_at,
  place, block_cap, place_in_new, grow_arena, take_placed, arena_alloc,
}

-- Two ranges of addresses that do not meet.
abbrev pub Apart : ℕ → ℕ → ℕ → ℕ → Type 0
Apart p n q m = (p + n ≤ q) ⊎ (q + m ≤ p)

-- The blocks as ranges of addresses.
unfoldable pub spans : List Block → List (ℕ × ℕ)
spans [] = []
spans (b ∷ bs) = (b.base, b.cap) ∷ spans bs

abbrev pub ApartFrom : ℕ → ℕ → List (ℕ × ℕ) → Type 0
ApartFrom p n ss = All (λ s. Apart p n s.0 s.1) ss

-- Blocks inside the address space, each used within its capacity, apart from each other.
unfoldable pub ValidArena : List Block → Type 0
ValidArena [] = Unit
ValidArena (b ∷ bs) =
    (b.used ≤ b.cap)
    × ((b.base + b.cap ≤ size_max) × (ApartFrom b.base b.cap (spans bs) × ValidArena bs))

-- Whether a range of addresses is given out, and whether it lies in a block.
pub data InUse (p n : ℕ) : List Block → Type 0 where
  here : {b : Block} {bs : List Block} → b.base ≤ p → p + n ≤ b.base + b.used → InUse p n (b ∷ bs)
  there : {b : Block} {bs : List Block} → InUse p n bs → InUse p n (b ∷ bs)

pub data Inside (p n : ℕ) : List (ℕ × ℕ) → Type 0 where
  in_first : {x k : ℕ} {ss : List (ℕ × ℕ)} → x ≤ p → p + n ≤ x + k → Inside p n ((x, k) ∷ ss)
  in_later : {s : ℕ × ℕ} {ss : List (ℕ × ℕ)} → Inside p n ss → Inside p n (s ∷ ss)

InUse-Inside : (p n : ℕ) (bs : List Block) → ValidArena bs → InUse p n bs → Inside p n (spans bs)
unfolding ValidArena spans
InUse-Inside p n [] v (u) = elim u [ ]
InUse-Inside p n (b ∷ bs) (c, _) (here l r) = in_first l (omega arith)
InUse-Inside p n (b ∷ bs) (_, (_, (_, v))) (there u) = in_later (InUse-Inside p n bs v u)

-- A range in a block is apart from a range in another.
Apart-Inside :
    (x k q m p n : ℕ) (ss : List (ℕ × ℕ))
    → ApartFrom x k ss
    → Inside p n ss
    → x ≤ q
    → q + m ≤ x + k
    → Apart q m p n
Apart-Inside x k q m p n [] a i l r = elim i [ ]
Apart-Inside x k q m p n ((y, j) ∷ ss) (inl d, a) (in_first l' r') l r = inl (omega arith)
Apart-Inside x k q m p n ((y, j) ∷ ss) (inr d, a) (in_first l' r') l r = inr (omega arith)
Apart-Inside x k q m p n (s ∷ ss) (d, a) (in_later i) l r = Apart-Inside x k q m p n ss a i l r

apart_sym : (p n q m : ℕ) → Apart p n q m → Apart q m p n
apart_sym p n q m (inl h) = inr h
apart_sym p n q m (inr h) = inl h

-- What an allocation gives: `size` bytes at `p`, aligned, given out from now on, and apart from all
-- that was given out before, which still is.
pub record Given (bs : List Block) (size align p : ℕ) (bs' : List Block) : Type 0 where
  pub valid : ValidArena bs'
  pub aligned : p % align ≡ 0
  pub mine : InUse p size bs'
  pub kept : (q n : ℕ) → InUse q n bs → InUse q n bs'
  pub fresh : (q n : ℕ) → InUse q n bs → Apart q n p size

pub Gives : List Block → ℕ → ℕ → Option ℕ × List Block → Type 0
Gives bs size align (none, bs') = bs' ≡ bs
Gives bs size align (some p, bs') = Given bs size align p bs'

align_ptr_offset-aligned :
    (base used align off : ℕ)
    → align_ptr_offset base used align ≡ some off
    → 0 < align
    → (used ≤ off) × ((base + off) % align ≡ 0)
unfolding align_ptr_offset
align_ptr_offset-aligned base used align off h a =
    let up = base + used + (align - 1) in
    let round = div-add-mod' up align in
    let below = mod-lt up {m = align} a in
    let e : (base ≤ up / align * align) × (up / align * align - base ≡ off) = ground (arith, h) in
    let whole : base + off ≡ up / align * align = omega (arith, e.0, e.1) in
    (
      omega (arith, e.0, e.1, round, below),
      ap (λ n. n % align) whole ∙ mul-mod_left (up / align) align,
    )

-- What the loop gives, with the blocks where they were.
record Places (bs : List Block) (size align p : ℕ) (bs' : List Block) : Type 0 where
  given : Given bs size align p bs'
  same : spans bs' ≡ spans bs
  inside : Inside p size (spans bs)

PlacesIn : List Block → ℕ → ℕ → Placed → Type 0
PlacesIn bs size align failed = Unit
PlacesIn bs size align (placed p bs') = Places bs size align p bs'
PlacesIn bs size align no_room = Unit

placed_here :
    (b : Block) (bs : List Block) (size align off : ℕ)
    → ValidArena (b ∷ bs)
    → b.used ≤ off
    → (b.base + off) % align ≡ 0
    → off + size ≤ b.cap
    → Places (b ∷ bs) size align (b.base + off) (record b { used = off + size } ∷ bs)
unfolding ValidArena spans
placed_here b bs size align off (c, (d, (a, v))) u e r = record {
  given = record {
    valid = (r, (d, (a, v)));
    aligned = e;
    mine = here (omega arith) (omega arith);
    kept = λ q n. still q n;
    fresh = λ q n. before q n;
  };
  same = refl;
  inside = in_first (omega arith) (omega arith);
}
  where
    still : (q n : ℕ) → InUse q n (b ∷ bs) → InUse q n (record b { used = off + size } ∷ bs)
    still q n (here l r') = here l (omega arith)
    still q n (there i) = there i

    before : (q n : ℕ) → InUse q n (b ∷ bs) → Apart q n (b.base + off) size
    before q n (here l r') = inl (omega arith)
    before q n (there i) = apart_sym (b.base + off) size q n (
        Apart-Inside b.base b.cap (b.base + off) size q n (spans bs) a (InUse-Inside q n bs v i)
          (omega arith) (omega arith))

placed_later :
    (b : Block) (bs : List Block) (size align : ℕ) (later : Placed)
    → ValidArena (b ∷ bs)
    → PlacesIn bs size align later
    → PlacesIn (b ∷ bs) size align (place_later b later)
unfolding ValidArena spans PlacesIn place_later
placed_later b bs size align failed v l = tt
placed_later b bs size align no_room v l = tt
placed_later b bs size align (placed p bs') (c, (d, (a, v))) w = record {
  given = record {
    valid = (c, (d, (subst (ApartFrom b.base b.cap) (sym w.same) a, w.given.valid)));
    aligned = w.given.aligned;
    mine = there w.given.mine;
    kept = λ q n. still q n;
    fresh = λ q n. before q n;
  };
  same = ap (λ ss. (b.base, b.cap) ∷ ss) w.same;
  inside = in_later w.inside;
}
  where
    still : (q n : ℕ) → InUse q n (b ∷ bs) → InUse q n (b ∷ bs')
    still q n (here l r') = here l r'
    still q n (there i) = there (w.given.kept q n i)

    before : (q n : ℕ) → InUse q n (b ∷ bs) → Apart q n p size
    before q n (here l r') =
        Apart-Inside b.base b.cap q n p size (spans bs) a w.inside l (omega arith)
    before q n (there i) = w.given.fresh q n i

place-PlacesIn :
    (bs : List Block) (size align : ℕ)
    → ValidArena bs
    → 0 < align
    → PlacesIn bs size align (place bs size align)
unfolding place place_at PlacesIn ValidArena
place-PlacesIn [] size align v z = tt
place-PlacesIn (b ∷ bs) size align v z =
    elim (Option-cases (align_ptr_offset b.base b.used align)) [
      | inl q ↦ rw (q, place_at) tt
      | inr (off, q) ↦
          let (u, e) = align_ptr_offset-aligned b.base b.used align off q z in
          let later =
            placed_later b bs size align (place bs size align) v
              (place-PlacesIn bs size align v.1.1.1 z) in
          rw (q, place_at)
            (if-both (PlacesIn (b ∷ bs) size align) (leb off b.cap && leb size (b.cap - off))
              (λ fits. placed_here b bs size align off v u e (ground arith)) (λ _. later))
    ]

-- What the C library says of `malloc`: `n` bytes in the address space, apart from the blocks.
pub record Mallocs (malloc : List Block → ℕ → Option ℕ) : Type 0 where
  pub in_range : (bs : List Block) (n p : ℕ) → malloc bs n ≡ some p → p + n ≤ size_max
  pub apart : (bs : List Block) (n p : ℕ) → malloc bs n ≡ some p → ApartFrom p n (spans bs)

inner :
    (p n q m : ℕ) (ss : List (ℕ × ℕ)) → p ≤ q → q + m ≤ p + n → ApartFrom p n ss → ApartFrom q m ss
inner p n q m [] l r a = tt
inner p n q m ((x, k) ∷ ss) l r (inl h, a) = (inl (omega arith), inner p n q m ss l r a)
inner p n q m ((x, k) ∷ ss) l r (inr h, a) = (inr (omega arith), inner p n q m ss l r a)

module _ (malloc : List Block → ℕ → Option ℕ) (ok_malloc : Mallocs malloc) where
  new_placed :
      (bs : List Block) (size align cap base off : ℕ)
      → ValidArena bs
      → base + cap ≤ size_max
      → ApartFrom base cap (spans bs)
      → (base + off) % align ≡ 0
      → off + size ≤ cap
      → Given bs size align (base + off) (record { base = base; used = off + size; cap = cap } ∷ bs)
  unfolding ValidArena
  new_placed bs size align cap base off v d a e r = record {
    valid = (r, (d, (a, v)));
    aligned = e;
    mine = here (omega arith) (omega arith);
    kept = λ q n i. there i;
    fresh = λ q n i. apart_sym (base + off) size q n (
        Apart-Inside base cap (base + off) size q n (spans bs) a (InUse-Inside q n bs v i)
          (omega arith) (omega arith));
  }

  place_in_new-Gives :
      (bs : List Block) (size align cap : ℕ) (o : Option ℕ)
      → ValidArena bs
      → 0 < align
      → malloc bs (24 + cap) ≡ o
      → Gives bs size align (place_in_new malloc bs size align cap o)
  unfolding place_in_new Gives
  place_in_new-Gives bs size align cap none v z m = refl
  place_in_new-Gives bs size align cap (some p) v z m =
      elim (Option-cases (align_ptr_offset (p + 24) 0 align)) [
        | inl q ↦ rw (q, place_in_new) refl
        | inr (off, q) ↦
            let (u, e) = align_ptr_offset-aligned (p + 24) 0 align off q z in
            let d = ok_malloc.in_range bs (24 + cap) p m in
            let a =
              inner p (24 + cap) (p + 24) cap (spans bs) (omega arith) (omega arith)
                (ok_malloc.apart bs (24 + cap) p m) in
            rw (q, place_in_new)
              (if-both (Gives bs size align) (ltb cap off || ltb (cap - off) size) (λ _. refl)
                (λ fits.
                  new_placed bs size align cap (p + 24) off v (omega arith) a e (ground arith)))
      ]

  take_placed-Gives :
      (bs : List Block) (size align : ℕ) (w : Placed)
      → ValidArena bs
      → 0 < align
      → PlacesIn bs size align w
      → Gives bs size align (take_placed malloc bs size align w)
  unfolding take_placed PlacesIn grow_arena Gives
  take_placed-Gives bs size align failed v z w = refl
  take_placed-Gives bs size align (placed p bs') v z w = w.given
  take_placed-Gives bs size align no_room v z w =
      if-both (Gives bs size align) (ltb (size_max - align) size) (λ _. refl)
        (λ _.
          if-both (Gives bs size align) (ltb (size_max - 24) (block_cap (size + align))) (λ _. refl)
            (λ _.
              place_in_new-Gives bs size align (block_cap (size + align))
                (malloc bs (24 + block_cap (size + align))) v z refl))

  -- From a valid arena, `pb_arena_alloc` returns NULL and leaves the arena, or gives `size` bytes that
  -- are aligned (to 8 where the alignment is 0), given out from now on, and apart from all that was
  -- given out before, which still is; the arena stays valid. `malloc` gives memory in the address
  -- space that is apart from the blocks.
  pub arena_alloc-Gives :
      (bs : List Block) (size align : ℕ)
      → ValidArena bs
      → Gives bs size (if align == 0 then 8 else align) (arena_alloc malloc bs size align)
  unfolding arena_alloc Gives
  arena_alloc-Gives bs size align v =
      let a = if align == 0 then 8 else align in
      if-both (Gives bs size a) (is_power_of_two a)
        (λ _.
          take_placed-Gives bs size a (place bs size a) v (ground arith)
            (place-PlacesIn bs size a v (ground arith)))
        (λ _. refl)
