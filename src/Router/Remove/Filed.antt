-- ===== src/Router/Remove/Filed.antt =====
-- The removal of subscriptions from the router: those that go.
use monoblok.Shared.{
  ℕ, zero, suc, ◌+◌, ◌≤◌, ◌<◌, ◌≡◌, refl, sym, ap, subst, ◌∙◌, inl, inr, Option, none, some, List,
  [], ◌∷◌, arith, length, get_elem?, set, ltb, ◌==◌, Bool-cases, ==_iff, ltb→lt, get_elem?-some,
  get_elem?-lt, length-set, get_elem?-set_self, get_elem?-set_ne,
}
use monoblok.Router.State.{Sub, SubList, Bucket, Buckets, World}
use monoblok.Router.Remove.{
  Action, keep, change, sweep_list, remove_bucket_at, sweep_bucket_end, sweep_bucket_at,
  sweep_buckets, sweep_router,
}
use monoblok.Router.Remove.Lists.{Clean, Done, length-swap_remove, swap_remove-before, sweep-Clean}

module _ (act : Sub → Action) (P : Sub → Type 0) (kept : (s : Sub) → act s ≡ keep → P s)
    (changed : (s t : Sub) → act s ≡ change t → P t) where
  sweep_list-Done : (w : World) (list : SubList) → Done P (sweep_list act w list).1.items
  unfolding sweep_list
  sweep_list-Done w list =
      sweep-Clean act P kept changed (length list.items) w list.items 0 (omega arith)
        (λ j s l g. absurd (omega arith))

  abbrev BucketDone : Bucket → Type 0
  BucketDone b = Done P b.subs.items

  -- Every bucket of an array has such subscriptions only.
  abbrev AllDone : Buckets → Type 0
  AllDone bs = (j : ℕ) (b : Bucket) → get_elem? bs.items j ≡ some b → BucketDone b

  module _ (continue : World → Buckets → ℕ → World × Buckets) (fuel : ℕ)
      (go : (v : World) (bs : Buckets) (k : ℕ)
        → length bs.items ≤ k + fuel
        → Clean BucketDone bs.items k
        → AllDone (continue v bs k).1) where
    sweep_bucket_end-Done :
        (w : World) (bs : Buckets) (i : ℕ) (subs : List Sub)
        → i < length bs.items
        → length bs.items ≤ i + suc fuel
        → Clean BucketDone bs.items (i + 1)
        → AllDone (sweep_bucket_end continue w bs i subs).1
    unfolding sweep_bucket_end remove_bucket_at
    sweep_bucket_end-Done w bs i [] l h c =
        go w (remove_bucket_at bs i) i (omega (arith, length-swap_remove bs.items i l))
          (λ j b m g. c j b (omega arith) (sym (swap_remove-before bs.items i j l m) ∙ g))
    sweep_bucket_end-Done w bs i (s ∷ rest) l h c = go w bs (i + 1) (omega arith) c

    sweep_bucket_at-Done :
        (w : World) (bs : Buckets) (i : ℕ) (o : Option Bucket)
        → get_elem? bs.items i ≡ o
        → length bs.items ≤ i + suc fuel
        → Clean BucketDone bs.items i
        → AllDone (sweep_bucket_at continue act w bs i o).1
    unfolding sweep_bucket_at
    sweep_bucket_at-Done w bs i none e h c = λ j b g. elim (Bool-cases (ltb j i)) [
      | inl before ↦ c j b (ltb→lt j i before) g
      | inr after ↦
          let (a, f) = get_elem?-some bs.items i (ground (arith, get_elem?-lt bs.items j b g)) in
          absurd (ground arith)
    ]
    sweep_bucket_at-Done w bs i (some b) e h c =
        let r = sweep_list act w b.subs in
        let b' : Bucket = record b { subs = r.1 } in
        let l : i < length bs.items = get_elem?-lt bs.items i b e in
        sweep_bucket_end-Done r.0 (record bs { items = set bs.items i b' }) i r.1.items
          (omega (arith, length-set bs.items i b')) (omega (arith, length-set bs.items i b'))
          (λ j x m g. elim (Bool-cases (j == i)) [
            | inl same ↦
                let f : some b' ≡ some x =
                  sym (get_elem?-set_self bs.items i b' l)
                  ∙ ap (get_elem? (set bs.items i b')) (sym ((==_iff j i).0 same))
                  ∙ g in
                let f' : b' ≡ x = ground arith in subst BucketDone f' (sweep_list-Done w b.subs)
            | inr other ↦
                c j x (ground arith) (sym (get_elem?-set_ne bs.items i j b' (ground arith)) ∙ g)
          ])

  sweep_buckets-Done :
      (fuel : ℕ) (w : World) (bs : Buckets) (i : ℕ)
      → length bs.items ≤ i + fuel
      → Clean BucketDone bs.items i
      → AllDone (sweep_buckets act fuel w bs i).1
  unfolding sweep_buckets
  sweep_buckets-Done zero w bs i h c = λ j b g. c j b (omega (arith, get_elem?-lt bs.items j b g)) g
  sweep_buckets-Done (suc fuel) w bs i h c =
      sweep_bucket_at-Done (sweep_buckets act fuel) fuel (sweep_buckets-Done fuel) w bs i
        (get_elem? bs.items i) refl h c

  pub all_buckets-Done :
      (w : World) (bs : Buckets) → AllDone (sweep_buckets act (length bs.items) w bs 0).1
  all_buckets-Done w bs =
      sweep_buckets-Done (length bs.items) w bs 0 (omega arith) (λ j b l g. absurd (omega arith))

  pub sweep_router-Done :
      (w : World)
      → AllDone (sweep_router act w).router.literal
        × AllDone (sweep_router act w).router.wildcard
        × Done P (sweep_router act w).router.wildcard_global.items
  unfolding sweep_router
  sweep_router-Done w =
      let a = sweep_buckets act (length w.router.literal.items) w w.router.literal 0 in
      let b = sweep_buckets act (length w.router.wildcard.items) a.0 w.router.wildcard 0 in
      (
        all_buckets-Done w w.router.literal,
        all_buckets-Done a.0 w.router.wildcard,
        sweep_list-Done b.0 w.router.wildcard_global,
      )
