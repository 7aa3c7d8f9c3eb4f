-- ===== src/Router/Remove/Kept.antt =====
-- The removal of subscriptions from the router: those that stay filed.
use monoblok.Shared.{
  ℕ, zero, suc, ◌+◌, ◌<◌, ◌≡◌, refl, sym, ap, ◌∙◌, ◌≢◌, inl, inr, Option, none, some, List, [], ◌∷◌,
  arith, Bytes, length, get_elem?, set, ◌==◌, Bool-cases, ==_iff, get_elem?-lt, get_elem?-set_self,
  get_elem?-set_ne,
}
use monoblok.Router.State.{Sub, Bucket, Buckets, Router, World}
use monoblok.Router.Remove.{
  Action, keep, sweep_list, remove_bucket_at, sweep_bucket_end, sweep_bucket_at, sweep_buckets,
  sweep_router,
}
use monoblok.Router.Remove.Lists.{Has, swap_remove-Has, sweep-Has}

-- A subscription stands in the bucket of a key.
pub record FiledAt (bs : Buckets) (key : Bytes) (s : Sub) : Type 0 where
  pub bucket : Bucket
  pub in_array : Has bs.items bucket
  pub keyed : bucket.key ≡ key
  pub in_list : Has bucket.subs.items s

-- What a sweep keeps stays filed under its key.
module _ (act : Sub → Action) (s : Sub) (key : Bytes) (q : act s ≡ keep) where
  module _ (continue : World → Buckets → ℕ → World × Buckets)
      (go : (v : World) (bs : Buckets) (k : ℕ)
        → FiledAt bs key s
        → FiledAt (continue v bs k).1 key s) where
    sweep_bucket_end-FiledAt :
        (w : World) (bs : Buckets) (i : ℕ) (b : Bucket)
        → get_elem? bs.items i ≡ some b
        → FiledAt bs key s
        → FiledAt (sweep_bucket_end continue w bs i b.subs.items).1 key s
    unfolding sweep_bucket_end
    sweep_bucket_end-FiledAt w bs i b e f = go_on b.subs.items refl
      where
        removed : i ≢ f.in_array.0 → FiledAt (remove_bucket_at bs i) key s
        removed n =
            unfold remove_bucket_at in
            record {
              bucket = f.bucket;
              in_array =
                  swap_remove-Has bs.items i f.in_array.0 f.bucket (get_elem?-lt bs.items i b e) n
                    f.in_array.1;
              keyed = f.keyed;
              in_list = f.in_list;
            }

        go_on :
            (subs : List Sub)
            → b.subs.items ≡ subs
            → FiledAt (sweep_bucket_end continue w bs i subs).1 key s
        go_on (x ∷ rest) r = go w bs (i + 1) f
        go_on [] r =
            let no_here : i ≢ f.in_array.0 = λ z.
              let same : some b ≡ some f.bucket =
                sym e ∙ ap (get_elem? bs.items) z ∙ f.in_array.1 in
              let same' : b ≡ f.bucket = ground arith in
              let gone : get_elem? b.subs.items f.in_list.0 ≡ some s =
                ap (λ (y : Bucket). get_elem? y.subs.items f.in_list.0) same' ∙ f.in_list.1 in
              let gone' : get_elem? {A = Sub} [] f.in_list.0 ≡ some s =
                ap (λ (ys : List Sub). get_elem? ys f.in_list.0) (sym r) ∙ gone in
              cc in
            go w (remove_bucket_at bs i) i (removed no_here)

    sweep_bucket_at-FiledAt :
        (w : World) (bs : Buckets) (i : ℕ) (o : Option Bucket)
        → get_elem? bs.items i ≡ o
        → FiledAt bs key s
        → FiledAt (sweep_bucket_at continue act w bs i o).1 key s
    unfolding sweep_bucket_at sweep_list
    sweep_bucket_at-FiledAt w bs i none e f = f
    sweep_bucket_at-FiledAt w bs i (some b) e f =
        let r = sweep_list act w b.subs in
        let b' : Bucket = record b { subs = r.1 } in
        let l : i < length bs.items = get_elem?-lt bs.items i b e in
        let after : Buckets = record bs { items = set bs.items i b' } in
        let still : FiledAt after key s = elim (Bool-cases (i == f.in_array.0)) [
          | inl same ↦
              let z : i ≡ f.in_array.0 = (==_iff i f.in_array.0).0 same in
              let x : some b ≡ some f.bucket = sym e ∙ ap (get_elem? bs.items) z ∙ f.in_array.1 in
              let x' : f.bucket ≡ b = ground arith in
              record {
                bucket = b';
                in_array = (i, get_elem?-set_self bs.items i b' l);
                keyed = ap (λ (y : Bucket). y.key) (sym x') ∙ f.keyed;
                in_list = sweep-Has act s q (length b.subs.items) w b.subs.items 0 (
                  f.in_list.0,
                  ap (λ (y : Bucket). get_elem? y.subs.items f.in_list.0) (sym x') ∙ f.in_list.1,
                );
              }
          | inr other ↦ record {
            bucket = f.bucket;
            in_array = (
              f.in_array.0,
              get_elem?-set_ne bs.items i f.in_array.0 b' (ground arith) ∙ f.in_array.1,
            );
            keyed = f.keyed;
            in_list = f.in_list;
          }
        ] in
        sweep_bucket_end-FiledAt r.0 after i b' (get_elem?-set_self bs.items i b' l) still

  sweep_buckets-FiledAt :
      (fuel : ℕ) (w : World) (bs : Buckets) (i : ℕ)
      → FiledAt bs key s
      → FiledAt (sweep_buckets act fuel w bs i).1 key s
  unfolding sweep_buckets
  sweep_buckets-FiledAt zero w bs i f = f
  sweep_buckets-FiledAt (suc fuel) w bs i f =
      sweep_bucket_at-FiledAt (sweep_buckets act fuel) (sweep_buckets-FiledAt fuel) w bs i
        (get_elem? bs.items i) refl f

-- Where a subscription is filed in the router.
pub data Filed (r : Router) (s : Sub) : Type 0 where
  as_literal : (key : Bytes) → FiledAt r.literal key s → Filed r s
  as_wildcard : (key : Bytes) → FiledAt r.wildcard key s → Filed r s
  as_global : Has r.wildcard_global.items s → Filed r s

pub sweep_router-Filed :
    (act : Sub → Action) (w : World) (s : Sub)
    → act s ≡ keep
    → Filed w.router s
    → Filed (sweep_router act w).router s
unfolding sweep_router sweep_list
sweep_router-Filed act w s q (as_literal key f) =
    as_literal key
      (sweep_buckets-FiledAt act s key q (length w.router.literal.items) w w.router.literal 0 f)
sweep_router-Filed act w s q (as_wildcard key f) = as_wildcard key (
    sweep_buckets-FiledAt act s key q (length w.router.wildcard.items)
      (sweep_buckets act (length w.router.literal.items) w w.router.literal 0).0 w.router.wildcard 0
      f)
sweep_router-Filed act w s q (as_global f) =
    let a = sweep_buckets act (length w.router.literal.items) w w.router.literal 0 in
    let b = sweep_buckets act (length w.router.wildcard.items) a.0 w.router.wildcard 0 in
    as_global (
      sweep-Has act s q (length w.router.wildcard_global.items) b.0 w.router.wildcard_global.items 0
        f)
