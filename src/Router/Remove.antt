-- ===== src/Router/Remove.antt =====
-- src/router.c: subscriptions taken out of the router.
pub mod Conns
pub mod Lists
pub mod Filed
pub mod Kept
pub mod Gone
use monoblok.Shared.{
  ℕ, zero, suc, ◌+◌, ◌-◌, ◌*◌, ◌/◌, ◌%◌, ◌^◌, ◌≤◌, ◌<◌, min, ◌≡◌, refl, sym, ap, ap₂, subst, ◌∙◌,
  ◌≢◌, ◌↔◌, ◌⊎◌, inl, inr, Bool, true, false, not, ◌&&◌, ◌||◌, Option, none, some, List, [], ◌∷◌,
  ◌++◌, map, append-nil, append_assoc, arith, Bytes, length, get_elem?, set, take, drop, replicate,
  All, ltb, leb, ◌==◌, if◌then◌else◌, size_max, Bool-cases, Option-cases, &&_split, &&_both, ==_iff,
  codes, ltb→lt, ltb→le, lt→ltb, le→ltb, leb→le, le→leb, length-append, length-drop, length-take,
  take-append, drop-append,
}
use monoblok.Slice.{slice_eq}
use monoblok.Router.Index.{index_refresh}
use monoblok.Router.State.{Conn, Sub, SubList, Bucket, Buckets, Router, World, update, bucket_keys}

-- `sub_list_remove_at` and the removal of a bucket: the last element takes the place of the `i`th.
abbrev pub swap_remove {ℓ} : {A : Type ℓ} → List A → ℕ → List A
swap_remove xs i = elim (get_elem? xs (length xs - 1)) [
  | none ↦ xs
  | some last ↦ take (length xs - 1) (if i == length xs - 1 then xs else set xs i last)
]

-- `note_sub_removed`, on the two counts.
abbrev pub less_one : ℕ → ℕ
less_one n = if ltb 0 n then n - 1 else n

pub note_sub_removed : World → Sub → World
note_sub_removed w sub =
    let c = w.conns sub.conn in
    record {
      router = record (w.router) { sub_count = less_one w.router.sub_count };
      conns = update w.conns sub.conn (record c { sub_count = less_one c.sub_count });
    }

-- What a loop over a list does with one subscription: leave it, change it, or take it out.
pub data Action : Type 0 where
  keep : Action
  change : Sub → Action
  remove : Action

-- The loops `while (i < list->len)` of `remove_for_conn_from_list`, `unsubscribe_from_list` and
-- `remove_delivered_max`, which differ in what they do with an item. Each round passes an item or
-- takes one out, so as many rounds as items are enough.
pub sweep_round :
    (World → List Sub → ℕ → World × List Sub)
    → World
    → List Sub
    → ℕ
    → Sub
    → Action
    → World × List Sub
sweep_round continue w items i sub keep = continue w items (i + 1)
sweep_round continue w items i sub (change sub') = continue w (set items i sub') (i + 1)
sweep_round continue w items i sub remove =
    continue (note_sub_removed w sub) (swap_remove items i) i

pub sweep_at :
    (World → List Sub → ℕ → World × List Sub)
    → (Sub → Action)
    → World
    → List Sub
    → ℕ
    → Option Sub
    → World × List Sub
sweep_at continue act w items i none = (w, items)
sweep_at continue act w items i (some sub) = sweep_round continue w items i sub (act sub)

pub sweep : (Sub → Action) → ℕ → World → List Sub → ℕ → World × List Sub
sweep act zero w items i = (w, items)
sweep act (suc fuel) w items i = sweep_at (sweep act fuel) act w items i (get_elem? items i)

pub sweep_list : (Sub → Action) → World → SubList → World × SubList
sweep_list act w list =
    let (w', items) = sweep act (length list.items) w list.items 0 in
    (w', record list { items = items })

-- `remove_for_conn_from_list`
pub of_conn : ℕ → Sub → Action
of_conn c sub = if not (sub.conn == c) then keep else remove

-- `unsubscribe_from_list`
pub of_sid : ℕ → Bytes → ℕ → Bool → Sub → Action
of_sid c sid max_msgs has_max_msgs sub =
    if not (sub.conn == c) || not (slice_eq sub.sid sid)
    then keep
    else if not has_max_msgs || leb max_msgs sub.delivered
    then remove
    else change (record sub { max_msgs = max_msgs; has_max_msgs = true })

-- `remove_delivered_max`
pub of_max : Sub → Action
of_max sub = if sub.has_max_msgs && leb sub.max_msgs sub.delivered then remove else keep

-- `remove_literal_bucket_at`, `remove_wildcard_bucket_at`
pub remove_bucket_at : Buckets → ℕ → Buckets
remove_bucket_at bs i =
    let items = swap_remove bs.items i in
    record bs { items = items; index = index_refresh bs.index (bucket_keys items) }

-- The end of a round over the buckets: an empty bucket goes, and another takes its place.
pub sweep_bucket_end :
    (World → Buckets → ℕ → World × Buckets) → World → Buckets → ℕ → List Sub → World × Buckets
sweep_bucket_end continue w bs i [] = continue w (remove_bucket_at bs i) i
sweep_bucket_end continue w bs i (s ∷ rest) = continue w bs (i + 1)

pub sweep_bucket_at :
    (World → Buckets → ℕ → World × Buckets)
    → (Sub → Action)
    → World
    → Buckets
    → ℕ
    → Option Bucket
    → World × Buckets
sweep_bucket_at continue act w bs i none = (w, bs)
sweep_bucket_at continue act w bs i (some b) =
    let (w', subs) = sweep_list act w b.subs in
    sweep_bucket_end continue w' (record bs { items = set bs.items i (record b { subs = subs }) }) i
      subs.items

-- `while (i < literal_len)`: each bucket is swept, and goes if it is empty.
pub sweep_buckets : (Sub → Action) → ℕ → World → Buckets → ℕ → World × Buckets
sweep_buckets act zero w bs i = (w, bs)
sweep_buckets act (suc fuel) w bs i =
    sweep_bucket_at (sweep_buckets act fuel) act w bs i (get_elem? bs.items i)

-- The three loops of `mb_router_remove_all_for` and `mb_router_unsubscribe`.
pub sweep_router : (Sub → Action) → World → World
sweep_router act w =
    let (w1, literal) = sweep_buckets act (length w.router.literal.items) w w.router.literal 0 in
    let (w2, wildcard) =
      sweep_buckets act (length w.router.wildcard.items) w1 w.router.wildcard 0 in
    let (w3, global) = sweep_list act w2 w.router.wildcard_global in
    record w3 {
      router = record (w3.router) {
        literal = literal;
        wildcard = wildcard;
        wildcard_global = global;
      };
    }

pub remove_all_for : World → ℕ → World
remove_all_for w c = sweep_router (of_conn c) w

pub unsubscribe : World → ℕ → Bytes → ℕ → Bool → World
unsubscribe w c sid max_msgs has_max_msgs = sweep_router (of_sid c sid max_msgs has_max_msgs) w
