-- ===== src/Router/Publish/Deliver/Lists.antt =====
-- What delivery to a list, a bucket, and all of them does to the connections.
use monoblok.Shared.{
  ℕ, ◌+◌, ◌≤◌, Bool, true, false, not, ◌&&◌, Option, none, some, List, [], ◌∷◌, Bytes, length,
  get_elem?, size_max, if-both,
}
use monoblok.Router.Index.{locate}
use monoblok.Router.Match.{first_token}
use monoblok.Router.State.{Sub, SubList, Bucket, Buckets, World, bucket_keys}
use monoblok.Router.Remove.{of_max, sweep_list}
use monoblok.Router.Remove.Conns.{sweep_list-Evolved}
use monoblok.Router.Publish.Queue.{Group, sub_deliverable, collect_all, queue_selected}
use monoblok.Router.Publish.Deliver.{
  Progress, deliver_to_sub, deliver_each, deliver_groups, deliver_matching_list, deliver_found,
  deliver_at, deliver_bucket, set_literal, set_wildcard, set_global, deliver_all,
}
use monoblok.Router.Publish.Deliver.Output.{deliver_to_sub-Evolved}
use monoblok.Router.Evolve.{Evolved, Evolved-refl, Evolved-trans}

module _ (alloc : ℕ → Bool) (subject payload reply_to : Bytes) where
  -- A loop over the list changes the connections as one delivery does.
  deliver_each-Evolved :
      (deliver : Progress → Sub → Bytes → Bytes → Bytes → Progress × Sub)
      → ((p : Progress) (s : Sub) → Evolved p.world (deliver p s subject payload reply_to).0.world)
      → (wanted : World → Sub → ℕ → Bool) (p : Progress) (subs : List Sub) (i : ℕ)
      → Evolved p.world
          (deliver_each alloc deliver wanted subject payload reply_to p subs i).0.world
  unfolding deliver_each
  deliver_each-Evolved deliver h wanted p [] i = Evolved-refl p.world
  deliver_each-Evolved deliver h wanted p (s ∷ subs) i =
      let q = (deliver p s subject payload reply_to).0 in
      let passed = deliver_each-Evolved deliver h wanted p subs (i + 1) in
      let went_on = deliver_each-Evolved deliver h wanted q subs (i + 1) in
      let P : Progress × List Sub → Type 0 = λ r. Evolved p.world r.0.world in
      if-both P (not (wanted p.world s i)) (λ a. passed)
        (λ a.
          if-both P (q.ok)
            (λ b.
              Evolved-trans p.world q.world
                (deliver_each alloc deliver wanted subject payload reply_to q subs (i + 1)).0.world
                (h p s) went_on)
            (λ b. h p s))

module _ (alloc : ℕ → Bool) (subject payload reply_to : Bytes)
    (small : length payload ≤ size_max) where
  deliver_groups-Evolved :
      (p : Progress) (list : SubList) (check_filter : Bool) (o : Option (List Group))
      → Evolved p.world
          (deliver_groups alloc o p list subject payload reply_to check_filter).0.world
  unfolding deliver_groups
  deliver_groups-Evolved p list check_filter none = Evolved-refl p.world
  deliver_groups-Evolved p list check_filter (some gs) =
      let wanted : World → Sub → ℕ → Bool =
        λ v s i. sub_deliverable v s subject check_filter && queue_selected gs s i in
      let q =
        deliver_each alloc (deliver_to_sub alloc) wanted subject payload reply_to p list.items 0 in
      Evolved-trans p.world q.0.world (sweep_list of_max q.0.world (record list { items = q.1 })).0
        (deliver_each-Evolved alloc subject payload reply_to (deliver_to_sub alloc)
          (deliver_to_sub-Evolved alloc subject payload reply_to small) wanted p list.items 0)
        (sweep_list-Evolved of_max q.0.world (record list { items = q.1 }))

  deliver_matching_list-Evolved :
      (p : Progress) (list : SubList) (check_filter : Bool)
      → Evolved p.world
          (deliver_matching_list alloc p list subject payload reply_to check_filter).0.world
  unfolding deliver_matching_list
  deliver_matching_list-Evolved p list check_filter =
      let c = collect_all p.world subject check_filter list.items 0 p.world.router.queue_rng [] in
      let w : World = record (p.world) { router = record (p.world.router) { queue_rng = c.0 } } in
      deliver_groups-Evolved (record p { world = w }) list check_filter (c.1)

  deliver_found-Evolved :
      (p : Progress) (bs : Buckets) (i : ℕ) (check_filter : Bool) (o : Option Bucket)
      → Evolved p.world (deliver_found alloc o i p bs subject payload reply_to check_filter).0.world
  unfolding deliver_found
  deliver_found-Evolved p bs i check_filter none = Evolved-refl p.world
  deliver_found-Evolved p bs i check_filter (some b) =
      deliver_matching_list-Evolved p b.subs check_filter

  deliver_at-Evolved :
      (p : Progress) (bs : Buckets) (check_filter : Bool) (o : Option ℕ)
      → Evolved p.world (deliver_at alloc o p bs subject payload reply_to check_filter).0.world
  unfolding deliver_at
  deliver_at-Evolved p bs check_filter none = Evolved-refl p.world
  deliver_at-Evolved p bs check_filter (some i) =
      deliver_found-Evolved p bs i check_filter (get_elem? bs.items i)

  deliver_bucket-Evolved :
      (p : Progress) (bs : Buckets) (key : Bytes) (check_filter : Bool)
      → Evolved p.world
          (deliver_bucket alloc p bs key subject payload reply_to check_filter).0.world
  unfolding deliver_bucket
  deliver_bucket-Evolved p bs key check_filter =
      deliver_at-Evolved p bs check_filter (locate bs.index (bucket_keys bs.items) key)

  -- The three steps of `deliver_all`, each with the world that it leaves.
  literal-Evolved :
      (p : Progress) (bs : Buckets) (key : Bytes) (check_filter : Bool)
      → Evolved p.world
          (set_literal alloc
            (deliver_bucket alloc p bs key subject payload reply_to check_filter)).world
  unfolding set_literal
  literal-Evolved p bs key check_filter = deliver_bucket-Evolved p bs key check_filter

  wildcard-Evolved :
      (p : Progress) (bs : Buckets) (key : Bytes) (check_filter : Bool)
      → Evolved p.world
          (set_wildcard alloc
            (deliver_bucket alloc p bs key subject payload reply_to check_filter)).world
  unfolding set_wildcard
  wildcard-Evolved p bs key check_filter = deliver_bucket-Evolved p bs key check_filter

  global-Evolved :
      (p : Progress) (list : SubList) (check_filter : Bool)
      → Evolved p.world
          (set_global alloc
            (deliver_matching_list alloc p list subject payload reply_to check_filter)).world
  unfolding set_global
  global-Evolved p list check_filter = deliver_matching_list-Evolved p list check_filter

  pub deliver_all-Evolved :
      (p : Progress) → Evolved p.world (deliver_all alloc p subject payload reply_to).world
  unfolding deliver_all
  deliver_all-Evolved p =
      let P : Progress → Type 0 = λ r. Evolved p.world r.world in
      let p1 =
        set_literal alloc
          (deliver_bucket alloc p p.world.router.literal subject subject payload reply_to false) in
      let p2 = set_wildcard alloc (
        deliver_bucket alloc p1 p1.world.router.wildcard (first_token subject) subject payload
          reply_to true) in
      let p3 = set_global alloc (
        deliver_matching_list alloc p2 p2.world.router.wildcard_global subject payload reply_to
          true) in
      let one : Evolved p.world p1.world = literal-Evolved p p.world.router.literal subject false in
      let two : Evolved p1.world p2.world =
        wildcard-Evolved p1 p1.world.router.wildcard (first_token subject) true in
      let three : Evolved p2.world p3.world =
        global-Evolved p2 p2.world.router.wildcard_global true in
      let both = Evolved-trans p.world p1.world p2.world one two in
      if-both P (not p1.ok) (λ a. one)
        (λ a.
          if-both P (not p2.ok) (λ b. both)
            (λ b. Evolved-trans p.world p2.world p3.world both three))
