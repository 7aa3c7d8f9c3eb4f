-- ===== src/Router/Publish/Deliver.antt =====
-- src/router.c: delivery of a message to the subscriptions of a list, a bucket, the router.
pub mod Output
pub mod Lists
use monoblok.Shared.{
  ℕ, zero, suc, ◌+◌, ◌-◌, ◌*◌, ◌/◌, ◌%◌, ◌^◌, ◌≤◌, ◌<◌, min, ◌≡◌, refl, sym, ap, ap₂, subst, ◌∙◌,
  ◌≢◌, ◌↔◌, ◌⊎◌, inl, inr, Bool, true, false, not, ◌&&◌, ◌||◌, Option, none, some, List, [], ◌∷◌,
  ◌++◌, map, append-nil, append_assoc, arith, Bytes, length, get_elem?, set, take, drop, replicate,
  All, ltb, leb, ◌==◌, if◌then◌else◌, size_max, Bool-cases, Option-cases, &&_split, &&_both, ==_iff,
  codes, ltb→lt, ltb→le, lt→ltb, le→ltb, leb→le, le→leb, length-append, length-drop, length-take,
  take-append, drop-append,
}
use monoblok.Slice.{slice_eq}
use monoblok.Buffer.{Buf}
use monoblok.Proto.Subjects.{subject_valid}
use monoblok.Proto.Frame.{msg_frame_len, write_msg}
use monoblok.Router.Match.{first_token, subject_has_lvc_prefix, lvc_prefix}
use monoblok.Router.Index.{locate}
use monoblok.Router.Lvc.{Lvc, lvc_store}
use monoblok.Router.State.{
  Conn, Sub, SubList, Bucket, Buckets, Router, World, update, bucket_keys, max_pending,
}
use monoblok.Router.Remove.{sweep_list, of_max}
use monoblok.Router.Publish.Queue.{Group, sub_deliverable, collect_all, queue_selected}

-- A publish under way: whether it still succeeds, and the scratch arrays of connections to kick and
-- to close, in the order in which they are noted.
pub record Progress : Type 0 where
  pub ok : Bool
  pub world : World
  pub kicked : List ℕ
  pub closed : List ℕ

pub queue_conn_close : Progress → ℕ → Progress
queue_conn_close p c =
    let w = p.world in
    let conn = w.conns c in
    let marked : World = record w { conns = update w.conns c (record conn { closed = true }) } in
    let noted : World = record w {
      conns =
          update w.conns c (record conn { closed = true; close_seen_epoch = w.router.kick_epoch });
    } in
    if conn.closed
    then record p { ok = true }
    else if not conn.has_close || conn.close_seen_epoch == w.router.kick_epoch
    then record p { ok = true; world = marked }
    else if leb w.router.close_cap (length p.closed)
    then record p { ok = false; world = marked }
    else record p { ok = true; world = noted; closed = p.closed ++ c ∷ [] }

-- The end of `deliver_to_sub`: a connection is noted for a kick once in a publish.
pub note_kick : Progress → ℕ → Progress
note_kick p c =
    let w = p.world in
    let conn = w.conns c in
    let noted : World = record w {
      conns = update w.conns c (record conn { kick_seen_epoch = w.router.kick_epoch });
    } in
    if conn.has_kick && not (conn.kick_seen_epoch == w.router.kick_epoch)
    then record p { ok = true; world = noted; kicked = p.kicked ++ c ∷ [] }
    else record p { ok = true }

-- The length of the frame, by the connection's own function where it has one.
pub measure : Conn → Bytes → Bytes → Bytes → Bytes → Bytes → Option ℕ
measure conn prefix subject sid reply_to payload = elim (conn.msg_len) [
  | none ↦ msg_frame_len (length prefix) subject sid reply_to payload
  | some f ↦ f prefix subject sid reply_to payload
]

module _ (alloc : ℕ → Bool) where
  pub write : Conn → Bytes → Bytes → Bytes → Bytes → Bytes → Bool × Buf
  write conn prefix subject sid reply_to payload = elim (conn.write_msg) [
    | none ↦ write_msg alloc conn.out prefix subject sid reply_to payload
    | some f ↦ f conn.out prefix subject sid reply_to payload
  ]

  pub delivered_once : Sub → Sub
  delivered_once sub = record sub { delivered = sub.delivered + 1 }

  -- `deliver_to_sub` where the frame has the length measured.
  pub deliver_frame : Progress → Sub → Bytes → Bytes → Bytes → Bytes → ℕ → Progress × Sub
  deliver_frame p sub prefix subject reply_to payload frame_len =
      let conn = p.world.conns sub.conn in
      let (wrote, out) = write conn prefix subject sub.sid reply_to payload in
      let w : World = record (p.world) {
        conns = update p.world.conns sub.conn (record conn { out = out });
      } in
      if frame_len == 0
      then (record p { ok = true }, delivered_once sub)
      else if ltb max_pending (length conn.out.bytes)
          || ltb (max_pending - length conn.out.bytes) frame_len
      then (queue_conn_close p sub.conn, sub)
      else if not wrote
      then (record p { ok = false; world = w }, sub)
      else (note_kick (record p { world = w }) sub.conn, delivered_once sub)

  -- `deliver_to_sub` with what was measured.
  pub deliver_measured : Option ℕ → Progress → Sub → Bytes → Bytes → Bytes → Bytes → Progress × Sub
  deliver_measured none p sub prefix subject payload reply_to = (record p { ok = false }, sub)
  deliver_measured (some frame_len) p sub prefix subject payload reply_to =
      deliver_frame p sub prefix subject reply_to payload frame_len

  pub deliver_to_sub : Progress → Sub → Bytes → Bytes → Bytes → Progress × Sub
  deliver_to_sub p sub subject payload reply_to =
      let prefix = if sub.is_lvc then lvc_prefix else [] in
      deliver_measured (measure (p.world.conns sub.conn) prefix subject sub.sid reply_to payload) p
        sub prefix subject payload reply_to

  -- The second loop of `deliver_matching_list`, from position `i` on: it stops at a failure.
  pub deliver_each :
      (Progress → Sub → Bytes → Bytes → Bytes → Progress × Sub)
      → (World → Sub → ℕ → Bool)
      → Bytes
      → Bytes
      → Bytes
      → Progress
      → List Sub
      → ℕ
      → Progress × List Sub
  deliver_each deliver wanted subject payload reply_to p [] i = (record p { ok = true }, [])
  deliver_each deliver wanted subject payload reply_to p (s ∷ subs) i =
      let (passed, rest) = deliver_each deliver wanted subject payload reply_to p subs (i + 1) in
      let (p', s') = deliver p s subject payload reply_to in
      let (q, rest') = deliver_each deliver wanted subject payload reply_to p' subs (i + 1) in
      if not (wanted p.world s i)
      then (passed, s ∷ rest)
      else if p'.ok
      then (q, s' ∷ rest')
      else (p', s' ∷ subs)

  -- The part of `deliver_matching_list` that follows its first loop.
  pub deliver_groups :
      Option (List Group) → Progress → SubList → Bytes → Bytes → Bytes → Bool → Progress × SubList
  deliver_groups none p list subject payload reply_to check_filter = (record p { ok = false }, list)
  deliver_groups (some gs) p list subject payload reply_to check_filter =
      let wanted : World → Sub → ℕ → Bool =
        λ v s i. sub_deliverable v s subject check_filter && queue_selected gs s i in
      let (q, items) = deliver_each deliver_to_sub wanted subject payload reply_to p list.items 0 in
      let (w, list') = sweep_list of_max q.world (record list { items = items }) in
      (record q { world = w }, list')

  -- `deliver_matching_list`
  pub deliver_matching_list : Progress → SubList → Bytes → Bytes → Bytes → Bool → Progress × SubList
  deliver_matching_list p list subject payload reply_to check_filter =
      let (rng, groups) =
        collect_all p.world subject check_filter list.items 0 p.world.router.queue_rng [] in
      let w : World = record (p.world) { router = record (p.world.router) { queue_rng = rng } } in
      deliver_groups groups (record p { world = w }) list subject payload reply_to check_filter

  pub deliver_found :
      Option Bucket → ℕ → Progress → Buckets → Bytes → Bytes → Bytes → Bool → Progress × Buckets
  deliver_found none i p bs subject payload reply_to check_filter = (p, bs)
  deliver_found (some b) i p bs subject payload reply_to check_filter =
      let (q, subs) = deliver_matching_list p b.subs subject payload reply_to check_filter in
      (q, record bs { items = set bs.items i (record b { subs = subs }) })

  pub deliver_at : Option ℕ → Progress → Buckets → Bytes → Bytes → Bytes → Bool → Progress × Buckets
  deliver_at none p bs subject payload reply_to check_filter = (p, bs)
  deliver_at (some i) p bs subject payload reply_to check_filter =
      deliver_found (get_elem? bs.items i) i p bs subject payload reply_to check_filter

  -- The bucket of a key, if there is one, has its list delivered to.
  pub deliver_bucket :
      Progress → Buckets → Bytes → Bytes → Bytes → Bytes → Bool → Progress × Buckets
  deliver_bucket p bs key subject payload reply_to check_filter =
      deliver_at (locate bs.index (bucket_keys bs.items) key) p bs subject payload reply_to
        check_filter

  pub set_literal : Progress × Buckets → Progress
  set_literal (p, bs) = record p {
    world = record (p.world) { router = record (p.world.router) { literal = bs } };
  }

  pub set_wildcard : Progress × Buckets → Progress
  set_wildcard (p, bs) = record p {
    world = record (p.world) { router = record (p.world.router) { wildcard = bs } };
  }

  pub set_global : Progress × SubList → Progress
  set_global (p, list) = record p {
    world = record (p.world) { router = record (p.world.router) { wildcard_global = list } };
  }

  -- The three deliveries of a publish, up to the first that fails.
  pub deliver_all : Progress → Bytes → Bytes → Bytes → Progress
  deliver_all p subject payload reply_to =
      let p1 =
        set_literal
          (deliver_bucket p p.world.router.literal subject subject payload reply_to false) in
      let p2 = set_wildcard (
        deliver_bucket p1 p1.world.router.wildcard (first_token subject) subject payload reply_to
          true) in
      let p3 =
        set_global (
          deliver_matching_list p2 p2.world.router.wildcard_global subject payload reply_to true) in
      if not p1.ok then p1 else if not p2.ok then p2 else p3
