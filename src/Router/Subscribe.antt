-- ===== src/Router/Subscribe.antt =====
-- src/router.c: `mb_router_subscribe_queue`.
pub mod Replay
use monoblok.Shared.{
  ℕ, ◌+◌, ◌-◌, Bool, true, false, not, ◌&&◌, ◌||◌, Option, none, some, List, [], ◌∷◌, ◌++◌, Bytes,
  length, get_elem?, set, drop, ltb, ◌==◌, if◌then◌else◌,
}
use monoblok.Buffer.{Buf, array_reserve}
use monoblok.Slice.{slice_hash}
use monoblok.Proto.Token.{token_valid}
use monoblok.Proto.Subjects.{subject_valid}
use monoblok.Proto.Frame.{msg_frame_len, write_msg}
use monoblok.Router.Match.{
  subject_matches, first_token, is_wildcard_token, is_literal_filter, subject_has_lvc_prefix,
  lvc_prefix,
}
use monoblok.Router.Index.{locate, index_ensure, index_insert}
use monoblok.Router.Lvc.{Lvc, LvcEntry, lvc_subject_enabled, dup_size}
use monoblok.Router.State.{
  Sub, SubList, Buckets, Router, World, update, bucket_keys, max_pending, max_subs_per_conn,
  max_subs_total,
}
use monoblok.Router.Remove.{unsubscribe}

module _ (alloc : ℕ → Bool) where
  -- `sub_list_append`
  pub sub_list_append : SubList → Sub → Option SubList
  sub_list_append list sub = elim (array_reserve alloc list.cap (length list.items + 1) 80 8) [
    | none ↦ none
    | some cap ↦ some (record { items = list.items ++ sub ∷ []; cap = cap })
  ]

  -- `ensure_publish_capacity`: the three reservations, up to the first that fails.
  pub ensure_publish_capacity : Router → ℕ → Bool × Router
  ensure_publish_capacity r needed = elim (array_reserve alloc r.kick_cap needed 8 1) [
    | none ↦ (false, r)
    | some kick ↦ elim (array_reserve alloc r.close_cap needed 8 1) [
      | none ↦ (false, record r { kick_cap = kick })
      | some close ↦ elim (array_reserve alloc r.queue_cap needed 56 1) [
        | none ↦ (false, record r { kick_cap = kick; close_cap = close })
        | some queue ↦ (true, record r { kick_cap = kick; close_cap = close; queue_cap = queue })
      ]
    ]
  ]

  -- The part of `literal_bucket` and `wildcard_bucket` that makes an empty bucket at the end.
  pub create_bucket : Buckets → Bytes → Option ℕ × Buckets
  create_bucket bs key =
      elim (index_ensure alloc bs.index (bucket_keys bs.items) (length bs.items + 1)) [
        | none ↦ (none, bs)
        | some index ↦ elim (array_reserve alloc bs.cap (length bs.items + 1) 40 8) [
          | none ↦ (none, record bs { index = index })
          | some cap ↦
              if alloc (dup_size (length key))
              then (
                some (length bs.items),
                record {
                  items =
                      bs.items ++ record { key = key; subs = record { items = []; cap = 0 } } ∷ [];
                  cap = cap;
                  index = index_insert index (slice_hash key) (length bs.items);
                },
              )
              else (none, record bs { index = index; cap = cap })
        ]
      ]

  -- `literal_bucket` and `wildcard_bucket` on their arrays: the position of the bucket of the key.
  pub bucket_for : Buckets → Bytes → Bool → Option ℕ × Buckets
  bucket_for bs key create = elim (locate bs.index (bucket_keys bs.items) key) [
    | some i ↦ (some i, bs)
    | none ↦ if create then create_bucket bs key else (none, bs)
  ]

  -- `bucket != NULL && sub_list_append(&bucket->subs, sub)`
  pub append_to_bucket : Buckets → Bytes → Sub → Bool × Buckets
  append_to_bucket bs key sub =
      let (position, bs') = bucket_for bs key true in
      elim position [
        | none ↦ (false, bs')
        | some i ↦ elim (get_elem? bs'.items i) [
          | none ↦ (false, bs')
          | some b ↦ elim (sub_list_append b.subs sub) [
            | none ↦ (false, bs')
            | some subs ↦ (true, record bs' { items = set bs'.items i (record b { subs = subs }) })
          ]
        ]
      ]

  -- Where a subscription is filed: by the whole filter, by its first token, or with the wildcards.
  pub file_sub : Router → Sub → Bool × Router
  file_sub r sub =
      if is_literal_filter sub.subject
      then (let (done, bs) = append_to_bucket r.literal sub.subject sub in
          (done, record r { literal = bs }))
      else if is_wildcard_token (first_token sub.subject)
      then elim (sub_list_append r.wildcard_global sub) [
        | none ↦ (false, r)
        | some list ↦ (true, record r { wildcard_global = list })
      ]
      else (let (done, bs) = append_to_bucket r.wildcard (first_token sub.subject) sub in
          (done, record r { wildcard = bs }))

  -- One round of `emit_cached` for an entry that matches: `written` is what the write would leave,
  -- `emitted` the rounds that follow it.
  pub emit_framed : Option ℕ → Buf → Bool × Buf → Bool × Buf → Bool × Buf
  emit_framed none out written emitted = (false, out)
  emit_framed (some frame_len) out written emitted =
      if ltb max_pending (length out.bytes) || ltb (max_pending - length out.bytes) frame_len
      then (false, out)
      else if written.0
      then emitted
      else (false, written.1)

  -- The loop of `emit_cached` over the entries of the cache, writing to the buffer of a connection.
  -- The frames are those of the text protocol whatever the connection's own frame functions are.
  pub emit_entries : Lvc → Bytes → Bytes → List LvcEntry → Buf → Bool × Buf
  emit_entries lvc filter sid [] out = (true, out)
  emit_entries lvc filter sid (e ∷ entries) out =
      let written = write_msg alloc out lvc_prefix e.subject sid [] e.payload.bytes in
      let skipped = emit_entries lvc filter sid entries out in
      let emitted = emit_entries lvc filter sid entries written.1 in
      if not (lvc_subject_enabled lvc e.subject) || not (subject_matches filter e.subject)
      then skipped
      else emit_framed (msg_frame_len (length lvc_prefix) e.subject sid [] e.payload.bytes) out
          written emitted

  pub emit_cached : World → ℕ → Bytes → Bytes → Bool × World
  emit_cached w c filter sid =
      if not w.router.lvc.enabled
      then (false, w)
      else let conn = w.conns c in
        let (done, out) = emit_entries w.router.lvc filter sid w.router.lvc.entries conn.out in
        (done, record w { conns = update w.conns c (record conn { out = out }) })

  -- Whether the copies that a subscription keeps are granted.
  pub sub_copied : Bytes → Bytes → Bytes → Bool
  sub_copied subject queue sid =
      alloc (dup_size (length subject))
      && (length queue == 0 || alloc (dup_size (length queue)))
      && alloc (dup_size (length sid))

  -- `mb_router_subscribe_queue` once the subscription is filed.
  pub count_sub : World → ℕ → Bool → Bytes → Bytes → Bool × World
  count_sub w c is_lvc filter sid =
      let conn = w.conns c in
      let counted : World = record {
        router = record (w.router) { sub_count = w.router.sub_count + 1 };
        conns = update w.conns c (record conn { sub_count = conn.sub_count + 1 });
      } in
      let (emitted, w') = emit_cached counted c filter sid in
      if is_lvc
      then if emitted then (true, w') else (false, unsubscribe w' c sid 0 false)
      else (true, counted)

  -- Which subscriptions are refused before anything changes.
  pub sub_allowed : World → ℕ → Bytes → Bytes → Bytes → Bool → Bool
  sub_allowed w c match_subject queue sid is_lvc =
      not (is_lvc && (not w.router.lvc.enabled || length match_subject == 0))
      && (subject_valid match_subject true
          && (token_valid sid
              && ((length queue == 0 || token_valid queue)
                  && (ltb (w.conns c).sub_count max_subs_per_conn
                      && ltb w.router.sub_count max_subs_total))))

  pub subscribe_queue : World → ℕ → Bytes → Bytes → Bytes → Bool × World
  subscribe_queue w c subject queue sid =
      let is_lvc = subject_has_lvc_prefix subject in
      let filter = if is_lvc then drop (length lvc_prefix) subject else subject in
      let (room, r) = ensure_publish_capacity w.router (w.router.sub_count + 1) in
      let sub : Sub = record {
        conn = c;
        subject = filter;
        queue = queue;
        sid = sid;
        delivered = 0;
        max_msgs = 0;
        has_max_msgs = false;
        is_lvc = is_lvc;
      } in
      let (filed, r') = file_sub r sub in
      if not (sub_allowed w c filter queue sid is_lvc)
      then (false, w)
      else if not room
      then (false, record w { router = r })
      else if not (sub_copied filter queue sid)
      then (false, record w { router = r })
      else if not filed
      then (false, record w { router = r' })
      else count_sub (record w { router = r' }) c is_lvc filter sid
