-- ===== src/Router/Publish.antt =====
-- src/router.c: `mb_router_publish_with_reply_and_options`.
use monoblok.Shared.{
  ℕ, zero, suc, ◌+◌, ◌-◌, ◌*◌, ◌/◌, ◌%◌, ◌^◌, ◌≤◌, ◌<◌, min, ◌≡◌, refl, sym, ap, ap₂, subst, ◌∙◌,
  ◌≢◌, ◌↔◌, ◌⊎◌, inl, inr, Bool, true, false, not, ◌&&◌, ◌||◌, Option, none, some, List, [], ◌∷◌,
  ◌++◌, map, append-nil, append_assoc, arith, Bytes, length, get_elem?, set, take, drop, replicate,
  All, ltb, leb, ◌==◌, if◌then◌else◌, size_max, Bool-cases, Option-cases, &&_split, &&_both, ==_iff,
  codes, ltb→lt, ltb→le, lt→ltb, le→ltb, leb→le, le→leb, length-append, length-drop, length-take,
  take-append, drop-append,
}
use monoblok.Proto.Subjects.{subject_valid}
use monoblok.Router.Match.{subject_has_lvc_prefix}
use monoblok.Router.Lvc.{lvc_store}
use monoblok.Router.State.{Conn, Router, World}
use monoblok.Router.Publish.Deliver.{Progress, deliver_all}
pub mod Queue
pub mod Deliver
pub mod Bounds

-- `kick_epoch += 1` on 64 bits, which leaves 0 out.
pub next_epoch : ℕ → ℕ
next_epoch n = if (n + 1) % 2 ^ 64 == 0 then 1 else (n + 1) % 2 ^ 64

pub start_epoch : World → World
start_epoch w = record w {
  router = record (w.router) { kick_epoch = next_epoch w.router.kick_epoch };
}

-- What a publish answers, and the callbacks it makes in this order: the connections closed, those
-- kicked, and the bridge.
pub record Published : Type 0 where
  pub ok : Bool
  pub close_calls : List ℕ
  pub kick_calls : List ℕ
  pub bridged : Bool

pub refused : Published
refused = record { ok = false; close_calls = []; kick_calls = []; bridged = false }

pub keep_conns : (Conn → Bool) → World → List ℕ → List ℕ
keep_conns test w [] = []
keep_conns test w (c ∷ cs) =
    let rest = keep_conns test w cs in if test (w.conns c) then c ∷ rest else rest

-- The callbacks at the end of a publish.
pub announce : Progress → Published
announce p = record {
  ok = p.ok;
  close_calls = keep_conns (λ conn. conn.has_close) p.world p.closed;
  kick_calls = keep_conns (λ conn. not conn.closed && conn.has_kick) p.world p.kicked;
  bridged = p.ok && p.world.router.has_bridge;
}

-- Which publishes are refused before anything changes.
pub publish_allowed : Bytes → Bytes → Bool
publish_allowed subject reply_to =
    subject_valid subject false
    && ((length reply_to == 0 || subject_valid reply_to false)
        && not (subject_has_lvc_prefix subject))

-- Whether the scratch arrays have room for every subscription.
pub scratch_room : Router → Bool
scratch_room r =
    not (ltb r.kick_cap r.sub_count || ltb r.close_cap r.sub_count || ltb r.queue_cap r.sub_count)

module _ (alloc : ℕ → Bool) where
  pub publish : World → Bytes → Bytes → Bytes → Published × World
  publish w subject payload reply_to =
      let (stored, lvc) = lvc_store alloc w.router.lvc subject payload in
      let w' : World = record w { router = record (w.router) { lvc = lvc } } in
      let p =
        deliver_all alloc (record { ok = true; world = start_epoch w'; kicked = []; closed = [] })
          subject payload reply_to in
      if not (publish_allowed subject reply_to)
      then (refused, w)
      else if not stored
      then (refused, w')
      else if not (scratch_room w'.router)
      then (refused, w')
      else (announce p, p.world)
