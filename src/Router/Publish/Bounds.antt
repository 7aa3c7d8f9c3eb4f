-- ===== src/Router/Publish/Bounds.antt =====
-- What a publish does to the connections, on every path.
use monoblok.Shared.{ℕ, ◌≤◌, Bool, true, not, [], Bytes, length, size_max, if-both}
use monoblok.Router.Lvc.{lvc_store}
use monoblok.Router.State.{World}
use monoblok.Router.Evolve.{Evolved, Evolved-refl}
use monoblok.Router.Publish.Deliver.{Progress}
use monoblok.Router.Publish.Deliver.Lists.{deliver_all-Evolved}
use monoblok.Router.Publish.{start_epoch, publish_allowed, scratch_room, Published, publish}

-- A publish of a payload within SIZE_MAX keeps the frame functions of every connection and reopens
-- none. A connection whose frames the router writes itself, and whose output is valid and within
-- `max_pending`, has its old output as a prefix of the new one, which is valid and within
-- `max_pending`.
pub publish-Evolved :
    (alloc : ℕ → Bool) (w : World) (subject payload reply_to : Bytes)
    → length payload ≤ size_max
    → Evolved w (publish alloc w subject payload reply_to).1
unfolding publish start_epoch
publish-Evolved alloc w subject payload reply_to small =
    let stored = lvc_store alloc w.router.lvc subject payload in
    let w' : World = record w { router = record (w.router) { lvc = stored.1 } } in
    let p : Progress = record { ok = true; world = start_epoch w'; kicked = []; closed = [] } in
    let P : Published × World → Type 0 = λ r. Evolved w r.1 in
    if-both P (not (publish_allowed subject reply_to)) (λ a. Evolved-refl w)
      (λ a.
        if-both P (not stored.0) (λ b. Evolved-refl w)
          (λ b.
            if-both P (not (scratch_room (w'.router))) (λ c. Evolved-refl w)
              (λ c. deliver_all-Evolved alloc subject payload reply_to small p)))
