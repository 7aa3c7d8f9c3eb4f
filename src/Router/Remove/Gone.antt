-- ===== src/Router/Remove/Gone.antt =====
-- `mb_router_remove_all_for`, and `mb_router_unsubscribe` without a limit.
use monoblok.Shared.{ℕ, ◌≡◌, ◌≢◌, ◌⊎◌, Bool, false, arith, Bytes}
use monoblok.Router.State.{Sub, World}
use monoblok.Router.Remove.{
  Action, keep, change, sweep_router, of_conn, remove_all_for, of_sid, unsubscribe,
}
use monoblok.Slice.{slice_eq_iff}
use monoblok.Router.Remove.Filed.{sweep_router-Done}
use monoblok.Router.Remove.Kept.{Filed, as_literal, as_wildcard, as_global, sweep_router-Filed}

of_conn_keep : (c : ℕ) (s : Sub) → of_conn c s ≡ keep → s.conn ≢ c
unfolding of_conn
of_conn_keep c s h e = ground arith

of_conn_no_change : (c : ℕ) (s t : Sub) → of_conn c s ≢ change t
unfolding of_conn
of_conn_no_change c s t h = ground arith

keep_of_conn : (c : ℕ) (s : Sub) → s.conn ≢ c → of_conn c s ≡ keep
unfolding of_conn
keep_of_conn c s h = ground arith

-- If a sweep keeps only what has a property, and changes nothing else, all that is filed has it.
sweep_router-gone :
    (act : Sub → Action) (P : Sub → Type 0) (w : World) (s : Sub)
    → ((x : Sub) → act x ≡ keep → P x)
    → ((x t : Sub) → act x ≡ change t → P t)
    → Filed (sweep_router act w).router s
    → P s
sweep_router-gone act P w s k c (as_literal key f) =
    (sweep_router-Done act P k c w).0 f.in_array.0 f.bucket f.in_array.1 f.in_list.0 s f.in_list.1
sweep_router-gone act P w s k c (as_wildcard key f) =
    (sweep_router-Done act P k c w).1 f.in_array.0 f.bucket f.in_array.1 f.in_list.0 s f.in_list.1
sweep_router-gone act P w s k c (as_global f) = (sweep_router-Done act P k c w).2 f.0 s f.1

-- What is filed after `mb_router_remove_all_for` is no subscription of the connection.
pub remove_all_for-gone :
    (w : World) (c : ℕ) (s : Sub) → Filed (remove_all_for w c).router s → s.conn ≢ c
unfolding remove_all_for
remove_all_for-gone w c s =
    sweep_router-gone (of_conn c) (λ (x : Sub). x.conn ≢ c) w s (of_conn_keep c)
      (λ x t h. absurd (of_conn_no_change c x t h))

-- A subscription of another connection stays filed in `mb_router_remove_all_for`.
pub remove_all_for-Filed :
    (w : World) (c : ℕ) (s : Sub)
    → Filed w.router s
    → s.conn ≢ c
    → Filed (remove_all_for w c).router s
unfolding remove_all_for
remove_all_for-Filed w c s f n = sweep_router-Filed (of_conn c) w s (keep_of_conn c s n) f

of_sid_keep :
    (c n : ℕ) (sid : Bytes) (limited : Bool) (s : Sub)
    → of_sid c sid n limited s ≡ keep
    → s.conn ≡ c
    → s.sid ≢ sid
unfolding of_sid
of_sid_keep c n sid limited s h e f = ground (arith, slice_eq_iff s.sid sid)

of_sid_no_change : (c n : ℕ) (sid : Bytes) (s t : Sub) → of_sid c sid n false s ≢ change t
unfolding of_sid
of_sid_no_change c n sid s t h = ground arith

keep_of_sid :
    (c n : ℕ) (sid : Bytes) (limited : Bool) (s : Sub)
    → (s.conn ≢ c) ⊎ (s.sid ≢ sid)
    → of_sid c sid n limited s ≡ keep
unfolding of_sid
keep_of_sid c n sid limited s h = ground (arith, slice_eq_iff s.sid sid)

-- A subscription that is filed after `mb_router_unsubscribe` without a limit, and is of the
-- connection, has another sid.
pub unsubscribe-gone :
    (w : World) (c : ℕ) (sid : Bytes) (n : ℕ) (s : Sub)
    → Filed (unsubscribe w c sid n false).router s
    → s.conn ≡ c
    → s.sid ≢ sid
unfolding unsubscribe
unsubscribe-gone w c sid n s =
    sweep_router-gone (of_sid c sid n false) (λ (x : Sub). x.conn ≡ c → x.sid ≢ sid) w s
      (of_sid_keep c n sid false) (λ x t h. absurd (of_sid_no_change c n sid x t h))

-- A subscription of another connection, or under another sid, stays filed in `mb_router_unsubscribe`,
-- with a limit or without.
pub unsubscribe-Filed :
    (w : World) (c : ℕ) (sid : Bytes) (n : ℕ) (limited : Bool) (s : Sub)
    → Filed w.router s
    → (s.conn ≢ c) ⊎ (s.sid ≢ sid)
    → Filed (unsubscribe w c sid n limited).router s
unfolding unsubscribe
unsubscribe-Filed w c sid n limited s f h =
    sweep_router-Filed (of_sid c sid n limited) w s (keep_of_sid c n sid limited s h) f
