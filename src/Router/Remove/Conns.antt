-- ===== src/Router/Remove/Conns.antt =====
-- The removal of subscriptions changes no connection but in its count.
use monoblok.Shared.{ℕ, zero, suc, ◌+◌, refl, Option, none, some, List, length, get_elem?, set}
use monoblok.Router.State.{Sub, SubList, World}
use monoblok.Router.Remove.{
  less_one, swap_remove, note_sub_removed, Action, keep, change, remove, sweep_round, sweep_at,
  sweep, sweep_list,
}
use monoblok.Router.Evolve.{Evolved, Evolves-kept, Evolved-refl, Evolved-trans, update-Evolves}

note_sub_removed-Evolved : (w : World) (sub : Sub) → Evolved w (note_sub_removed w sub)
unfolding note_sub_removed
note_sub_removed-Evolved w sub =
    update-Evolves w.conns sub.conn
      (record (w.conns sub.conn) { sub_count = less_one (w.conns sub.conn).sub_count })
      (Evolves-kept (w.conns sub.conn) _ refl refl refl (λ h. h))

module _ (continue : World → List Sub → ℕ → World × List Sub)
    (rec : (w : World) (items : List Sub) (i : ℕ) → Evolved w (continue w items i).0) (w : World)
    (items : List Sub) (i : ℕ) where
  sweep_round-Evolved :
      (sub : Sub) (a : Action) → Evolved w (sweep_round continue w items i sub a).0
  unfolding sweep_round
  sweep_round-Evolved sub keep = rec w items (i + 1)
  sweep_round-Evolved sub (change sub') = rec w (set items i sub') (i + 1)
  sweep_round-Evolved sub remove =
      Evolved-trans w (note_sub_removed w sub)
        (continue (note_sub_removed w sub) (swap_remove items i) i).0
        (note_sub_removed-Evolved w sub) (rec (note_sub_removed w sub) (swap_remove items i) i)

  sweep_at-Evolved :
      (act : Sub → Action) (o : Option Sub) → Evolved w (sweep_at continue act w items i o).0
  unfolding sweep_at
  sweep_at-Evolved act none = Evolved-refl w
  sweep_at-Evolved act (some sub) = sweep_round-Evolved sub (act sub)

pub sweep-Evolved :
    (act : Sub → Action) (fuel : ℕ) (w : World) (items : List Sub) (i : ℕ)
    → Evolved w (sweep act fuel w items i).0
unfolding sweep
sweep-Evolved act zero w items i = Evolved-refl w
sweep-Evolved act (suc fuel) w items i =
    sweep_at-Evolved (sweep act fuel) (sweep-Evolved act fuel) w items i act (get_elem? items i)

pub sweep_list-Evolved :
    (act : Sub → Action) (w : World) (list : SubList) → Evolved w (sweep_list act w list).0
unfolding sweep_list
sweep_list-Evolved act w list = sweep-Evolved act (length list.items) w list.items 0
