-- ===== src/Router/Publish/Queue.antt =====
-- src/router.c: the choice of one member of each queue group, made before anything is delivered.
use Prim.Native.Nat.{bit_xor}
use monoblok.Shared.{
  ℕ, ◌+◌, ◌-◌, ◌*◌, ◌/◌, ◌%◌, ◌^◌, Bool, true, false, not, ◌&&◌, ◌||◌, Option, none, some, List, [],
  ◌∷◌, Bytes, length, ◌==◌, if◌then◌else◌,
}
use monoblok.Slice.{slice_eq}
use monoblok.Router.Match.{subject_matches}
use monoblok.Router.Lvc.{lvc_subject_enabled}
use monoblok.Router.State.{Sub, World}

-- `queue_random`: xorshift64*, the new state and the number.
pub queue_random : ℕ → ℕ × ℕ
queue_random rng =
    let x = bit_xor rng (rng / 2 ^ 12) in
    let y = bit_xor x (x * 2 ^ 25 % 2 ^ 64) in
    let z = bit_xor y (y / 2 ^ 27) in
    let next = if z == 0 then 0x9e3779b97f4a7c15 else z in
    (next, next * 2685821657736338717 % 2 ^ 64)

-- `mb_queue_delivery`
pub record Group : Type 0 where
  pub subject : Bytes
  pub queue : Bytes
  pub selected : ℕ
  pub seen : ℕ
  pub is_lvc : Bool

-- `==` on the flags.
pub same_flag : Bool → Bool → Bool
same_flag true b = b
same_flag false b = not b

pub queue_group_eq : Group → Sub → Bool
queue_group_eq g s =
    same_flag g.is_lvc s.is_lvc && (slice_eq g.subject s.subject && slice_eq g.queue s.queue)

pub sub_deliverable : World → Sub → Bytes → Bool → Bool
sub_deliverable w s subject check_filter =
    if (w.conns s.conn).closed
    then false
    else if check_filter && not (subject_matches s.subject subject)
    then false
    else not s.is_lvc || lvc_subject_enabled w.router.lvc subject

-- The update of a group with one member more: the first is taken, and a later one, the `n`th, if the
-- random number is a multiple of `n`.
pub group_seen : ℕ → Group → ℕ → ℕ × Group
group_seen rng g index =
    let seen = g.seen + 1 in
    let (next, number) = queue_random rng in
    if seen == 1
    then (rng, record g { seen = seen; selected = index })
    else if number % seen == 0
    then (next, record g { seen = seen; selected = index })
    else (next, record g { seen = seen })

pub new_group : Sub → ℕ → Group
new_group s index = record {
  subject = s.subject;
  queue = s.queue;
  selected = index;
  seen = 0;
  is_lvc = s.is_lvc;
}

-- `collect_queue_delivery`: the groups so far with the subscription counted into its own; `none`
-- where the scratch array, of which `room` elements are left, is full.
pub collect : ℕ → ℕ → List Group → Sub → ℕ → Option (ℕ × List Group)
collect room rng [] s index =
    if room == 0
    then none
    else (let (rng', g) = group_seen rng (new_group s index) index in some (rng', g ∷ []))
collect room rng (g ∷ gs) s index =
    let (rng', g') = group_seen rng g index in
    let later : Option (ℕ × List Group) = elim (collect (room - 1) rng gs s index) [
      | none ↦ none
      | some (rng2, hs) ↦ some (rng2, g ∷ hs)
    ] in
    if queue_group_eq g s then some (rng', g' ∷ gs) else later

-- The first loop of `deliver_matching_list`, from position `i` on: the state of the generator, and
-- the groups unless the scratch array was full.
pub collect_all : World → Bytes → Bool → List Sub → ℕ → ℕ → List Group → ℕ × Option (List Group)
collect_all w subject check_filter [] i rng gs = (rng, some gs)
collect_all w subject check_filter (s ∷ subs) i rng gs =
    let passed = collect_all w subject check_filter subs (i + 1) rng gs in
    let counted : ℕ × Option (List Group) = elim (collect w.router.queue_cap rng gs s i) [
      | none ↦ (rng, none)
      | some (rng2, hs) ↦ collect_all w subject check_filter subs (i + 1) rng2 hs
    ] in
    if length s.queue == 0 || not (sub_deliverable w s subject check_filter)
    then passed
    else counted

pub any_selected : List Group → Sub → ℕ → Bool
any_selected [] s index = false
any_selected (g ∷ gs) s index =
    let later = any_selected gs s index in
    if g.selected == index && queue_group_eq g s then true else later

pub queue_selected : List Group → Sub → ℕ → Bool
queue_selected gs s index = if length s.queue == 0 then true else any_selected gs s index
