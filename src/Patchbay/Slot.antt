-- ===== src/Patchbay/Slot.antt =====
-- src/patchbay/pb_eval.c and pb_eval.h: what a form is given, and how it works on its entry.
use monoblok.Shared.{
  ℕ, ◌+◌, ◌%◌, ◌^◌, Bool, true, false, Option, none, some, Bytes, get_elem?, set, if◌then◌else◌,
}
use monoblok.Patchbay.Floats.{Floats}
use monoblok.Patchbay.Value.{Value, EvalError, Result, ok, fail, oom, nil}
use monoblok.Patchbay.Entry.{Entry}
use monoblok.Patchbay.State.{State, state_slot}

-- The fields of `pb_eval_ctx` that a form reads. Its `publish` is a parameter of the forms that call
-- it, and `alloc` answers for the heap and `scratch` for the arena.
pub record Context : Type 0 where
  pub rule_id : ℕ
  pub now_ms : ℕ
  pub replaying : Bool
  pub subject : Bytes
  pub payload : Bytes

-- What a form changes: the state of the rule and the counter `publishes_suppressed`.
pub record Machine (N : Type 0) : Type 0 where
  pub state : State N
  pub suppressed : ℕ

-- `pb_eval_note_suppressed`
pub note_suppressed : {N : Type 0} → Machine N → Machine N
note_suppressed m = record m { suppressed = (m.suppressed + 1) % 2 ^ 64 }

-- What a form makes of its entry: its result, the entry, and whether it notes a suppression.
pub record Outcome (N : Type 0) : Type 0 where
  pub result : Result N
  pub entry : Entry N
  pub quiet : Bool

-- The three ends that a form has.
unfoldable pub passes : {N : Type 0} → Value N → Entry N → Outcome N
passes v e = record { result = ok v; entry = e; quiet = false }

unfoldable pub suppresses : {N : Type 0} → Entry N → Outcome N
suppresses e = record { result = ok nil; entry = e; quiet = true }

unfoldable pub refuses : {N : Type 0} → EvalError → Entry N → Outcome N
refuses error e = record { result = fail error; entry = e; quiet = false }

module _ {N : Type 0} where
  -- The entry at a position, changed.
  pub put_entry : Machine N → ℕ → Entry N → Machine N
  put_entry m i e = record m { state = record (m.state) { items = set m.state.items i e } }

  pub store_outcome : Machine N → ℕ → Outcome N → Result N × Machine N
  store_outcome m i o =
      let stored = put_entry m i o.entry in
      (o.result, if o.quiet then note_suppressed stored else stored)

  pub at_slot : (Entry N → Outcome N) → Machine N → Option ℕ × State N → Result N × Machine N
  at_slot step m (none, s) = (fail oom, record m { state = s })
  at_slot step m (some i, s) = elim (get_elem? s.items i) [
    | none ↦ (fail oom, record m { state = s })
    | some e ↦ store_outcome (record m { state = s }) i (step e)
  ]

-- A result beside what a publish leaves.
pub beside : {N W : Type 0} → Result N × (Machine N × W) → Result N × Machine N × W
beside (r, (m, w)) = (r, m, w)

-- `slot = state_slot(ctx, op)`, with the refusal where it is NULL, and what the form does with the
-- entry.
pub with_slot :
    (F : Floats)
    → (ℕ → Bool)
    → Context
    → Bytes
    → (Entry F.Num → Outcome F.Num)
    → Machine F.Num
    → Result F.Num × Machine F.Num
with_slot F alloc ctx op step m =
    at_slot step m (state_slot (F.of_nat 0) alloc m.state ctx.rule_id op ctx.subject)
