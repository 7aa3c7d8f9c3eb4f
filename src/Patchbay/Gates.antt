-- ===== src/Patchbay/Gates.antt =====
-- src/patchbay/pb_form_state.c: the forms that compare with what a rule saw before. `…_step` is what
-- a form does with its entry, `call_…` the form on its evaluated arguments.
pub mod Calls
pub mod Runs
pub mod Squelch
use monoblok.Shared.{
  ℕ, zero, suc, ◌+◌, ◌-◌, ◌*◌, ◌/◌, ◌%◌, ◌^◌, ◌≤◌, ◌<◌, min, ◌≡◌, refl, sym, ap, ap₂, subst, ◌∙◌,
  ◌≢◌, ◌↔◌, ◌⊎◌, inl, inr, Bool, true, false, not, ◌&&◌, ◌||◌, Option, none, some, List, [], ◌∷◌,
  ◌++◌, map, append-nil, append_assoc, arith, Bytes, length, get_elem?, set, take, drop, replicate,
  All, ltb, leb, ◌==◌, if◌then◌else◌, size_max, Bool-cases, Option-cases, &&_split, &&_both, ==_iff,
  codes, ltb→lt, ltb→le, lt→ltb, le→ltb, leb→le, le→leb, length-append, length-drop, length-take,
  take-append, drop-append,
}
use monoblok.Slice.{slice_eq}
use monoblok.Proto.Subjects.{subject_valid}
use monoblok.Router.Match.{subject_has_lvc_prefix, subject_has_stats_prefix}
use monoblok.Patchbay.Floats.{Floats, whole}
use monoblok.Patchbay.Value.{
  Value, Values, nil, boolean, number, symbol, keyword, string, list, vector, none_left, cons,
  Result, ok, fail, oom, type_mismatch, arity_mismatch, invalid_subject, publish_failed, truthy,
  as_string, as_number, coerce_payload,
}
use monoblok.Patchbay.Entry.{
  Kind, empty, number_kind, bytes_kind, ring_kind, bar_kind, clock_kind, Entry, set_bytes,
}
use monoblok.Patchbay.Slot.{
  Context, Machine, Outcome, passes, suppresses, refuses, note_suppressed, with_slot,
}

pub is_empty : Kind → Bool
is_empty empty = true
is_empty _ = false

pub is_number : Kind → Bool
is_number number_kind = true
is_number _ = false

pub is_bytes : Kind → Bool
is_bytes bytes_kind = true
is_bytes _ = false

-- `(pb_value){…}` for what passes, and `PB_NIL`.
abbrev value_or_nil : {N : Type 0} → Bool → Value N → Value N
value_or_nil b v = if b then v else nil

module _ (F : Floats) where
  -- `slot->kind = PB_EVAL_STATE_NUMBER; slot->number = x;`
  pub keep_number : Entry F.Num → F.Num → Entry F.Num
  keep_number e x = record e { kind = number_kind; number = x }

  -- `cur ? 1.0 : 0.0`, and `slot->number != 0.0`.
  pub flag : Bool → F.Num
  flag b = if b then F.of_nat 1 else F.of_nat 0

  pub flagged : F.Num → Bool
  flagged x = not (F.eq x (F.of_nat 0))

  -- `call_hold_off` on its entry.
  pub hold_off_step : F.Num → ℕ → Value F.Num → Entry F.Num → Outcome F.Num
  hold_off_step window now v e =
      if is_empty e.kind
      then passes v (keep_number e (F.of_nat now))
      else if not (is_number e.kind)
      then refuses type_mismatch e
      else if F.lt (F.of_nat now) e.number || F.lt (F.sub (F.of_nat now) e.number) window
      then suppresses e
      else passes v (record e { number = F.of_nat now })

  -- `call_edge` on its entry.
  pub edge_step : Bool → Bool → Entry F.Num → Outcome F.Num
  edge_step rising cur e =
      let prev = flagged e.number in
      let fire = if rising then not prev && cur else prev && not cur in
      let kept : Entry F.Num = record e { number = flag cur } in
      if is_empty e.kind
      then suppresses (keep_number e (flag cur))
      else if not (is_number e.kind)
      then refuses type_mismatch e
      else if fire
      then passes (boolean true) kept
      else suppresses kept

  -- `call_deadband` on its entry.
  pub deadband_step : F.Num → F.Num → Entry F.Num → Outcome F.Num
  deadband_step threshold x e =
      if not (is_number e.kind) || F.le threshold (F.fabs (F.sub x e.number))
      then passes (number x) (keep_number e x)
      else suppresses e

  -- `call_delta` on its entry.
  pub delta_step : F.Num → Entry F.Num → Outcome F.Num
  delta_step x e =
      passes (number (F.sub x (if is_number e.kind then e.number else x))) (keep_number e x)

  -- `call_count` on its entry, whose result is the next count.
  pub next_count : Entry F.Num → F.Num
  next_count e = F.add (if is_number e.kind then e.number else F.of_nat 0) (F.of_nat 1)

  pub count_step : Entry F.Num → Outcome F.Num
  count_step e = passes (number (next_count e)) (keep_number e (next_count e))

module _ (F : Floats) (alloc scratch : ℕ → Bool) where
  -- `encode_state_value`
  unfoldable pub encode_state_value : Value F.Num → Option Bytes
  encode_state_value (list vs) = none
  encode_state_value (vector vs) = none
  encode_state_value (keyword k) = none
  encode_state_value v = coerce_payload F scratch v

  -- The end of `stateful_changed`.
  pub changed_end : Bool → Value F.Num → Bool → Entry F.Num → Outcome F.Num
  changed_end bool_mode v changed e = record {
    result = ok (if bool_mode then boolean changed else value_or_nil changed v);
    entry = e;
    quiet = not changed;
  }

  pub changed_bytes : Bool → Value F.Num → Bytes → Entry F.Num → Outcome F.Num
  changed_bytes bool_mode v s e =
      let (room, kept) = set_bytes alloc e s in
      if is_bytes e.kind && slice_eq e.bytes s
      then changed_end bool_mode v false e
      else if room
      then changed_end bool_mode v true kept
      else refuses oom kept

  pub changed_encoded : Bool → Value F.Num → Option Bytes → Entry F.Num → Outcome F.Num
  changed_encoded bool_mode v none e = refuses type_mismatch e
  changed_encoded bool_mode v (some s) e = changed_bytes bool_mode v s e

  -- `stateful_changed` on its entry.
  pub changed_step : Bool → Value F.Num → Entry F.Num → Outcome F.Num
  changed_step bool_mode (number x) e =
      changed_end bool_mode (number x) (not (is_number e.kind && F.eq e.number x))
        (keep_number F e x)
  changed_step bool_mode v e = changed_encoded bool_mode v (encode_state_value v) e
