-- ===== src/Patchbay/Entry.antt =====
-- src/patchbay/pb_eval.h: the state that a rule keeps for an operation and a subject.
use monoblok.Shared.{ℕ, Bool, true, false, List, [], Bytes, length, ltb, if◌then◌else◌}
use monoblok.Patchbay.Value.{Value, Values, nil, none_left}

-- `pb_eval_state_kind`
pub data Kind : Type 0 where
  empty : Kind
  number_kind : Kind
  bytes_kind : Kind
  ring_kind : Kind
  bar_kind : Kind
  clock_kind : Kind

-- `pb_eval_clock_kind`
pub data ClockKind : Type 0 where
  no_clock : ClockKind
  on_silence : ClockKind
  dropout : ClockKind
  debounce : ClockKind
  sample : ClockKind
  aggregate : ClockKind

-- `pb_eval_metric_kind`
pub data Metric : Type 0 where
  no_metric : Metric
  avg_metric : Metric
  sum_metric : Metric
  min_metric : Metric
  max_metric : Metric
  count_metric : Metric
  rate_metric : Metric

-- The fields `ring_…` of `pb_eval_state_entry`; the arrays have `cap` elements, and a ring without
-- times has no array of them.
pub record Ring (N : Type 0) : Type 0 where
  pub values : List N
  pub times : List ℕ
  pub cap : ℕ
  pub len : ℕ
  pub start : ℕ
  pub sum : N
  pub window_ms : ℕ
  pub time_window : Bool

-- The fields `bar_…`.
pub record Bar (N : Type 0) : Type 0 where
  pub first : N
  pub high : N
  pub low : N
  pub last_close : N
  pub count : ℕ
  pub cap : ℕ
  pub window_ms : ℕ
  pub window_start_ms : ℕ
  pub time_window : Bool

-- The fields of the clocked forms.
pub record Clock (N : Type 0) : Type 0 where
  pub kind : ClockKind
  pub metric : Metric
  pub interval_ms : ℕ
  pub deadline_ms : ℕ
  pub armed : Bool
  pub lost : Bool
  pub lost_form : Value N
  pub found_form : Value N
  pub body : Values N
  pub emit_subject : Bytes
  pub emit_cap : ℕ

-- `pb_eval_state_entry`
pub record Entry (N : Type 0) : Type 0 where
  pub rule_id : ℕ
  pub op : Bytes
  pub subject : Bytes
  pub kind : Kind
  pub number : N
  pub bytes : Bytes
  pub bytes_cap : ℕ
  pub ring : Ring N
  pub bar : Bar N
  pub clock : Clock N

-- The entry that `state_slot` makes: every other field is zero.
unfoldable pub fresh_entry : {N : Type 0} → N → ℕ → Bytes → Bytes → Entry N
fresh_entry z rule_id op subject = record {
  rule_id = rule_id;
  op = op;
  subject = subject;
  kind = empty;
  number = z;
  bytes = [];
  bytes_cap = 0;
  ring = record {
    values = [];
    times = [];
    cap = 0;
    len = 0;
    start = 0;
    sum = z;
    window_ms = 0;
    time_window = false;
  };
  bar = record {
    first = z;
    high = z;
    low = z;
    last_close = z;
    count = 0;
    cap = 0;
    window_ms = 0;
    window_start_ms = 0;
    time_window = false;
  };
  clock = record {
    kind = no_clock;
    metric = no_metric;
    interval_ms = 0;
    deadline_ms = 0;
    armed = false;
    lost = false;
    lost_form = nil;
    found_form = nil;
    body = none_left;
    emit_subject = [];
    emit_cap = 0;
  };
}

-- `state_set_bytes`: the buffer grows to the length; the kind is that of bytes.
unfoldable pub set_bytes : {N : Type 0} → (ℕ → Bool) → Entry N → Bytes → Bool × Entry N
set_bytes alloc e s =
    if ltb e.bytes_cap (length s)
    then if alloc (length s)
      then (true, record e { bytes = s; bytes_cap = length s; kind = bytes_kind })
      else (false, e)
    else (true, record e { bytes = s; kind = bytes_kind })

-- `state_set_emit_subject`
unfoldable pub set_emit_subject : {N : Type 0} → (ℕ → Bool) → Entry N → Bytes → Bool × Entry N
set_emit_subject alloc e s =
    if ltb e.clock.emit_cap (length s)
    then if alloc (length s)
      then (true, record e { clock = record (e.clock) { emit_subject = s; emit_cap = length s } })
      else (false, e)
    else (true, record e { clock = record (e.clock) { emit_subject = s } })
