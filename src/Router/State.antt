-- ===== src/Router/State.antt =====
-- src/router.h: connections, subscriptions, buckets and the router itself.
use monoblok.Shared.{ℕ, ◌*◌, Bool, false, Option, List, [], map, Bytes, ◌==◌, if◌then◌else◌}
use monoblok.Buffer.{Buf}
use monoblok.Router.Index.{Table}
use monoblok.Router.Lvc.{Lvc}

abbrev pub max_pending : ℕ
max_pending = 64 * 1024 * 1024

abbrev pub max_subs_per_conn : ℕ
max_subs_per_conn = 4096

abbrev pub max_subs_total : ℕ
max_subs_total = 65536

-- `mb_router_conn`. The frame functions of the transport stand in `msg_len` and `write_msg`, `none`
-- where the pointer is null; of the other two callbacks only whether they are set.
pub record Conn : Type 0 where
  pub out : Buf
  pub kick_seen_epoch : ℕ
  pub close_seen_epoch : ℕ
  pub sub_count : ℕ
  pub closed : Bool
  pub msg_len : Option (Bytes → Bytes → Bytes → Bytes → Bytes → Option ℕ)
  pub write_msg : Option (Buf → Bytes → Bytes → Bytes → Bytes → Bytes → Bool × Buf)
  pub has_kick : Bool
  pub has_close : Bool

-- `mb_subscription`; `conn` names a connection of the store.
pub record Sub : Type 0 where
  pub conn : ℕ
  pub subject : Bytes
  pub queue : Bytes
  pub sid : Bytes
  pub delivered : ℕ
  pub max_msgs : ℕ
  pub has_max_msgs : Bool
  pub is_lvc : Bool

pub record SubList : Type 0 where
  pub items : List Sub
  pub cap : ℕ

-- `mb_literal_bucket`, `mb_wildcard_bucket`
pub record Bucket : Type 0 where
  pub key : Bytes
  pub subs : SubList

-- One of the two arrays of buckets with its capacity and its index.
pub record Buckets : Type 0 where
  pub items : List Bucket
  pub cap : ℕ
  pub index : Table

-- `mb_router`. The scratch arrays are filled anew by each publish: their capacities are kept.
pub record Router : Type 0 where
  pub literal : Buckets
  pub wildcard : Buckets
  pub wildcard_global : SubList
  pub kick_cap : ℕ
  pub close_cap : ℕ
  pub queue_cap : ℕ
  pub kick_epoch : ℕ
  pub queue_rng : ℕ
  pub sub_count : ℕ
  pub lvc : Lvc
  pub has_bridge : Bool

-- The router and the connections that its subscriptions point to.
pub record World : Type 0 where
  pub router : Router
  pub conns : ℕ → Conn

abbrev pub update {ℓ} : {A : Type ℓ} → (ℕ → A) → ℕ → A → ℕ → A
update f k v j = if j == k then v else f j

abbrev pub bucket_keys : List Bucket → List Bytes
bucket_keys bs = map (λ (b : Bucket). b.key) bs

-- `mb_router_init`
abbrev pub router_init : Router
router_init = record {
  literal = record { items = []; cap = 0; index = [] };
  wildcard = record { items = []; cap = 0; index = [] };
  wildcard_global = record { items = []; cap = 0 };
  kick_cap = 0;
  close_cap = 0;
  queue_cap = 0;
  kick_epoch = 0;
  queue_rng = 0x9e3779b97f4a7c15;
  sub_count = 0;
  lvc = record {
    entries = [];
    cap = 0;
    payload_bytes = 0;
    index = [];
    filters = [];
    filter_cap = 0;
    enabled = false;
  };
  has_bridge = false;
}
