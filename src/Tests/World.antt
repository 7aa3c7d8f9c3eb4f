-- ===== src/Tests/World.antt =====
-- A router with one subscription, and the theorems on its operations.
use monoblok.Shared.{refl, ◌≢◌, inr, true, false, none, [], ◌∷◌, arith}
use monoblok.Buffer.{empty_buf}
use monoblok.Router.Evolve.{Evolved}
use monoblok.Router.State.{Conn, Sub, World, router_init}
use monoblok.Router.Publish.{publish}
use monoblok.Router.Publish.Bounds.{publish-Evolved}
use monoblok.Router.Remove.{remove_all_for, unsubscribe}
use monoblok.Router.Remove.Kept.{Filed, as_literal}
use monoblok.Router.Remove.Gone.{
  remove_all_for-gone, remove_all_for-Filed, unsubscribe-gone, unsubscribe-Filed,
}
use monoblok.Tests.Router.{granted, key_a, key_b, small_table}

abbrev idle : Conn
idle = record {
  out = empty_buf;
  kick_seen_epoch = 0;
  close_seen_epoch = 0;
  sub_count = 1;
  closed = false;
  msg_len = none;
  write_msg = none;
  has_kick = true;
  has_close = true;
}

-- The subscription of connection 3 to the subject `a`, with the sid `b`.
abbrev one_sub : Sub
one_sub = record {
  conn = 3;
  subject = key_a;
  queue = [];
  sid = key_b;
  delivered = 0;
  max_msgs = 0;
  has_max_msgs = false;
  is_lvc = false;
}

-- A router with one subscription, of connection 3 to the subject `a`.
abbrev small_world : World
small_world = record {
  router = record router_init {
    literal = record {
      items = record { key = key_a; subs = record { items = one_sub ∷ []; cap = 8 } } ∷ [];
      cap = 8;
      index = small_table;
    };
    kick_cap = 1;
    close_cap = 1;
    queue_cap = 1;
    sub_count = 1;
  };
  conns = λ c. idle;
}

publish-Evolved_example : Evolved small_world (publish granted small_world key_a key_b []).1
publish-Evolved_example = publish-Evolved granted small_world key_a key_b [] (omega arith)

three_seven : one_sub.conn ≢ 7
three_seven e = omega arith

other_sid : key_b ≢ key_a
other_sid e = ground arith

one_sub-Filed : Filed (small_world.router) one_sub
one_sub-Filed = as_literal key_a (record {
  bucket = record { key = key_a; subs = record { items = one_sub ∷ []; cap = 8 } };
  in_array = (0, refl);
  keyed = refl;
  in_list = (0, refl);
})

-- Connection 7 leaves.
still-Filed : Filed (remove_all_for small_world 7).router one_sub
still-Filed = remove_all_for-Filed small_world 7 one_sub one_sub-Filed three_seven

-- Connection 3 gives up another sid.
after_unsubscribe-Filed : Filed (unsubscribe small_world 3 key_a 0 false).router one_sub
after_unsubscribe-Filed =
    unsubscribe-Filed small_world 3 key_a 0 false one_sub one_sub-Filed (inr other_sid)

remove_all_for-gone_example : one_sub.conn ≢ 7
remove_all_for-gone_example = remove_all_for-gone small_world 7 one_sub still-Filed

remove_all_for-Filed_example : Filed (remove_all_for small_world 7).router one_sub
remove_all_for-Filed_example = remove_all_for-Filed small_world 7 one_sub one_sub-Filed three_seven

unsubscribe-gone_example : key_b ≢ key_a
unsubscribe-gone_example =
    unsubscribe-gone small_world 3 key_a 0 one_sub after_unsubscribe-Filed refl

unsubscribe-Filed_example : Filed (unsubscribe small_world 3 key_a 5 true).router one_sub
unsubscribe-Filed_example =
    unsubscribe-Filed small_world 3 key_a 5 true one_sub one_sub-Filed (inr other_sid)
