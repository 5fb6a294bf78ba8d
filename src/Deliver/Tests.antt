-- ===== src/Deliver/Tests.antt =====
-- Runs of the delivery worker, and the theorems at them.
use alfred_brave_com.Base.{
  ℕ, ◌+◌, ◌≡◌, refl, String, true, false, none, some, List, [], ◌∷◌, suc, keep, contains,
}
use alfred_brave_com.Base.Exec.{Result, ok, ◌>>=◌, pure}
use alfred_brave_com.Base.Table.{lookup, insert}
use alfred_brave_com.Chat.{Push, MsgType}
use alfred_brave_com.Database.{Db, empty_db, online, steady, statement, next_fate, settle}
use alfred_brave_com.Database.Kv.{get}
use alfred_brave_com.Relay.{no_reason}
use alfred_brave_com.Deliver.Routes.{
  World, Router, IsFresh, get_route, new_router, Reached, invalidate, authoritative,
}
use alfred_brave_com.Deliver.Routes.Fresh.{get_route-IsFresh, get_route-invalidate}
use alfred_brave_com.Deliver.Calls.{BatchReply, batch_relay, conn}
use alfred_brave_com.Deliver.{
  Worker, run_round, set_collecting, group_by_addr, parsed, route, offline_or_queue, deliver_groups,
  add_to_group, deliver_batch, on_relayer, take_results, take_result, queue, flush_delivered,
  commit_messages, next_write,
}
use alfred_brave_com.Deliver.Accounts.Flush.{Final}
use alfred_brave_com.Deliver.Accounts.Round.{run_round-Final}

abbrev ada_online : Db
ada_online = record empty_db {
  kv = ("online:ada", record { v = online "cs1:80" "cs1:90" 7; version = 1 }) ∷ [];
}

abbrev world : World
world = record { now_fn = λ i. i; session_at = λ i. steady ada_online 0; decode_other = λ j. none }

abbrev push_to : String → Push
push_to uid = record {
  msg_id = "m1";
  cli_msg_id = "x1";
  conv_id = "c1";
  seq = 1;
  from_uid = "bob";
  to_uid = uid;
  type = MsgType.single;
  content = "hello";
  mention = false;
}

abbrev idle_worker : List BatchReply → Worker
idle_worker replies = record {
  router = record { cache = []; reads = 0 };
  relayer = record { conns = []; dials = []; replies = []; batch_replies = replies };
  can_batch = true;
  collecting = false;
  pending = [];
  pending_offline = [];
  batch_delivered = true;
  batch_offline = true;
  writes = [];
  commits = [];
  acked = [];
  notified = [];
  given_up = [];
  unrouted = [];
  committed = 0;
}

-- Ada's message is delivered in a batch, Bob is offline, and one payload cannot be read.
abbrev round_of_three : Result (Unit {0}) × Worker
round_of_three =
    run_round world (λ groups. groups) (some (push_to "ada") ∷ none ∷ some (push_to "bob") ∷ [])
      (idle_worker
        (BatchReply.batch_answered (record { delivered = true; reason = no_reason } ∷ []) ∷ []))

run_round-Final_example : Final (λ p. true) (0 + 2) 0 3 round_of_three
unfolding keep parsed
run_round-Final_example =
    run_round-Final (λ p. true) world (λ groups. groups)
      (some (push_to "ada") ∷ none ∷ some (push_to "bob") ∷ [])
      (idle_worker
        (BatchReply.batch_answered (record { delivered = true; reason = no_reason } ∷ []) ∷ []))
      (λ groups. refl)

-- That round ends with an acknowledgement for Ada's message and a notification for Bob's.
round_ends :
    (round_of_three.0 ≡ ok tt)
    × (round_of_three.1.acked ≡ push_to "ada" ∷ [])
    × (round_of_three.1.notified ≡ push_to "bob" ∷ [])
    × (round_of_three.1.committed ≡ 3)
unfolding run_round ◌>>=◌ set_collecting group_by_addr parsed route get_route lookup authoritative
    get statement insert offline_or_queue deliver_groups add_to_group deliver_batch on_relayer
    batch_relay conn contains take_results take_result queue flush_delivered commit_messages pure
    next_fate settle next_write
round_ends = (refl, refl, refl, refl)

-- Ada's route, asked for a second time.
abbrev asked_once : Router
asked_once = (get_route world "ada" new_router).1

ada_at : (get_route world "ada" asked_once).0 ≡ ok (record { cs = "cs1:80"; addr = "cs1:90" })
unfolding get_route new_router lookup authoritative get statement insert
ada_at = refl

get_route-IsFresh_example :
    (last : ℕ) × ((get_route world "ada" asked_once).1.reads ≡ suc last)
    × IsFresh world "ada"
        (record { cs = "cs1:80"; addr = "cs1:90" })
        (get_route world "ada" asked_once).1.reads
        (world.now_fn last)
unfolding get_route new_router lookup authoritative get statement insert
get_route-IsFresh_example =
    get_route-IsFresh world "ada" (record { cs = "cs1:80"; addr = "cs1:90" }) asked_once
      (get_route world "ada" asked_once).1 (Reached.asked "ada" Reached.start) refl

get_route-invalidate_example :
    (get_route world "ada" (invalidate "ada" asked_once)).0
    ≡ authoritative world asked_once.reads "ada"
get_route-invalidate_example = get_route-invalidate world "ada" asked_once
