-- ===== src/Exchange/Acks/Tests.antt =====
-- A round of two ACKs on a small server, one for it and one for another, and the theorem at it.
use alfred_brave_com.Base.{
  ◌≡◌, refl, String, true, false, some, none, [], ◌∷◌, nat_eq, if◌then◌else◌, contains, keep,
}
use alfred_brave_com.Base.Table.{lookup, insert}
use alfred_brave_com.Base.Exec.{ok, pure, ◌>>=◌}
use alfred_brave_com.Chat.{Ack}
use alfred_brave_com.Database.{Db, empty_db, steady, online, statement, select}
use alfred_brave_com.Database.Kv.{get_many_batch}
use alfred_brave_com.Exchange.{set_client}
use alfred_brave_com.Exchange.Acks.{
  World, Dispatcher, results, consume_round, dispatch, and_then, after, return, on_session,
  get_many, unique_from_uids, unique_strings, route_acks, route_at, addr_of, enqueue_local,
  with_client, with_raw, add_to, waiting, forward_groups, forward, relay_acks, next_reply,
  after_relay, retry_missed, missed, parsed, commit_messages, decode_rows, decoded,
}
use alfred_brave_com.Exchange.Acks.Own.{Adds, consume_round-Adds}

abbrev tables : Db
tables = record empty_db {
  kv =
      ("online:ada", record { v = online "s1" "here" 1; version = 1 })
      ∷ ("online:bob", record { v = online "s2" "there" 1; version = 1 })
      ∷ [];
}

abbrev dispatcher : Dispatcher
dispatcher = record {
  manager = record {
    users = ("ada", 0) ∷ [];
    register = [];
    unregister = [];
    broadcast = [];
    has_online = true;
    online_cs = "s1";
    online_addr = "here";
    session = steady tables 0;
    heap = λ h. record { user_id = "ada"; send = []; last_active = 0; closed = false };
    connections = 1;
  };
  replies = results (some (record { delivered = true; not_found = false }) ∷ []) ∷ [];
  forwarded = [];
}

abbrev ack_of : String → Ack
ack_of uid = record {
  msg_id = "m1";
  cli_msg_id = "x1";
  conv_id = "c1";
  seq = 1;
  from_uid = uid;
  to_uid = "eve";
}

abbrev world : World
world = record {
  marshal = λ a. some "ack";
  decode_other = λ j. none;
  order = λ groups. groups;
  has_relayer = true;
  commits = true;
}

abbrev served : Dispatcher
served = record {
  manager = record dispatcher.manager {
    heap = λ h.
        if nat_eq h 0
        then record { user_id = "ada"; send = "ack" ∷ []; last_active = 0; closed = false }
        else dispatcher.manager.heap h;
  };
  replies = [];
  forwarded = ("there", ack_of "bob" ∷ []) ∷ [];
}

two_taken :
    consume_round world (some (ack_of "ada") ∷ none ∷ some (ack_of "bob") ∷ []) dispatcher
    ≡ some (ok tt, served)
unfolding consume_round dispatch and_then after return on_session get_many unique_from_uids
    unique_strings route_acks route_at addr_of enqueue_local with_client with_raw add_to waiting
    forward_groups forward relay_acks next_reply after_relay retry_missed missed parsed
    commit_messages decode_rows decoded get_many_batch set_client lookup insert statement select
    ◌>>=◌ pure contains keep
two_taken = refl

consume_round-Adds_example : Adds world dispatcher served
consume_round-Adds_example =
    consume_round-Adds world (some (ack_of "ada") ∷ none ∷ some (ack_of "bob") ∷ []) dispatcher
      served (ok tt) two_taken
