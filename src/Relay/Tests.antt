-- ===== src/Relay/Tests.antt =====
-- A batch of two messages on a small server, and the theorem at it.
use alfred_brave_com.Base.{
  ◌≡◌, refl, String, true, false, Option, some, List, [], ◌∷◌, nat_eq, if◌then◌else◌,
}
use alfred_brave_com.Base.Table.{lookup}
use alfred_brave_com.Chat.{MsgType}
use alfred_brave_com.Database.{empty_db, steady}
use alfred_brave_com.Exchange.{set_client}
use alfred_brave_com.Relay.{
  RelayMessageRequest, RelayMessageResponse, Context, Frame, Server, not_found, no_reason,
  batch_relay_messages, enqueue_messages, enqueue_message, select_send,
}
use alfred_brave_com.Relay.Queued.{Batched, batch_relay_messages-Batched}

-- Ada's connection, and nobody else's.
abbrev server : Server
server = record {
  manager = record {
    users = ("ada", 0) ∷ [];
    register = [];
    unregister = [];
    broadcast = [];
    has_online = false;
    online_cs = "";
    online_addr = "";
    session = steady empty_db 0;
    heap = λ h. record { user_id = "ada"; send = []; last_active = 0; closed = false };
    connections = 1;
  };
  stats = record {
    message_enqueued = 0;
    ack_enqueued = 0;
    send_full = 0;
    not_found = 0;
    marshal_error = 0;
    ctx_canceled = 0;
    message_batches = 0;
    ack_batches = 0;
  };
}

abbrev message_to : String → Context × RelayMessageRequest
message_to uid = (
  record { is_done = false; takes_done = false },
  record {
    msg_id = "m1";
    cli_msg_id = "x1";
    conv_id = "c1";
    from_uid = "bob";
    to_uid = uid;
    type = MsgType.single;
    content = "hello";
    seq = 1;
    mention = false;
  },
)

abbrev two_messages : List (Context × RelayMessageRequest)
two_messages = message_to "ada" ∷ message_to "eve" ∷ []

abbrev two_results : List RelayMessageResponse
two_results =
    record { delivered = true; reason = no_reason }
    ∷ record { delivered = false; reason = not_found }
    ∷ []

abbrev marshal : Frame → Option String
marshal frame = some "frame"

abbrev served : Server
served = record {
  manager = record server.manager {
    heap = λ h.
        if nat_eq h 0
        then record { user_id = "ada"; send = "frame" ∷ []; last_active = 0; closed = false }
        else server.manager.heap h;
  };
  stats = record server.stats { message_enqueued = 1; not_found = 1; message_batches = 1 };
}

two_served : batch_relay_messages marshal two_messages server ≡ some (two_results, served)
unfolding batch_relay_messages enqueue_messages enqueue_message lookup select_send set_client
two_served = refl

batch_relay_messages-Batched_example : Batched marshal two_messages server two_results served
batch_relay_messages-Batched_example =
    batch_relay_messages-Batched marshal two_messages server served two_results two_served
