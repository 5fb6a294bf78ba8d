-- ===== src/Relay.antt =====
-- joker/relay/server.go: the gRPC server of a chat server, which puts messages and acknowledgements
-- into the send channels of its own connections. json.Marshal of a frame is a parameter, and so is
-- the context: whether it is done at a `select`, and if so whether Go takes that case, where the
-- channel has room as well. `none` is a panic, by a send on a closed channel.
pub mod Queued
mod Tests
use alfred_brave_com.Base.{
  ℕ, ◌+◌, String, Bool, true, false, ◌&&◌, ◌||◌, Option, none, some, List, [], ◌∷◌, ◌++◌, ltb,
  length, if◌then◌else◌,
}
use alfred_brave_com.Chat.{Push, Ack, MsgType}
use alfred_brave_com.Exchange.{Client, Manager, set_client, get_client, send_capacity}

pub record RelayMessageRequest : Type 0 where
  pub msg_id : String
  pub cli_msg_id : String
  pub conv_id : String
  pub from_uid : String
  pub to_uid : String
  pub type : MsgType
  pub content : String
  pub seq : ℕ
  pub mention : Bool

pub record RelayAckRequest : Type 0 where
  pub msg_id : String
  pub cli_msg_id : String
  pub conv_id : String
  pub from_uid : String
  pub to_uid : String
  pub seq : ℕ

pub data Reason : Type 0 where
  no_reason not_found marshal_error ctx_canceled send_full : Reason

pub record RelayMessageResponse : Type 0 where
  pub delivered : Bool
  pub reason : Reason

pub record Stats : Type 0 where
  pub message_enqueued : ℕ
  pub ack_enqueued : ℕ
  pub send_full : ℕ
  pub not_found : ℕ
  pub marshal_error : ℕ
  pub ctx_canceled : ℕ
  pub message_batches : ℕ
  pub ack_batches : ℕ

-- The server, with its manager.
pub record Server : Type 0 where
  pub manager : Manager
  pub stats : Stats

-- DeliveryFrame and AckFrame.
pub data Frame : Type 0 where
  delivery : Push → Frame
  ack : Ack → Frame

-- What a `select` meets.
pub record Context : Type 0 where
  pub is_done : Bool
  pub takes_done : Bool

abbrev pub refused : Reason → RelayMessageResponse
refused reason = record { delivered = false; reason = reason }

abbrev pub accepted : RelayMessageResponse
accepted = record { delivered = true; reason = no_reason }

unfoldable pub push_of_request : RelayMessageRequest → Push
push_of_request r = record {
  msg_id = r.msg_id;
  cli_msg_id = r.cli_msg_id;
  conv_id = r.conv_id;
  seq = r.seq;
  from_uid = r.from_uid;
  to_uid = r.to_uid;
  type = r.type;
  content = r.content;
  mention = r.mention;
}

unfoldable pub ack_of_request : RelayAckRequest → Ack
ack_of_request r = record {
  msg_id = r.msg_id;
  cli_msg_id = r.cli_msg_id;
  conv_id = r.conv_id;
  seq = r.seq;
  from_uid = r.from_uid;
  to_uid = r.to_uid;
}

count_enqueued : Frame → Stats → Stats
count_enqueued (delivery p) st = record st { message_enqueued = st.message_enqueued + 1 }
count_enqueued (ack a) st = record st { ack_enqueued = st.ack_enqueued + 1 }

canceled : Server → RelayMessageResponse × Server
canceled s =
    let st = s.stats in
    (refused ctx_canceled, record s { stats = record st { ctx_canceled = st.ctx_canceled + 1 } })

dropped : Server → RelayMessageResponse × Server
dropped s =
    let st = s.stats in
    (refused send_full, record s { stats = record st { send_full = st.send_full + 1 } })

queued : Frame → String → ℕ → Server → RelayMessageResponse × Server
unfolding count_enqueued
queued frame raw h s =
    let c = s.manager.heap h in
    (
      accepted,
      record {
        manager = set_client h (record c { send = c.send ++ raw ∷ [] }) s.manager;
        stats = count_enqueued frame s.stats;
      },
    )

-- The `select`: the channel, the context and the default case.
unfoldable pub select_send :
    Context → Frame → String → ℕ → Server → Option (RelayMessageResponse × Server)
unfolding canceled dropped queued
select_send ctx frame raw h s =
    let c = s.manager.heap h in
    if c.closed || ltb (length c.send) send_capacity
    then (if ctx.is_done && ctx.takes_done
        then some (canceled s)
        else if c.closed
        then none
        else some (queued frame raw h s))
    else if ctx.is_done
    then some (canceled s)
    else some (dropped s)

module _ (marshal : Frame → Option String) where
  with_raw : Context → Frame → ℕ → Option String → Server → Option (RelayMessageResponse × Server)
  unfolding select_send
  with_raw ctx frame h none s =
      let st = s.stats in
      some (
        refused marshal_error,
        record s { stats = record st { marshal_error = st.marshal_error + 1 } },
      )
  with_raw ctx frame h (some raw) s = select_send ctx frame raw h s

  with_client : Context → Frame → Option ℕ → Server → Option (RelayMessageResponse × Server)
  unfolding with_raw
  with_client ctx frame none s =
      let st = s.stats in
      some (refused not_found, record s { stats = record st { not_found = st.not_found + 1 } })
  with_client ctx frame (some h) s = with_raw ctx frame h (marshal frame) s

  unfoldable pub enqueue_message :
      Context → RelayMessageRequest → Server → Option (RelayMessageResponse × Server)
  unfolding with_client push_of_request
  enqueue_message ctx req s =
      with_client ctx (delivery (push_of_request req)) (get_client req.to_uid s.manager) s

  unfoldable pub enqueue_ack :
      Context → RelayAckRequest → Server → Option (RelayMessageResponse × Server)
  unfolding with_client ack_of_request
  enqueue_ack ctx req s =
      with_client ctx (ack (ack_of_request req)) (get_client req.from_uid s.manager) s

  -- RelayMessage; a request that says is_local is only warned of.
  abbrev pub relay_message :
      Context → RelayMessageRequest → Server → Option (RelayMessageResponse × Server)
  relay_message = enqueue_message

  -- The loops of the two batches, each request with the context that it meets.
  unfoldable pub enqueue_messages :
      List (Context × RelayMessageRequest) → Server → Option (List RelayMessageResponse × Server)
  enqueue_messages [] s = some ([], s)
  enqueue_messages ((ctx, req) ∷ rest) s = elim (enqueue_message ctx req s) [
    | none ↦ none
    | some (result, s') ↦ elim (enqueue_messages rest s') [
      | none ↦ none
      | some (results, s'') ↦ some (result ∷ results, s'')
    ]
  ]

  unfoldable pub enqueue_acks :
      List (Context × RelayAckRequest) → Server → Option (List RelayMessageResponse × Server)
  enqueue_acks [] s = some ([], s)
  enqueue_acks ((ctx, req) ∷ rest) s = elim (enqueue_ack ctx req s) [
    | none ↦ none
    | some (result, s') ↦ elim (enqueue_acks rest s') [
      | none ↦ none
      | some (results, s'') ↦ some (result ∷ results, s'')
    ]
  ]

  unfoldable pub batch_relay_messages :
      List (Context × RelayMessageRequest) → Server → Option (List RelayMessageResponse × Server)
  batch_relay_messages messages s =
      let st = s.stats in
      enqueue_messages messages
        (record s { stats = record st { message_batches = st.message_batches + 1 } })

  unfoldable pub batch_relay_acks :
      List (Context × RelayAckRequest) → Server → Option (List RelayMessageResponse × Server)
  batch_relay_acks acks s =
      let st = s.stats in
      enqueue_acks acks (record s { stats = record st { ack_batches = st.ack_batches + 1 } })
