-- ===== src/Persist.antt =====
-- worker/persist/persist.go: the consumer that checks the messages, stores them and hands them on
-- for delivery. JSON content is compact text, and an absent one marshals to "null".
-- Parameters: `new_uuid` and `uuid5` are google/uuid's NewString and NewSHA1 (in the project's
-- namespace); the broker's answers to the producer's writes are a list of fates.
pub mod Batch
pub mod Sequence
pub mod Replay
pub mod Stuck
pub mod History
mod Samples
mod Tests
use alfred_brave_com.Base.{
  ℕ, suc, ◌+◌, String, Bool, true, false, not, ◌&&◌, ◌||◌, Option, none, some, List, [], ◌∷◌, ◌++◌,
  map, arith, find, contains, keep, ◌==◌, if◌then◌else◌, text_append, prefixed,
}
use alfred_brave_com.Base.Errors.{Error, driver, not_found, poison}
use alfred_brave_com.Base.Table.{lookup}
use alfred_brave_com.Base.Exec.{Result, ok, err, Exec, pure, raise, with_error, ◌>>=◌, ◌>>◌}
use alfred_brave_com.Chat.{MsgType, Msg, Push}
use alfred_brave_com.Database.{
  GroupStatus, active, dismissed, Role, owner, member, Message, Group, GroupMember, Conversation,
  User, KvRow, Db, Fate, Session, statement, select, Ending, commit_with, left_with, transaction,
  answered, refused, lost,
}
use alfred_brave_com.Database.Kv.{online_key, get_many_batch, next_seq}
use alfred_brave_com.Database.Users.{get_user}
use alfred_brave_com.Database.Conversations.{draw, get_conversation, ensure_single, is_member}
use alfred_brave_com.Database.Messages.{has_msg_id, insert_message, raise_last_seq}
use alfred_brave_com.Database.Groups.{get_group, active_members}

-- The producer: what the topic chat.push holds, oldest first, and what its next writes meet.
pub record Worker : Type 0 where
  pub session : Session
  pub collecting : Bool
  pub pending : List (String × Push)
  pub pushed : List (String × Push)
  pub writes : List Fate
  -- How many messages of chat.msg are committed, and what the next commits meet.
  pub committed : ℕ
  pub commits : List Fate

-- A call of the database, on a worker.
pub lift : {A : Type 0} → Exec Session A → Exec Worker A
lift m w = let (r, s) = m w.session in (r, record w { session = s })

-- Any error of the call is an ErrPoison.
poisoned : {A : Type 0} → Exec Worker A → Exec Worker A
unfolding with_error
poisoned m = with_error (λ e. poison) m

-- ErrNotFound is an ErrPoison, any other error stays.
missing_is_poison : Error → Error
missing_is_poison not_found = poison
missing_is_poison e = e

refuse_unless : Bool → Exec Worker (Unit {0})
refuse_unless true = pure tt
refuse_unless false = raise poison

pub next_write : List Fate → Fate × List Fate
next_write [] = (answered, [])
next_write (f ∷ rest) = (f, rest)

-- One write of messages to chat.push: `lost` is a write that the broker took and did not confirm.
written : Fate → List (String × Push) → Worker → Result (Unit {0}) × Worker
written answered ps w = (ok tt, record w { pushed = w.pushed ++ ps })
written refused ps w = (err driver, w)
written lost ps w = (err driver, record w { pushed = w.pushed ++ ps })

pub write : List (String × Push) → Exec Worker (Unit {0})
unfolding written next_write
write ps w = let (fate, rest) = next_write w.writes in written fate ps (record w { writes = rest })

pub push_of : Msg → ℕ → String → Bool → Push
push_of msg seq to_uid mention = record {
  msg_id = msg.msg_id;
  cli_msg_id = msg.cli_msg_id;
  conv_id = msg.conv_id;
  seq = seq;
  from_uid = msg.from_uid;
  to_uid = to_uid;
  type = msg.type;
  content = msg.content;
  mention = mention;
}

pub produce_push : Msg → ℕ → String → Bool → Exec Worker (Unit {0})
unfolding push_of
produce_push msg seq to_uid mention w =
    let p : String × Push = (to_uid, push_of msg seq to_uid mention) in
    if w.collecting then (ok tt, record w { pending = w.pending ++ p ∷ [] }) else write (p ∷ []) w

flushed : Result (Unit {0}) × Worker → Result (Unit {0}) × Worker
flushed (r, w) = (r, record w { pending = [] })

pub flush_pushes : Exec Worker (Unit {0})
unfolding flushed
flush_pushes w = elim w.pending [ [] ↦ (ok tt, w) | (p ∷ ps) ↦ flushed (write (p ∷ ps) w) ]

pub marshal : String → String
marshal content = if content == "" then "null" else content

-- What persistTx returns: the sequence number, the stored content, and whether the row is new.
pub record Stored : Type 0 where
  pub seq : ℕ
  pub content : String
  pub created : Bool

pub stored_row : Msg → ℕ → String → Message
stored_row msg seq content = record {
  msg_id = msg.msg_id;
  conv_id = msg.conv_id;
  seq = seq;
  from_uid = msg.from_uid;
  type = msg.type;
  content = content;
}

insert_new : Msg → String → Exec Session (Ending Stored)
unfolding stored_row
insert_new msg content = do
  seq ← next_seq msg.conv_id
  statement (insert_message (stored_row msg seq content))
  statement (raise_last_seq msg.conv_id seq)
  pure (commit_with (record { seq = seq; content = content; created = true }))

replay_or_insert : Msg → String → Option Message → Exec Session (Ending Stored)
replay_or_insert msg content none = insert_new msg content
replay_or_insert msg content (some row) =
    pure (left_with (record { seq = row.seq; content = row.content; created = false }))

persist_body : Msg → String → Exec Session (Ending Stored)
persist_body msg content = do
  row ← statement (select (λ db. find (has_msg_id msg.msg_id) db.messages))
  replay_or_insert msg content row

pub persist_tx : Msg → String → Exec Session Stored
persist_tx msg content = transaction (persist_body msg content)

pub record Target : Type 0 where
  pub uid : String
  pub role : Role

targets_of : List GroupMember → List Target
targets_of ms = map (λ m. record { uid = m.uid; role = m.role }) ms

-- The role of the last row of the sender.
role_of : String → Option Role → List GroupMember → Option Role
role_of uid seen [] = seen
role_of uid seen (m ∷ ms) = role_of uid (if m.uid == uid then some m.role else seen) ms

is_alive : GroupStatus → Bool
is_alive active = true
is_alive dismissed = false

may_mention_all : Bool → Option Role → Bool
may_mention_all mention_all none = false
may_mention_all mention_all (some owner) = true
may_mention_all mention_all (some member) = not mention_all

all_in : List String → List GroupMember → Bool
all_in [] ms = true
all_in (uid ∷ uids) ms = contains uid (map (λ m. m.uid) ms) && all_in uids ms

pub online_of : List (String × KvRow) → List Target → List Target
unfolding keep lookup
online_of rows targets =
    keep (λ t. elim (lookup (online_key t.uid) rows) [ none ↦ false | some r ↦ true ]) targets

-- A message with no type is a single one.
pub with_type : Msg → Msg
with_type msg = elim msg.type [ MsgType.empty ↦ record msg { type = MsgType.single } | _ ↦ msg ]

validate_group_msg : Msg → Exec Worker (List Target)
validate_group_msg msg = do
  refuse_unless (not (msg.conv_id == ""))
  g ← with_error missing_is_poison (lift (get_group msg.conv_id))
  refuse_unless (is_alive g.status)
  members ← lift (active_members msg.conv_id)
  refuse_unless (may_mention_all msg.mention_all (role_of msg.from_uid none members))
  refuse_unless (all_in msg.mentions members)
  pure (targets_of members)

online_members : List Target → Exec Worker (List Target)
online_members targets = do
  rows ← lift (get_many_batch (map (λ t. online_key t.uid) targets))
  pure (online_of rows targets)

fan_out : Msg → ℕ → List Target → Exec Worker (Unit {0})
unfolding contains
fan_out msg seq [] = pure tt
fan_out msg seq (t ∷ ts) = do
  produce_push msg seq t.uid (msg.mention_all || contains t.uid msg.mentions)
  fan_out msg seq ts

-- The pushes of a stored message: one to the receiver, or one to each member online.
announce : MsgType → Msg → ℕ → List Target → Exec Worker (Unit {0})
announce MsgType.single msg seq targets = produce_push msg seq msg.to_uid false
announce _ msg seq targets = do online ← online_members targets; fan_out msg seq online

module _ (new_uuid : ℕ → String) (uuid5 : String → String) where
  pub derive_msg_id : String → String → String → Exec Session String
  derive_msg_id conv_id from_uid cli_msg_id =
      if cli_msg_id == ""
      then draw new_uuid
      else pure (uuid5 (prefixed "|" conv_id (prefixed "|" from_uid cli_msg_id)))

  -- The message with its conversation.
  validate_single_msg : Msg → Exec Worker Msg
  validate_single_msg msg = do
    poisoned (lift (get_user msg.from_uid))
    poisoned (lift (get_user msg.to_uid))
    if msg.conv_id == ""
        then (do
          conv ← lift (ensure_single new_uuid msg.from_uid msg.to_uid)
          pure (record msg { conv_id = conv.conv_id }))
        else do
          conv ← with_error missing_is_poison (lift (get_conversation msg.conv_id))
          here ← lift (is_member conv.conv_id msg.from_uid)
          refuse_unless here
          pure msg

  -- The checks of a message by its type: the message with its conversation, and its targets.
  validate : MsgType → Msg → Exec Worker (Msg × List Target)
  validate MsgType.system_event msg = do
    refuse_unless (not (msg.msg_id == "" || msg.conv_id == ""))
    members ← lift (active_members msg.conv_id)
    pure (msg, targets_of members)
  validate MsgType.group msg = do targets ← validate_group_msg msg; pure (msg, targets)
  validate MsgType.single msg = do m ← validate_single_msg msg; pure (m, [])
  validate MsgType.empty msg = raise poison
  validate (MsgType.other t) msg = raise poison

  with_msg_id : Msg → Exec Worker Msg
  with_msg_id msg =
      if msg.msg_id == ""
      then (do
        msg_id ← lift (derive_msg_id msg.conv_id msg.from_uid msg.cli_msg_id)
        pure (record msg { msg_id = msg_id }))
      else pure msg

  -- Handle, with the message as the call leaves it.
  pub handle : Msg → Exec Worker Msg
  handle raw = do
    let msg = with_type raw
    checked ← validate msg.type msg
    m ← with_msg_id checked.0
    stored ← lift (persist_tx m (marshal m.content))
    let sent = if stored.created then m else record m { content = stored.content }
    announce m.type sent stored.seq checked.1
    pure sent
