-- ===== src/Chat.antt =====
-- internal/chat: the messages that the services exchange. JSON content is an opaque text, and the
-- field `sent_at` (set by the chat server, read by nobody) keeps its place.
use alfred_brave_com.Base.{ℕ, String, Bool, List}

-- messages.type; the source compares texts, `other` stands for any text but these.
pub data MsgType : Type 0 where
  single group system_event : MsgType
  empty : MsgType
  other : String → MsgType

pub record Msg : Type 0 where
  pub msg_id : String
  pub cli_msg_id : String
  pub conv_id : String
  pub from_uid : String
  pub to_uid : String
  pub type : MsgType
  pub content : String
  pub mentions : List String
  pub mention_all : Bool
  pub sent_at : ℕ

pub record Push : Type 0 where
  pub msg_id : String
  pub cli_msg_id : String
  pub conv_id : String
  pub seq : ℕ
  pub from_uid : String
  pub to_uid : String
  pub type : MsgType
  pub content : String
  pub mention : Bool

pub record Ack : Type 0 where
  pub msg_id : String
  pub cli_msg_id : String
  pub conv_id : String
  pub seq : ℕ
  pub from_uid : String
  pub to_uid : String

pub record Notify : Type 0 where
  pub to_uid : String
  pub from_uid : String
  pub conv_id : String
  pub seq : ℕ

unfoldable pub ack_from_push : Push → Ack
ack_from_push p = record {
  msg_id = p.msg_id;
  cli_msg_id = p.cli_msg_id;
  conv_id = p.conv_id;
  seq = p.seq;
  from_uid = p.from_uid;
  to_uid = p.to_uid;
}
