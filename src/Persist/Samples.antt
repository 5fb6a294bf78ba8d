-- ===== src/Persist/Samples.antt =====
-- A small database, a worker and a message, for the tests.
use alfred_brave_com.Base.{ℕ, String, false, some, [], ◌∷◌, text_append}
use alfred_brave_com.Chat.{MsgType, Msg}
use alfred_brave_com.Database.{empty_db, User, ConvType, Conversation, Db, steady}
use alfred_brave_com.Persist.{Worker}

abbrev pub new_uuid : ℕ → String
new_uuid n = "uuid"

abbrev pub uuid5 : String → String
uuid5 name = text_append "5:" name

abbrev pub user : String → User
user uid = record { uid = uid; user_name = uid; email = uid; password = "" }

abbrev pub chat_of_two : Conversation
chat_of_two = record {
  conv_id = "c1";
  type = ConvType.single;
  single_key = some "ada:bob";
  members = "ada" ∷ "bob" ∷ [];
  last_seq = 0;
}

abbrev pub two_users : Db
two_users = record empty_db {
  users = user "ada" ∷ user "bob" ∷ [];
  conversations = chat_of_two ∷ [];
  conversation_members =
      record { conv_id = "c1"; uid = "ada" } ∷ record { conv_id = "c1"; uid = "bob" } ∷ [];
}

abbrev pub hello : Msg
hello = record {
  msg_id = "m1";
  cli_msg_id = "x1";
  conv_id = "c1";
  from_uid = "ada";
  to_uid = "bob";
  type = MsgType.single;
  content = "\"hello\"";
  mentions = [];
  mention_all = false;
  sent_at = 0;
}

abbrev pub worker : Worker
worker = record {
  session = steady two_users 0;
  collecting = false;
  pending = [];
  pushed = [];
  writes = [];
  committed = 0;
  commits = [];
}
