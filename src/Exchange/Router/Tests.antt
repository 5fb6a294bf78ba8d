-- ===== src/Exchange/Router/Tests.antt =====
-- A frame of a client, and the theorems at it.
use alfred_brave_com.Base.{◌≡◌, refl, true, false, some, none, [], if◌then◌else◌, ◌==◌}
use alfred_brave_com.Chat.{Msg, MsgType}
use alfred_brave_com.Exchange.Router.{Gateway, process_message, handle_msg}
use alfred_brave_com.Exchange.Router.Accepted.{
  IsAccepted, IsTold, process_message-IsAccepted, process_message-IsTold,
}

-- One text is a frame, one is a body; the producer takes everything.
abbrev gateway : Gateway
gateway = record {
  frame_of =
      λ text. if text == "frame" then some (record { cmd = "msg"; data_of = "body" }) else none;
  msg_frame_of = λ text.
      if text == "body"
      then some (record {
        conv_id = "";
        to_uid = "bob";
        cli_msg_id = "x1";
        group = false;
        content = "hello";
      })
      else none;
  checked_mentions = λ content. some [];
  meta_of = λ content. record { mentions = []; mention_all = false };
  producer = some (λ env. true);
  now = 7;
}

abbrev hello : Msg
hello = record {
  msg_id = "";
  cli_msg_id = "x1";
  conv_id = "";
  from_uid = "ada";
  to_uid = "bob";
  type = MsgType.single;
  content = "hello";
  mentions = [];
  mention_all = false;
  sent_at = 7;
}

goes_out : (process_message gateway "ada" "frame").produced ≡ some hello
unfolding process_message handle_msg
goes_out = refl

process_message-IsAccepted_example : IsAccepted gateway "ada" "frame" hello
process_message-IsAccepted_example = process_message-IsAccepted gateway "ada" "frame" hello goes_out

process_message-IsTold_example : IsTold gateway (process_message gateway "ada" "frame")
process_message-IsTold_example = process_message-IsTold gateway "ada" "frame"
