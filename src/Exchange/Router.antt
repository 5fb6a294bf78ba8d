-- ===== src/Exchange/Router.antt =====
-- joker/exchange/router.go, produce.go and errors.go: what the gateway does with a client's frame.
-- What encoding/json reads from a text is a parameter, so is the producer: `none` for none set, and
-- otherwise whether its call returns without an error. The reply goes to the client's send channel.
pub mod Accepted
mod Tests
use alfred_brave_com.Base.{
  ℕ, ◌≡◌, ◌≢◌, ◌≤◌, ◌⊎◌, inl, inr, refl, String, Bool, true, false, not, ◌&&◌, ◌||◌, Option, none,
  some, List, [], ◌∷◌, arith, eq_iff, ltb, leb, nat_eq, length, if◌then◌else◌, ◌==◌, Bool-cases,
  Option-cases,
}
use alfred_brave_com.Base.Table.{lookup, insert}
use alfred_brave_com.Chat.{Msg, MsgType}

abbrev pub code_ok : ℕ
code_ok = 200

abbrev pub parameter_illegal : ℕ
parameter_illegal = 1001

abbrev pub operation_failure : ℕ
operation_failure = 1009

pub record WsFrame : Type 0 where
  pub cmd : String
  pub data_of : String

pub record MsgFrame : Type 0 where
  pub conv_id : String
  pub to_uid : String
  pub cli_msg_id : String
  pub group : Bool
  pub content : String

-- `mentions` and `mention_all` of a content, as handleMsg reads them.
pub record Meta : Type 0 where
  pub mentions : List String
  pub mention_all : Bool

pub record MessageResponse : Type 0 where
  pub code : ℕ
  pub code_msg : String

-- What a handler has done: its reply, the message it has handed to the producer, and whether it has
-- touched the client.
pub record Handled : Type 0 where
  pub reply : MessageResponse
  pub produced : Option Msg
  pub touched : Bool

abbrev code_map : List (ℕ × String)
code_map =
    (200, "Success")
    ∷ (1000, "未登录")
    ∷ (1001, "参数不合法")
    ∷ (1003, "未授权")
    ∷ (1005, "没有数据")
    ∷ (1004, "系统错误")
    ∷ (1006, "添加错误")
    ∷ (1007, "删除错误")
    ∷ (1008, "存储错误")
    ∷ (1009, "操作失败")
    ∷ (1010, "路由不存在")
    ∷ []

code_message : ℕ → List (ℕ × String) → String
code_message code [] = "未定义错误类型!"
code_message code ((c, text) ∷ rest) =
    let later = code_message code rest in if nat_eq c code then text else later

unfoldable pub get_error_message : ℕ → String → String
unfolding code_message
get_error_message code message = if message == "" then code_message code code_map else message

unfoldable pub send_response : ℕ → String → MessageResponse
send_response code code_msg = record { code = code; code_msg = get_error_message code code_msg }

abbrev refuse : String → Handled
refuse code_msg = record {
  reply = send_response parameter_illegal code_msg;
  produced = none;
  touched = false;
}

-- The parameters, the clock's reading among them.
pub record Gateway : Type 0 where
  pub frame_of : String → Option WsFrame
  pub msg_frame_of : String → Option MsgFrame
  pub checked_mentions : String → Option (List String)
  pub meta_of : String → Meta
  pub producer : Option (Msg → Bool)
  pub now : ℕ

module _ (g : Gateway) where
  -- The texts of the errors, and `none` for nil.
  abbrev pub quick_check_content : String → Option String
  quick_check_content content = elim (g.checked_mentions content) [
    | none ↦ some "content must be valid json object"
    | some mentions ↦ if ltb 50 (length mentions) then some "mentions exceed 50" else none
  ]

  abbrev pub envelope : String → MsgFrame → Msg
  envelope user_id frame = record {
    msg_id = "";
    cli_msg_id = frame.cli_msg_id;
    conv_id = frame.conv_id;
    from_uid = user_id;
    to_uid = frame.to_uid;
    type = if frame.group then MsgType.group else MsgType.single;
    content = frame.content;
    mentions = (g.meta_of frame.content).mentions;
    mention_all = (g.meta_of frame.content).mention_all;
    sent_at = g.now;
  }

  -- Whether ProduceMsg returns without an error, and what reaches the producer.
  abbrev pub produce_msg : Option (Msg → Bool) → Msg → Bool × Option Msg
  produce_msg none env = (false, none)
  produce_msg (some produce) env = (produce env, some env)

  answer : Bool × Option Msg → Handled
  answer (ok, produced) = record {
    reply =
        if ok
        then send_response code_ok "accepted"
        else send_response operation_failure "message pipeline unavailable";
    produced = produced;
    touched = false;
  }

  after_check : String → MsgFrame → Option String → Handled
  unfolding answer
  after_check user_id frame (some err) = refuse err
  after_check user_id frame none = answer (produce_msg g.producer (envelope user_id frame))

  with_msg_frame : String → Option MsgFrame → Handled
  unfolding after_check
  with_msg_frame user_id none = refuse ""
  with_msg_frame user_id (some frame) =
      if (frame.to_uid == "" && not frame.group) || (frame.content == "")
      then refuse "to_uid/content required"
      else if frame.group && (frame.conv_id == "")
      then refuse "group msg requires conv_id(gid)"
      else after_check user_id frame (quick_check_content frame.content)

  abbrev pub Handler : Type 0
  Handler = String → String → Handled

  pub handle_login : Handler
  handle_login user_id text = record {
    reply = send_response code_ok "";
    produced = none;
    touched = false;
  }

  pub handle_heartbeat : Handler
  handle_heartbeat user_id text = record {
    reply = send_response code_ok "";
    produced = none;
    touched = true;
  }

  pub handle_msg : Handler
  unfolding with_msg_frame
  handle_msg user_id text = with_msg_frame user_id (g.msg_frame_of text)

  abbrev pub register_cmd : String → Handler → List (String × Handler) → List (String × Handler)
  register_cmd cmd h routers = insert cmd h routers

  -- The package's init.
  pub routers : List (String × Handler)
  routers =
      register_cmd "msg" handle_msg
        (register_cmd "heartbeat" handle_heartbeat (register_cmd "login" handle_login []))

  handled_by : Option Handler → Handler
  handled_by none user_id text = refuse ""
  handled_by (some handler) user_id text = handler user_id text

  with_frame : String → Option WsFrame → Handled
  unfolding routers lookup insert handled_by
  with_frame user_id none = refuse ""
  with_frame user_id (some frame) = handled_by (lookup frame.cmd routers) user_id frame.data_of

  pub process_message : String → String → Handled
  unfolding with_frame
  process_message user_id message = with_frame user_id (g.frame_of message)
