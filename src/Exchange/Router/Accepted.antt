-- ===== src/Exchange/Router/Accepted.antt =====
-- joker/exchange/router.go: which frames become messages, and what the messages say.
use alfred_brave_com.Base.{
  ◌≡◌, ◌≢◌, ◌≤◌, ◌⊎◌, inl, inr, refl, sym, ap, ◌∙◌, String, Bool, true, false, not, ◌&&◌, ◌||◌,
  Option, none, some, List, arith, eq_iff, length, if◌then◌else◌, ◌==◌, Bool-cases, both_ways,
  Option-cases, subst, ◌↔◌,
}
use mathlib.Core.Option.{some-injective}
use alfred_brave_com.Base.Table.{lookup, insert}
use alfred_brave_com.Chat.{Msg}
use alfred_brave_com.Exchange.Router.{
  Gateway, refuse, get_error_message, send_response, WsFrame, MsgFrame, Handled, code_ok, envelope,
  process_message, handle_msg, handle_login, handle_heartbeat, routers, with_frame, with_msg_frame,
  after_check, answer, handled_by, quick_check_content, produce_msg,
}

module _ (g : Gateway) where
  -- What has been checked of a frame's body before its message goes out.
  pub record IsChecked (body : MsgFrame) : Type 0 where
    pub filled : body.content ≢ ""
    pub mentions : List String
    pub read : g.checked_mentions body.content ≡ some mentions
    pub few : length mentions ≤ 50
    pub addressed :
        ((body.group ≡ true) × (body.conv_id ≢ "")) ⊎ ((body.group ≡ false) × (body.to_uid ≢ ""))

  pub record IsAccepted (user_id message : String) (env : Msg) : Type 0 where
    pub frame : WsFrame
    pub body : MsgFrame
    pub frame_read : g.frame_of message ≡ some frame
    pub is_msg : frame.cmd ≡ "msg"
    pub body_read : g.msg_frame_of frame.data_of ≡ some body
    pub checked : IsChecked body
    pub sent : env ≡ envelope g user_id body

  with_msg_frame-IsChecked :
      (user_id : String) (body : MsgFrame) (env : Msg)
      → (with_msg_frame g user_id (some body)).produced ≡ some env
      → IsChecked body × (env ≡ envelope g user_id body)
  unfolding with_msg_frame after_check answer
  with_msg_frame-IsChecked user_id body env e =
      elim (Option-cases (g.checked_mentions body.content)) [
        | inl unread ↦ absurd (ground (arith, e, unread))
        | inr (ms, read) ↦ (
          record {
            filled = ground (arith, e, eq_iff body.content "");
            mentions = ms;
            read = read;
            few = ground (arith, e, read);
            addressed = elim (Bool-cases body.group) [
              | inl grouped ↦ inl (grouped, ground (arith, e, grouped, eq_iff body.conv_id ""))
              | inr alone ↦ inr (alone, ground (arith, e, alone, eq_iff body.to_uid ""))
            ];
          },
          ground (arith, e, read),
        )
      ]

  routed :
      (user_id cmd text : String) (env : Msg)
      → (handled_by g (lookup cmd (routers g)) user_id text).produced ≡ some env
      → (cmd ≡ "msg") × ((handle_msg g user_id text).produced ≡ some env)
  unfolding routers lookup insert handled_by handle_login handle_heartbeat
  routed user_id cmd text env e = (ground (arith, e, eq_iff "msg" cmd), ground (arith, e))

  -- A message that the gateway hands to the producer comes from a frame with the command msg whose
  -- body has a content with at most fifty mentions, and a conversation if it is for a group, a
  -- receiver if not. The message says what the body says, and its sender is the connection's user.
  pub process_message-IsAccepted :
      (user_id message : String) (env : Msg)
      → (process_message g user_id message).produced ≡ some env
      → IsAccepted user_id message env
  unfolding process_message with_frame handle_msg with_msg_frame
  process_message-IsAccepted user_id message env e = elim (Option-cases (g.frame_of message)) [
    | inl unread ↦ absurd (ground (arith, e, unread))
    | inr (frame, frame_read) ↦
        let routed_by =
          routed user_id frame.cmd frame.data_of env
            (subst (λ o. (with_frame g user_id o).produced ≡ some env) frame_read e) in
        elim (Option-cases (g.msg_frame_of frame.data_of)) [
          | inl unread ↦ absurd (ground (arith, routed_by.1, unread))
          | inr (body, body_read) ↦
              let checked = with_msg_frame-IsChecked user_id body env (
                subst (λ o. (with_msg_frame g user_id o).produced ≡ some env) body_read
                  routed_by.1) in
              record {
                frame = frame;
                body = body;
                frame_read = frame_read;
                is_msg = routed_by.0;
                body_read = body_read;
                checked = checked.0;
                sent = checked.1;
              }
        ]
  ]

  -- A reply that says accepted, and a message that the producer took.
  abbrev pub IsTold : Handled → Type 0
  IsTold h = (h.reply ≡ send_response code_ok "accepted") ↔ (
      (env : Msg) × (produce : Msg → Bool) × (g.producer ≡ some produce)
      × (h.produced ≡ some env)
      × (produce env ≡ true))

  untold : (h : Handled) → h.reply ≢ send_response code_ok "accepted" → h.produced ≡ none → IsTold h
  untold h other nothing = (λ e. absurd (other e), λ w. absurd (ground (arith, nothing, w.3)))

  refuse-IsTold : (text : String) → IsTold (refuse text)
  unfolding send_response
  refuse-IsTold text = untold (refuse text) (λ e. ground (arith, ap (λ r. r.code) e)) refl

  ok-IsTold : (h : Handled) → h.reply ≡ send_response code_ok "" → h.produced ≡ none → IsTold h
  unfolding send_response get_error_message
  ok-IsTold h e nothing =
      untold h
        (λ told. ground (arith, ap (λ r. r.code_msg) (sym e ∙ told), eq_iff "Success" "accepted"))
        nothing

  answer-IsTold : (env : Msg) → IsTold (answer g (produce_msg g g.producer env))
  unfolding answer send_response
  answer-IsTold env = elim (Option-cases g.producer) [
    | inl e ↦
        untold (answer g (produce_msg g g.producer env))
          (λ told. ground (
            arith,
            ap (λ o. (answer g (produce_msg g o env)).reply.code) (sym e),
            ap (λ r. r.code) told,
          ))
          (ap (λ o. (answer g (produce_msg g o env)).produced) e)
    | inr (p, e) ↦ elim (Bool-cases (p env)) [
      | inl took ↦ (
        λ told. (env, p, e, ap (λ o. (answer g (produce_msg g o env)).produced) e, took),
        λ w. ap (λ o. (answer g (produce_msg g o env)).reply) e ∙ ground (arith, took),
      )
      | inr failed ↦ (
        λ told. absurd (
            ground (
              arith,
              failed,
              ap (λ o. (answer g (produce_msg g o env)).reply.code) (sym e),
              ap (λ r. r.code) told,
            )),
        λ w. absurd (
            ground (
              arith,
              failed,
              w.4,
              some-injective _ _ (sym e ∙ w.2),
              some-injective _ _
                  (sym (ap (λ o. (answer g (produce_msg g o env)).produced) e) ∙ w.3),
            )),
      )
    ]
  ]

  body-IsTold : (user_id : String) (o : Option MsgFrame) → IsTold (with_msg_frame g user_id o)
  unfolding with_msg_frame after_check
  body-IsTold user_id none = refuse-IsTold ""
  body-IsTold user_id (some body) =
      both_ways IsTold ((body.to_uid == "" && not body.group) || (body.content == ""))
        (refuse "to_uid/content required") addressed (λ e. refuse-IsTold "to_uid/content required")
        (λ e.
          both_ways IsTold (body.group && (body.conv_id == ""))
            (refuse "group msg requires conv_id(gid)") last
            (λ e'. refuse-IsTold "group msg requires conv_id(gid)")
            (λ e'. after_check-IsTold (quick_check_content g body.content)))
    where
      after_check-IsTold : (o : Option String) → IsTold (after_check g user_id body o)
      after_check-IsTold none = answer-IsTold (envelope g user_id body)
      after_check-IsTold (some err) = refuse-IsTold err

      last : Handled
      last = after_check g user_id body (quick_check_content g body.content)

      addressed : Handled
      addressed =
          if body.group && (body.conv_id == "")
          then refuse "group msg requires conv_id(gid)"
          else last

  frame-IsTold : (user_id : String) (o : Option WsFrame) → IsTold (with_frame g user_id o)
  unfolding with_frame routers lookup insert handled_by handle_login handle_heartbeat handle_msg
  frame-IsTold user_id none = refuse-IsTold ""
  frame-IsTold user_id (some frame) =
      both_ways (λ o. IsTold (handled_by g o user_id frame.data_of)) ("login" == frame.cmd) _ _
        (λ e. ok-IsTold (handle_login g user_id frame.data_of) refl refl)
        (λ e.
          both_ways (λ o. IsTold (handled_by g o user_id frame.data_of)) ("heartbeat" == frame.cmd)
            _ _ (λ e. ok-IsTold (handle_heartbeat g user_id frame.data_of) refl refl)
            (λ e.
              both_ways (λ o. IsTold (handled_by g o user_id frame.data_of)) ("msg" == frame.cmd) _
                _ (λ e. body-IsTold user_id (g.msg_frame_of frame.data_of))
                (λ e. refuse-IsTold "")))

  -- What a client is told of its frame: it is told that its message was accepted exactly when the
  -- message reached the producer and the producer returned without an error.
  pub process_message-IsTold :
      (user_id message : String) → IsTold (process_message g user_id message)
  unfolding process_message
  process_message-IsTold user_id message = frame-IsTold user_id (g.frame_of message)
