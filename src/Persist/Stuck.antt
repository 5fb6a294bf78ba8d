-- ===== src/Persist/Stuck.antt =====
-- worker/persist/persist.go: a single message from a user to the same user, with no conversation.
use alfred_brave_com.Base.{ℕ, ◌≡◌, String, some, [], arith, find, eq_refl}
use alfred_brave_com.Base.Errors.{not_found}
use alfred_brave_com.Base.Exec.{ok, err, ◌>>=◌, with_error, raise}
use alfred_brave_com.Chat.{MsgType, Msg}
use alfred_brave_com.Database.{User, Session, statement, settle, next_fate, select_one, one_row}
use alfred_brave_com.Database.Users.{has_uid, get_user}
use alfred_brave_com.Database.Conversations.{ensure_single}
use alfred_brave_com.Persist.{
  Worker, handle, validate, validate_single_msg, poisoned, lift, with_type,
}

-- A worker whose next calls of the database are all answered.
abbrev pub Answered : Worker → Type 0
Answered w = w.session.fates ≡ []

module _ (new_uuid : ℕ → String) (uuid5 : String → String) where
  get_user-Answered :
      (uid : String) (u : User) (w : Worker)
      → find (has_uid uid) w.session.db.users ≡ some u
      → Answered w
      → poisoned (lift (get_user uid)) w ≡ (ok u, w)
  unfolding poisoned lift get_user statement settle next_fate select_one one_row with_error
  get_user-Answered uid u w known quiet = rw (quiet, known)

  ensure_single_self :
      (uid : String) (s : Session) → ensure_single new_uuid uid uid s ≡ (err not_found, s)
  unfolding ensure_single raise
  ensure_single_self uid s = rw (eq_refl uid)

  lift_self :
      (uid : String) (w : Worker) → lift (ensure_single new_uuid uid uid) w ≡ (err not_found, w)
  unfolding lift
  lift_self uid w = rw (ensure_single_self uid w.session)

  module _ (msg : Msg) (u : User) (w : Worker) where
    validate_self :
        msg.conv_id ≡ ""
        → msg.to_uid ≡ msg.from_uid
        → find (has_uid msg.from_uid) w.session.db.users ≡ some u
        → Answered w
        → validate_single_msg new_uuid uuid5 msg w ≡ (err not_found, w)
    unfolding validate_single_msg ◌>>=◌
    validate_self unset self known quiet = rw (
      self,
      unset,
      get_user-Answered msg.from_uid u w known quiet,
      get_user-Answered msg.from_uid u w known quiet,
      lift_self msg.from_uid w,
    )

    typed_self : msg.type ≡ MsgType.single → with_type msg ≡ msg
    unfolding with_type
    typed_self single = ground arith

    validate-single :
        (t : MsgType)
        → t ≡ MsgType.single
        → validate_single_msg new_uuid uuid5 msg w ≡ (err not_found, w)
        → validate new_uuid uuid5 t msg w ≡ (err not_found, w)
    unfolding validate ◌>>=◌
    validate-single t single h = rw (single, h)

  -- Such a message of a known user, where every round trip to the database is answered, is refused
  -- with ErrNotFound, which is no ErrPoison, and the worker is as before.
  pub self_message_stuck :
      (msg : Msg) (u : User) (w : Worker)
      → msg.type ≡ MsgType.single
      → msg.conv_id ≡ ""
      → msg.to_uid ≡ msg.from_uid
      → find (has_uid msg.from_uid) w.session.db.users ≡ some u
      → Answered w
      → handle new_uuid uuid5 msg w ≡ (err not_found, w)
  unfolding handle ◌>>=◌
  self_message_stuck msg u w single unset self known quiet = rw (
    typed_self msg u w single,
    validate-single msg u w msg.type single (validate_self msg u w unset self known quiet),
  )
