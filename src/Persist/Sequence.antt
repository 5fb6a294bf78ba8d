-- ===== src/Persist/Sequence.antt =====
-- worker/persist/persist.go: the sequence numbers that persistTx and Handle give out.
use alfred_brave_com.Base.{
  ℕ, ◌≡◌, refl, sym, subst, String, Bool, true, false, Option, none, some, List, [], ◌∷◌, arith,
  find,
}
use alfred_brave_com.Base.Exec.{Exec, Keeps, keeps_rules, Keeps-bind}
use alfred_brave_com.Chat.{MsgType, Msg, Push}
use alfred_brave_com.Database.{
  Fate, answered, refused, lost, Message, Session, commit_with, left_with,
}
use alfred_brave_com.Database.Rules.{On, Keeps-select, Keeps-select_one}
use alfred_brave_com.Database.Ends.{Ends, Ends-bind, Ends-pure, Ends-Keeps, Committed}
use alfred_brave_com.Database.Messages.{has_msg_id}
use alfred_brave_com.Database.Kv.{get_many_batch}
use alfred_brave_com.Database.Users.{get_user}
use alfred_brave_com.Database.Groups.{get_group, active_members}
use alfred_brave_com.Database.Conversations.{is_member}
use alfred_brave_com.Database.Sequence.{
  IsDense, Ends-next_seq, Ends-insert_message, Ends-raise_last_seq, Keeps-Ends,
}
use alfred_brave_com.Database.Single.{ensure_single-IsDense, draw-IsDense, get_conversation-IsDense}
use alfred_brave_com.Persist.{
  Worker, Target, lift, poisoned, refuse_unless, handle, validate, validate_single_msg,
  validate_group_msg, with_msg_id, announce, fan_out, online_members, derive_msg_id, produce_push,
  push_of, write, written, persist_tx, persist_body, replay_or_insert, insert_new, stored_row,
  next_write,
}

module _ (msg : Msg) (content : String) where
  insert_new-IsDense : Ends IsDense (insert_new msg content) (Committed IsDense)
  unfolding insert_new
  insert_new-IsDense = Ends-bind _ _ (Ends-next_seq msg.conv_id) λ seq.
      Ends-bind _ _ (Ends-insert_message (stored_row msg seq content)) λ u.
        Ends-bind _ _ (Ends-raise_last_seq msg.conv_id seq)
          λ v. Ends-pure (commit_with _) (λ db d. d)

  replay-IsDense :
      (row : Option Message) → Ends IsDense (replay_or_insert msg content row) (Committed IsDense)
  unfolding replay_or_insert
  replay-IsDense none = insert_new-IsDense
  replay-IsDense (some row) = Ends-pure (left_with _) (λ db d. tt)

  -- persistTx keeps the numbers dense, whatever its statements meet.
  pub persist_tx-IsDense : Keeps (On IsDense) (persist_tx msg content)
  unfolding persist_tx persist_body
  persist_tx-IsDense = Ends-Keeps _ (
      Ends-bind _ _
        (Keeps-Ends _ (Keeps-select IsDense (λ db. find (has_msg_id msg.msg_id) db.messages)))
        replay-IsDense)

-- The numbers of the worker's database are dense.
abbrev pub Numbered : Worker → Type 0
Numbered w = IsDense w.session.db

pub Keeps-lift : {A : Type 0} (m : Exec Session A) → Keeps (On IsDense) m → Keeps Numbered (lift m)
unfolding lift
Keeps-lift m k = record { at = λ w d. k.at w.session d }

written-session :
    (f : Fate) (ps : List (String × Push)) (w : Worker) → (written f ps w).1.session ≡ w.session
unfolding written
written-session answered ps w = refl
written-session refused ps w = refl
written-session lost ps w = refl

pub write-session : (ps : List (String × Push)) (w : Worker) → (write ps w).1.session ≡ w.session
unfolding write
write-session ps w = written-session (next_write w.writes).0 ps _

produce_push-session :
    (msg : Msg) (seq : ℕ) (to_uid : String) (mention : Bool) (w : Worker)
    → (produce_push msg seq to_uid mention w).1.session ≡ w.session
unfolding produce_push
produce_push-session msg seq to_uid mention w =
    ground (arith, write-session ((to_uid, push_of msg seq to_uid mention) ∷ []) w)

pub produce_push-Numbered :
    (msg : Msg) (seq : ℕ) (to_uid : String) (mention : Bool)
    → Keeps Numbered (produce_push msg seq to_uid mention)
produce_push-Numbered msg seq to_uid mention = record {
  at = λ w d. subst (λ s. IsDense s.db) (sym (produce_push-session msg seq to_uid mention w)) d;
}

poisoned-Numbered :
    {A : Type 0} (m : Exec Worker A) → Keeps Numbered m → Keeps Numbered (poisoned m)
unfolding poisoned
poisoned-Numbered m k = record { at = λ w d. k.at w d }

refuse_unless-Numbered : (b : Bool) → Keeps Numbered (refuse_unless b)
unfolding refuse_unless
refuse_unless-Numbered true = search keeps_rules depth 25
refuse_unless-Numbered false = search keeps_rules depth 25

get_user-IsDense : (uid : String) → Keeps (On IsDense) (get_user uid)
unfolding get_user
get_user-IsDense uid = Keeps-select_one IsDense _

get_group-IsDense : (gid : String) → Keeps (On IsDense) (get_group gid)
unfolding get_group
get_group-IsDense gid = Keeps-select_one IsDense _

active_members-IsDense : (gid : String) → Keeps (On IsDense) (active_members gid)
unfolding active_members
active_members-IsDense gid = Keeps-select IsDense _

is_member-IsDense : (conv_id uid : String) → Keeps (On IsDense) (is_member conv_id uid)
unfolding is_member
is_member-IsDense conv_id uid = Keeps-select IsDense _

get_many_batch-IsDense : (keys : List String) → Keeps (On IsDense) (get_many_batch keys)
unfolding get_many_batch
get_many_batch-IsDense [] = search keeps_rules depth 25
get_many_batch-IsDense (k ∷ ks) = Keeps-select IsDense _

ruleset reads = (
  get_user-IsDense, get_group-IsDense, active_members-IsDense, is_member-IsDense,
  get_many_batch-IsDense, get_conversation-IsDense, ensure_single-IsDense, draw-IsDense,
  persist_tx-IsDense,
)

ruleset steps = (
  keeps_rules, Keeps-lift, produce_push-Numbered, poisoned-Numbered, refuse_unless-Numbered, reads,
)

fan_out-Numbered : (msg : Msg) (seq : ℕ) (ts : List Target) → Keeps Numbered (fan_out msg seq ts)
unfolding fan_out
fan_out-Numbered msg seq [] = search keeps_rules depth 25
fan_out-Numbered msg seq (t ∷ ts) =
    Keeps-bind _ _ (produce_push-Numbered msg seq t.uid _) (λ u. fan_out-Numbered msg seq ts)

online_members-Numbered : (ts : List Target) → Keeps Numbered (online_members ts)
unfolding online_members
online_members-Numbered ts = search steps depth 25

validate_group_msg-Numbered : (msg : Msg) → Keeps Numbered (validate_group_msg msg)
unfolding validate_group_msg
validate_group_msg-Numbered msg = search steps depth 25

announce-Numbered :
    (t : MsgType) (msg : Msg) (seq : ℕ) (ts : List Target) → Keeps Numbered (announce t msg seq ts)
unfolding announce
announce-Numbered MsgType.single msg seq ts = search steps depth 25
announce-Numbered MsgType.group msg seq ts =
    search (steps, fan_out-Numbered, online_members-Numbered) depth 25
announce-Numbered MsgType.system_event msg seq ts =
    search (steps, fan_out-Numbered, online_members-Numbered) depth 25
announce-Numbered MsgType.empty msg seq ts =
    search (steps, fan_out-Numbered, online_members-Numbered) depth 25
announce-Numbered (MsgType.other x) msg seq ts =
    search (steps, fan_out-Numbered, online_members-Numbered) depth 25

module _ (new_uuid : ℕ → String) (uuid5 : String → String) where
  pub derive_msg_id-IsDense :
      (conv_id from_uid cli_msg_id : String)
      → Keeps (On IsDense) (derive_msg_id new_uuid uuid5 conv_id from_uid cli_msg_id)
  unfolding derive_msg_id
  derive_msg_id-IsDense conv_id from_uid cli_msg_id = search (keeps_rules, reads) depth 25

  with_msg_id-Numbered : (msg : Msg) → Keeps Numbered (with_msg_id new_uuid uuid5 msg)
  unfolding with_msg_id
  with_msg_id-Numbered msg = search (steps, derive_msg_id-IsDense) depth 25

  validate_single_msg-Numbered :
      (msg : Msg) → Keeps Numbered (validate_single_msg new_uuid uuid5 msg)
  unfolding validate_single_msg
  validate_single_msg-Numbered msg = search steps depth 25

  validate-Numbered : (t : MsgType) (msg : Msg) → Keeps Numbered (validate new_uuid uuid5 t msg)
  unfolding validate
  validate-Numbered MsgType.single msg = search (steps, validate_single_msg-Numbered) depth 25
  validate-Numbered MsgType.group msg = search (steps, validate_group_msg-Numbered) depth 25
  validate-Numbered MsgType.system_event msg = search steps depth 25
  validate-Numbered MsgType.empty msg = search steps depth 25
  validate-Numbered (MsgType.other x) msg = search steps depth 25

  pub handle-Numbered : (msg : Msg) → Keeps Numbered (handle new_uuid uuid5 msg)
  unfolding handle
  handle-Numbered msg =
      search (steps, validate-Numbered, with_msg_id-Numbered, announce-Numbered) depth 25

  -- Whatever Handle meets at the database and the broker, and whether it returns or fails: if the
  -- numbers of every conversation's messages were 1, 2, 3 and so on up to its counter, they are so
  -- after the call. No number is skipped, none is used twice.
  pub handle-IsDense :
      (msg : Msg) (w : Worker)
      → IsDense w.session.db
      → IsDense (handle new_uuid uuid5 msg w).1.session.db
  handle-IsDense msg w d = (handle-Numbered msg).at w d
