-- ===== src/ServerApi/Groups.antt =====
-- server/api/group.go: the handlers of groups.
pub mod Announced
pub mod Barred
use alfred_brave_com.Base.{
  ℕ, String, Bool, true, false, ◌||◌, Option, none, some, List, [], ◌∷◌, ◌==◌, if◌then◌else◌,
}
use alfred_brave_com.Base.Errors.{Error}
use alfred_brave_com.Base.Exec.{Exec}
use alfred_brave_com.Abort.{
  Abort, Handler, answer, abort, call, bad_request, database_error, forbidden, conflict, not_found,
}
use alfred_brave_com.Chat.{Msg, MsgType}
use alfred_brave_com.Database.{Session, Group, GroupMember}
use alfred_brave_com.Database.Groups.{get_group, active_members}
use alfred_brave_com.Database.Groups.Changes.{Field, create_group, quit}
use alfred_brave_com.Database.Groups.Changes.Calls.{
  Change, join, kick, rename_to, announce, pin, dissolve, apply,
}

pub record GroupCreate : Type 0 where
  pub name : String
  pub members : List String

-- The field of an answer beside the group's id.
pub data Payload : Type 0 where
  created added left announced dismissed : Payload
  kicked renamed pinned : String → Payload

-- An answer, with the event that is handed to the producer of chat.msg: whether its write fails only
-- shows in the log.
pub record Mutation : Type 0 where
  pub gid : String
  pub payload : Payload
  pub event : Option Msg

pub record GroupView : Type 0 where
  pub group : Group
  pub members : List GroupMember

-- The requests that a group's owner makes.
pub data Request : Type 0 where
  members_add : Option (List String) → Request
  member_delete : String → Request
  group_rename group_announce group_pin : Option String → Request
  group_delete : Request

unfoldable pub mutation_refusal : Error → Abort
mutation_refusal Error.not_owner = forbidden
mutation_refusal Error.owner_cant_quit = forbidden
mutation_refusal Error.group_full = conflict
mutation_refusal Error.group_dismissed = conflict
mutation_refusal Error.bad_target = bad_request
mutation_refusal Error.not_member = bad_request
mutation_refusal Error.not_found = not_found
mutation_refusal _ = database_error

-- What the checks of a request let through, and the field of its answer.
unfoldable pub checked : Request → Option (Change × Payload)
checked (members_add none) = none
checked (members_add (some [])) = none
checked (members_add (some (uid ∷ uids))) = some (join (uid ∷ uids), added)
checked (member_delete uid) = some (kick uid, kicked uid)
checked (group_rename none) = none
checked (group_rename (some name)) =
    if name == "" then none else some (rename_to name, renamed name)
checked (group_announce none) = none
checked (group_announce (some text)) = some (announce text, announced)
checked (group_pin none) = none
checked (group_pin (some msg_id)) = some (pin msg_id, pinned msg_id)
checked group_delete = some (dissolve, dismissed)

-- The parameters: the UUIDs, the payload of an event, what the generator of group ids gives, whether
-- there is a producer, and the clock in seconds.
pub record Gateway : Type 0 where
  pub new_uuid : ℕ → String
  pub marshal : List (String × Field) → String
  pub id_gen : Option String
  pub has_producer : Bool
  pub now : ℕ

module _ (g : Gateway) where
  abbrev group_event : String → String → String → Msg
  group_event gid actor msg_id = record {
    msg_id = msg_id;
    cli_msg_id = "";
    conv_id = gid;
    from_uid = actor;
    to_uid = "";
    type = MsgType.system_event;
    content = "{}";
    mentions = [];
    mention_all = false;
    sent_at = g.now;
  }

  emit_group_event : String → String → String → Option Msg
  emit_group_event gid actor msg_id =
      if msg_id == ""
      then none
      else if g.has_producer
      then some (group_event gid actor msg_id)
      else none

  unfoldable pub respond_group_mutation :
      String → String → Payload → Exec Session String → Handler Mutation
  unfolding emit_group_event mutation_refusal
  respond_group_mutation gid actor payload m = call m mutation_refusal λ msg_id.
      answer (record { gid = gid; payload = payload; event = emit_group_event gid actor msg_id })

  with_created : String → String × String → Handler Mutation
  unfolding emit_group_event
  with_created uid (gid, msg_id) =
      answer (record { gid = gid; payload = created; event = emit_group_event gid uid msg_id })

  unfoldable pub post_group : String → Option GroupCreate → Handler Mutation
  unfolding with_created mutation_refusal
  post_group uid none = abort bad_request
  post_group uid (some body) =
      if body.name == ""
      then abort bad_request
      else call (create_group g.new_uuid g.marshal g.id_gen uid body.name body.members)
          mutation_refusal λ made. with_created uid made

  manage_checked : String → String → Option (Change × Payload) → Handler Mutation
  unfolding respond_group_mutation
  manage_checked uid gid none = abort bad_request
  manage_checked uid gid (some (change, payload)) =
      respond_group_mutation gid uid payload (apply g.new_uuid g.marshal gid uid change)

  unfoldable pub manage : String → String → Request → Handler Mutation
  unfolding manage_checked checked
  manage uid gid request = manage_checked uid gid (checked request)

  unfoldable pub post_quit : String → String → Handler Mutation
  unfolding respond_group_mutation
  post_quit uid gid = respond_group_mutation gid uid left (quit g.new_uuid g.marshal gid uid)

unfoldable pub view_group : String → Handler GroupView
view_group gid =
    call (get_group gid) (λ e. not_found)
      λ g.
        call (active_members g.gid) (λ e. database_error)
          λ members. answer (record { group = g; members = members })
