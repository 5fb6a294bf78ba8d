-- ===== src/Database/Groups/Changes.antt =====
-- database/group.go: the operations that change a group. `marshal` is encoding/json's Marshal on
-- the payload of an event, `new_uuid` is uuid.NewString.
pub mod Calls
pub mod Steps
pub mod Events
pub mod Numbers
pub mod Refusals
use alfred_brave_com.Base.{
  ℕ, ◌+◌, String, Bool, true, false, not, ◌&&◌, ◌||◌, Option, none, some, List, [], ◌∷◌, ◌++◌, find,
  exists, keep, length, update_where, ltb, nat_eq, ◌==◌, if◌then◌else◌,
}
use alfred_brave_com.Base.Errors.{
  Error, unique_violation, bad_target, group_dismissed, not_owner, group_full, owner_cant_quit,
}
use alfred_brave_com.Base.Table.{insert}
use alfred_brave_com.Base.Exec.{ok, err, Exec, pure, raise, or_raise, ◌>>=◌, ◌>>◌}
use alfred_brave_com.Database.{
  Group, GroupStatus, active, dismissed, GroupMember, Role, owner, member, ConvType, Conversation,
  Session, Sql, statement, select, select_one, Ending, commit_with, transaction,
}
use alfred_brave_com.Database.Conversations.{insert_conversation, insert_member_once, is_row}
use alfred_brave_com.Database.Groups.Rows.{
  insert_group, insert_group_member, upsert_group_member, update_group, recount, mark_left,
  delete_member, get_member_role,
}
use alfred_brave_com.Database.Groups.{
  group_max_members, has_gid, is_member_row, active_members_of, get_group, insert_system_event,
}

-- A value of an event's payload.
pub data Field : Type 0 where
  text : String → Field
  texts : List String → Field

unfoldable pub is_dismissed : GroupStatus → Bool
is_dismissed active = false
is_dismissed dismissed = true

pub refuse_if : Bool → Error → Exec Session (Unit {0})
refuse_if true e = raise e
refuse_if false e = pure tt

unfoldable pub with_extra : List (String × Field) → List (String × Field) → List (String × Field)
with_extra payload [] = payload
with_extra payload ((k, v) ∷ extra) = with_extra (insert k v payload) extra

pub add_rows : String → List String → Exec Session (Unit {0})
add_rows gid [] = pure tt
add_rows gid (uid ∷ uids) = do
  statement (upsert_group_member gid uid)
  statement (insert_member_once gid uid)
  add_rows gid uids

-- Those of the texts that are no active members yet; a text that stands twice stays twice.
pub newcomers : String → List String → Exec Session (List String)
newcomers gid [] = pure []
newcomers gid (uid ∷ uids) = do
  here ←
      statement
        (select (λ db. exists (λ m. is_member_row gid uid m && not m.left) db.group_members))
  rest ← newcomers gid uids
  pure (if here then rest else uid ∷ rest)

pub join_change : String → List String → Exec Session (Unit {0})
join_change gid uids = do
  count ← statement (select (λ db. length (active_members_of gid db)))
  fresh ← newcomers gid uids
  refuse_if (ltb group_max_members (count + length fresh)) group_full
  add_rows gid fresh
  statement (recount gid)

pub kick_change : String → String → Exec Session (Unit {0})
kick_change gid target = do
  rows ← statement (mark_left gid target)
  refuse_if (nat_eq rows 0) bad_target
  statement (recount gid)
  statement (delete_member gid target)

unfoldable pub set_group : String → (Group → Group) → Exec Session (Unit {0})
set_group gid f = statement (update_group gid f)

-- The members' rows of a new group; the owner is passed over.
pub member_rows : String → String → List String → Exec Session (List String)
member_rows gid owner_uid [] = pure []
member_rows gid owner_uid (uid ∷ uids) = do
  joined ←
      (if uid == owner_uid
        then pure []
        else do statement (insert_group_member gid uid member); pure (uid ∷ []))
  rest ← member_rows gid owner_uid uids
  pure (joined ++ rest)

pub conversation_rows : String → List String → Exec Session (Unit {0})
conversation_rows gid [] = pure tt
conversation_rows gid (uid ∷ uids) = do
  statement (insert_member_once gid uid)
  conversation_rows gid uids

new_group : String → String → String → ℕ → Group
new_group gid name owner_uid count = record {
  gid = gid;
  name = name;
  announcement = "";
  announced = false;
  owner_uid = owner_uid;
  pinned_msg_id = none;
  status = active;
  member_count = count;
}

group_conversation : String → List String → Conversation
group_conversation gid all = record {
  conv_id = gid;
  type = ConvType.group;
  single_key = none;
  members = all;
  last_seq = 0;
}

pub is_owner : Role → Bool
is_owner owner = true
is_owner member = false

-- The checks of mutateAsOwner, and the change behind them.
unfoldable pub guarded : String → String → Group → Exec Session (Unit {0}) → Exec Session (Unit {0})
guarded gid operator g change =
    if is_dismissed g.status
    then raise group_dismissed
    else if not (g.owner_uid == operator)
    then raise not_owner
    else change

module _ (new_uuid : ℕ → String) (marshal : List (String × Field) → String) where
  pub create_tx : String → String → String → List String → Exec Session (Ending (String × String))
  create_tx gid owner_uid name uids = do
    statement (insert_group (new_group gid name owner_uid (length uids + 1)))
    statement (insert_group_member gid owner_uid owner)
    others ← member_rows gid owner_uid uids
    statement (insert_conversation (group_conversation gid (owner_uid ∷ others)))
    conversation_rows gid (owner_uid ∷ others)
    let content =
        marshal
          (("event", text "group_create") ∷ ("actor", text owner_uid) ∷ ("name", text name) ∷ [])
    msg_id ← insert_system_event new_uuid gid owner_uid content
    pure (commit_with (gid, msg_id))

  -- The gid, and the event's message. `id_gen` is the snowflake generator, which may refuse.
  pub create_group : Option String → String → String → List String → Exec Session (String × String)
  create_group id_gen owner_uid name uids =
      if owner_uid == "" || name == ""
      then raise bad_target
      else do gid ← or_raise id_gen Error.driver; transaction (create_tx gid owner_uid name uids)

  unfoldable pub owner_tx :
      String
      → String
      → String
      → Exec Session (Unit {0})
      → List (String × Field)
      → Exec Session (Ending String)
  owner_tx gid operator event change extra = do
    g ← statement (select_one (λ db. find (has_gid gid) db.groups))
    guarded gid operator g change
    let content = marshal (with_extra (("event", text event) ∷ ("actor", text operator) ∷ []) extra)
    msg_id ← insert_system_event new_uuid gid operator content
    pure (commit_with msg_id)

  unfoldable pub mutate_as_owner :
      String
      → String
      → String
      → Exec Session (Unit {0})
      → List (String × Field)
      → Exec Session String
  mutate_as_owner gid operator event change extra =
      transaction (owner_tx gid operator event change extra)

  pub add_members : String → String → List String → Exec Session String
  add_members gid operator [] = raise bad_target
  add_members gid operator (uid ∷ uids) =
      mutate_as_owner gid operator "member_join" (join_change gid (uid ∷ uids))
        (("members", texts (uid ∷ uids)) ∷ [])

  pub remove_member : String → String → String → Exec Session String
  remove_member gid operator target = do
    g ← get_group gid
    if g.owner_uid == target
        then raise bad_target
        else mutate_as_owner gid operator "member_kick" (kick_change gid target)
            (("target", text target) ∷ [])

  pub quit_tx : String → String → Exec Session (Ending String)
  quit_tx gid uid = do
    seen ← statement (get_member_role gid uid)
    refuse_if (is_dismissed seen.0) group_dismissed
    refuse_if (is_owner seen.1) owner_cant_quit
    statement (mark_left gid uid)
    statement (recount gid)
    statement (delete_member gid uid)
    msg_id ←
        insert_system_event new_uuid gid uid
          (marshal (("event", text "member_quit") ∷ ("actor", text uid) ∷ []))
    pure (commit_with msg_id)

  pub quit : String → String → Exec Session String
  quit gid uid = transaction (quit_tx gid uid)

  unfoldable pub rename : String → String → String → Exec Session String
  rename gid operator name =
      if name == ""
      then raise bad_target
      else mutate_as_owner gid operator "group_rename"
          (set_group gid (λ g. record g { name = name })) (("name", text name) ∷ [])

  pub set_announcement : String → String → String → Exec Session String
  set_announcement gid operator content =
      mutate_as_owner gid operator "announcement_set"
        (set_group gid (λ g. record g { announcement = content; announced = true }))
        (("text", text content) ∷ [])

  pub set_pin : String → String → String → Exec Session String
  set_pin gid operator msg_id =
      let pinned = if msg_id == "" then none else some msg_id in
      mutate_as_owner gid operator (if msg_id == "" then "pin_unset" else "pin_set")
        (set_group gid (λ g. record g { pinned_msg_id = pinned })) (("msg_id", text msg_id) ∷ [])

  pub dismiss : String → String → Exec Session String
  dismiss gid operator =
      mutate_as_owner gid operator "group_dismiss"
        (set_group gid (λ g. record g { status = dismissed })) []
