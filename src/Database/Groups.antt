-- ===== src/Database/Groups.antt =====
-- database/group.go: the groups and their members. The rows of group_members stand in the order of
-- `joined_at`, and a row is the one that SQL orders by that column.
pub mod Rows
pub mod Changes
use alfred_brave_com.Base.{
  ℕ, zero, suc, ◌+◌, String, Bool, true, false, not, ◌&&◌, ◌||◌, Option, none, some, List, [], ◌∷◌,
  ◌++◌, arith, find, exists, keep, length, update_where, ltb, ◌==◌, if◌then◌else◌,
}
use alfred_brave_com.Base.Errors.{Error, not_found, unique_violation}
use alfred_brave_com.Base.Exec.{Result, ok, err, Exec, pure, ◌>>=◌, ◌>>◌}
use alfred_brave_com.Chat.{MsgType}
use alfred_brave_com.Database.{
  Group, GroupStatus, GroupMember, Role, Db, Session, Sql, statement, select, select_one,
}
use alfred_brave_com.Database.Kv.{next_seq}
use alfred_brave_com.Database.Conversations.{draw}
use alfred_brave_com.Database.Messages.{insert_message, raise_last_seq}

abbrev pub group_max_members : ℕ
group_max_members = 500

unfoldable pub has_gid : String → Group → Bool
has_gid gid g = g.gid == gid

unfoldable pub is_member_row : String → String → GroupMember → Bool
is_member_row gid uid m = m.gid == gid && m.uid == uid

-- left_at IS NULL
unfoldable pub is_active : String → GroupMember → Bool
is_active gid m = m.gid == gid && not m.left

unfoldable pub active_members_of : String → Db → List GroupMember
unfolding is_active keep
active_members_of gid db = keep (is_active gid) db.group_members

unfoldable pub get_group : String → Exec Session Group
unfolding find has_gid
get_group gid = statement (select_one (λ db. find (has_gid gid) db.groups))

unfoldable pub get_group_member : String → String → Exec Session GroupMember
unfolding find is_member_row
get_group_member gid uid =
    statement (select_one (λ db. find (is_member_row gid uid) db.group_members))

unfoldable pub active_members : String → Exec Session (List GroupMember)
unfolding active_members_of
active_members gid = statement (select (active_members_of gid))

-- The event's message, in the transaction of its change.
unfoldable pub insert_system_event : (ℕ → String) → String → String → String → Exec Session String
insert_system_event new_uuid gid actor content = do
  seq ← next_seq gid
  msg_id ← draw new_uuid
  statement (
      insert_message (record {
        msg_id = msg_id;
        conv_id = gid;
        seq = seq;
        from_uid = actor;
        type = MsgType.system_event;
        content = content;
      }))
  statement (raise_last_seq gid seq)
  pure msg_id
