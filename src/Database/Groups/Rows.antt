-- ===== src/Database/Groups/Rows.antt =====
-- database/group.go: the statements on the tables groups and group_members that change them.
use alfred_brave_com.Base.{
  ℕ, String, Bool, true, false, not, ◌&&◌, Option, none, some, List, [], ◌∷◌, ◌++◌, find, exists,
  keep, length, update_where, if◌then◌else◌,
}
use alfred_brave_com.Base.Errors.{unique_violation}
use alfred_brave_com.Base.Exec.{ok, err}
use alfred_brave_com.Database.{Group, GroupStatus, GroupMember, Role, member, Sql, select_one}
use alfred_brave_com.Database.Conversations.{is_row}
use alfred_brave_com.Database.Groups.{has_gid, is_member_row, active_members_of}

-- The primary key of `groups`.
unfoldable pub insert_group : Group → Sql (Unit {0})
unfolding exists has_gid
insert_group g db =
    if exists (has_gid g.gid) db.groups
    then err unique_violation
    else ok (tt, record db { groups = db.groups ++ g ∷ [] })

new_row : String → String → Role → GroupMember
new_row gid uid role = record { gid = gid; uid = uid; role = role; left = false }

-- The primary key of `group_members`.
unfoldable pub insert_group_member : String → String → Role → Sql (Unit {0})
unfolding exists is_member_row new_row
insert_group_member gid uid role db =
    if exists (is_member_row gid uid) db.group_members
    then err unique_violation
    else ok (tt, record db { group_members = db.group_members ++ new_row gid uid role ∷ [] })

rejoin : Option GroupMember → String → String → List GroupMember → List GroupMember
unfolding keep is_member_row new_row
rejoin none gid uid rows = rows ++ new_row gid uid member ∷ []
rejoin (some m) gid uid rows =
    keep (λ r. not (is_member_row gid uid r)) rows ++ record m { left = false } ∷ []

-- ON CONFLICT (gid, uid) DO UPDATE SET left_at = NULL, joined_at = now(): the row keeps its role.
unfoldable pub upsert_group_member : String → String → Sql (Unit {0})
unfolding rejoin find
upsert_group_member gid uid db = ok (
  tt,
  record db {
    group_members = rejoin (find (is_member_row gid uid) db.group_members) gid uid db.group_members;
  },
)

unfoldable pub update_group : String → (Group → Group) → Sql (Unit {0})
unfolding update_where has_gid
update_group gid f db = ok (tt, record db { groups = update_where (has_gid gid) f db.groups })

unfoldable pub recount : String → Sql (Unit {0})
unfolding active_members_of update_group
recount gid db =
    let n = length (active_members_of gid db) in
    update_group gid (λ g. record g { member_count = n }) db

leaving : String → String → GroupMember → Bool
unfolding is_member_row
leaving gid uid m = is_member_row gid uid m && not m.left

-- UPDATE group_members SET left_at = now() WHERE ... AND left_at IS NULL, and RowsAffected.
unfoldable pub mark_left : String → String → Sql ℕ
unfolding leaving keep update_where
mark_left gid uid db = ok (
  length (keep (leaving gid uid) db.group_members),
  record db {
    group_members = update_where (leaving gid uid) (λ m. record m { left = true }) db.group_members;
  },
)

unfoldable pub delete_member : String → String → Sql (Unit {0})
unfolding keep is_row
delete_member conv_id uid db = ok (
  tt,
  record db {
    conversation_members = keep (λ m. not (is_row conv_id uid m)) db.conversation_members;
  },
)

unfoldable pub get_member_role : String → String → Sql (GroupStatus × Role)
unfolding find has_gid is_member_row
get_member_role gid uid = select_one λ db. elim (find (has_gid gid) db.groups) [
  | none ↦ none
  | some g ↦ elim (find (λ m. is_member_row gid uid m && not m.left) db.group_members) [
    | none ↦ none
    | some m ↦ some (g.status, m.role)
  ]
]
