-- ===== src/Database/Groups/Changes/Calls.antt =====
-- database/group.go: the calls that change a group, as data.
use alfred_brave_com.Base.{ℕ, String, Option, List}
use alfred_brave_com.Base.Exec.{Exec, pure, ◌>>◌}
use alfred_brave_com.Database.{Session}
use alfred_brave_com.Database.Groups.Changes.{
  Field, create_group, add_members, remove_member, quit, rename, set_announcement, set_pin, dismiss,
}

-- What only the owner may do.
pub data Change : Type 0 where
  join : List String → Change
  kick : String → Change
  rename_to : String → Change
  announce : String → Change
  pin : String → Change
  dissolve : Change

pub data Call : Type 0 where
  create : Option String → String → String → List String → Call
  leave : String → String → Call
  manage : String → String → Change → Call

module _ (new_uuid : ℕ → String) (marshal : List (String × Field) → String) where
  unfoldable pub apply : String → String → Change → Exec Session String
  apply gid operator (join uids) = add_members new_uuid marshal gid operator uids
  apply gid operator (kick target) = remove_member new_uuid marshal gid operator target
  apply gid operator (rename_to name) = rename new_uuid marshal gid operator name
  apply gid operator (announce content) = set_announcement new_uuid marshal gid operator content
  apply gid operator (pin msg_id) = set_pin new_uuid marshal gid operator msg_id
  apply gid operator dissolve = dismiss new_uuid marshal gid operator

  unfoldable pub perform : Call → Exec Session (Unit {0})
  perform (create id_gen owner_uid name uids) =
      create_group new_uuid marshal id_gen owner_uid name uids >> pure tt
  perform (leave gid uid) = quit new_uuid marshal gid uid >> pure tt
  perform (manage gid operator c) = apply gid operator c >> pure tt
