-- ===== src/Database/Users.antt =====
-- database/user.go. Profile, avatar and the time of the last login are left out of the rows.
pub mod Created
use alfred_brave_com.Base.{
  ℕ, String, Bool, ◌||◌, List, [], ◌∷◌, ◌++◌, find, exists, keep, contains, ◌==◌, if◌then◌else◌,
}
use alfred_brave_com.Base.Errors.{unique_violation, duplicate_user}
use alfred_brave_com.Base.Exec.{ok, err, Exec, pure, with_error, ◌>>=◌, ◌>>◌}
use alfred_brave_com.Database.{User, Session, Sql, statement, select, select_one}
use alfred_brave_com.Database.Conversations.{draw}

unfoldable pub user_clashes : User → User → Bool
user_clashes new u = u.uid == new.uid || u.user_name == new.user_name || u.email == new.email

-- The primary key of `users`, UNIQUE (user_name) and UNIQUE (email).
unfoldable pub insert_user : User → Sql (Unit {0})
unfolding exists user_clashes
insert_user u db =
    if exists (user_clashes u) db.users
    then err unique_violation
    else ok (tt, record db { users = db.users ++ u ∷ [] })

pub assigned_uid : (ℕ → String) → String → Exec Session String
assigned_uid new_uuid uid = if uid == "" then draw new_uuid else pure uid

unfoldable pub create_user : (ℕ → String) → User → Exec Session User
unfolding insert_user assigned_uid with_error
create_user new_uuid u = do
  uid ← assigned_uid new_uuid u.uid
  with_error (λ e. elim e [ unique_violation ↦ duplicate_user | other ↦ other ])
      (statement (insert_user (record u { uid = uid })))
  pure (record u { uid = uid })

unfoldable pub has_uid : String → User → Bool
has_uid uid u = u.uid == uid

unfoldable pub get_user : String → Exec Session User
unfolding find has_uid
get_user uid = statement (select_one (λ db. find (has_uid uid) db.users))

unfoldable pub get_by_user_name : String → Exec Session User
unfolding find
get_by_user_name name = statement (select_one (λ db. find (λ u. u.user_name == name) db.users))

unfoldable pub get_by_email : String → Exec Session User
unfolding find
get_by_email email = statement (select_one (λ db. find (λ u. u.email == email) db.users))

unfoldable pub get_users : List String → Exec Session (List User)
unfolding keep contains
get_users [] = pure []
get_users (uid ∷ uids) = statement (select (λ db. keep (λ u. contains u.uid (uid ∷ uids)) db.users))
