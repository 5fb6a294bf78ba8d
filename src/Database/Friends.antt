-- ===== src/Database/Friends.antt =====
-- database/friend.go: friendships, each of which is two rows. The column `status` has one value, and
-- the rows stand in the order of their creation.
pub mod Symmetric
use alfred_brave_com.Base.{
  String, Bool, not, ◌&&◌, List, [], ◌∷◌, ◌++◌, exists, find, keep, ◌==◌, if◌then◌else◌,
}
use alfred_brave_com.Base.Errors.{not_found}
use alfred_brave_com.Base.Exec.{ok, Exec, pure, raise, ◌>>=◌, ◌>>◌}
use alfred_brave_com.Database.{
  Friend, Db, Session, Sql, statement, select, select_one, Ending, commit_with, transaction,
}

unfoldable pub is_friend_row : String → String → Friend → Bool
is_friend_row owner friend f = f.owner_uid == owner && f.friend_uid == friend

-- INSERT INTO friends … ON CONFLICT DO NOTHING
unfoldable pub insert_friend : String → String → Sql (Unit {0})
unfolding exists is_friend_row
insert_friend owner friend db =
    if exists (is_friend_row owner friend) db.friends
    then ok (tt, db)
    else ok (
      tt,
      record db { friends = db.friends ++ record { owner_uid = owner; friend_uid = friend } ∷ [] },
    )

unfoldable pub delete_friend : String → String → Sql (Unit {0})
unfolding keep is_friend_row
delete_friend owner friend db =
    ok (tt, record db { friends = keep (λ f. not (is_friend_row owner friend f)) db.friends })

unfoldable pub create_tx : String → String → Exec Session (Ending (Unit {0}))
create_tx owner friend = do
  statement (insert_friend owner friend)
  statement (insert_friend friend owner)
  pure (commit_with tt)

unfoldable pub create_friend : String → String → Exec Session (Unit {0})
create_friend owner friend =
    if owner == friend then raise not_found else transaction (create_tx owner friend)

unfoldable pub delete_tx : String → String → Exec Session (Ending (Unit {0}))
delete_tx owner friend = do
  statement (delete_friend owner friend)
  statement (delete_friend friend owner)
  pure (commit_with tt)

unfoldable pub remove_friend : String → String → Exec Session (Unit {0})
remove_friend owner friend = transaction (delete_tx owner friend)

unfoldable pub friends_of : String → Db → List Friend
unfolding keep
friends_of owner db = keep (λ f. f.owner_uid == owner) db.friends

unfoldable pub list_by_owner : String → Exec Session (List Friend)
unfolding friends_of
list_by_owner owner = statement (select (friends_of owner))

unfoldable pub get_friendship : String → String → Exec Session Friend
unfolding find is_friend_row
get_friendship owner friend =
    statement (select_one (λ db. find (is_friend_row owner friend) db.friends))
