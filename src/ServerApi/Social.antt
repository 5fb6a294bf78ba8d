-- ===== src/ServerApi/Social.antt =====
-- server/api/friend.go, conversation.go, and the lookups of login.go and get_user.go.
pub mod Private
use alfred_brave_com.Base.{
  ℕ, String, Bool, true, false, not, Option, none, some, List, [], ◌∷◌, ◌==◌, if◌then◌else◌,
}
use alfred_brave_com.Base.Errors.{Error, driver}
use alfred_brave_com.Base.Exec.{Exec, pure, raise, ◌>>=◌}
use alfred_brave_com.Abort.{
  Abort, Handler, answer, abort, call, bad_request, database_error, unexpected, not_found,
  unauthorized,
}
use alfred_brave_com.Database.{Session, User, Friend, Message, Conversation}
use alfred_brave_com.Database.Users.{get_user, get_by_user_name, get_by_email}
use alfred_brave_com.Database.Friends.{create_friend, remove_friend, list_by_owner}
use alfred_brave_com.Database.Conversations.{ensure_single, is_member}
use alfred_brave_com.Database.Messages.{list_after}

pub record FriendAdd : Type 0 where
  pub uid : String
  pub user_name : String

abbrev pub bad_target : Error → Abort
bad_target e = bad_request

abbrev pub database_failed : Error → Abort
database_failed e = database_error

-- The error of a body with neither is told apart from no other.
unfoldable pub resolve_friend_target : FriendAdd → Exec Session User
resolve_friend_target body =
    if not (body.uid == "")
    then get_user body.uid
    else if not (body.user_name == "")
    then get_by_user_name body.user_name
    else raise driver

befriend_target : String → User → Handler User
befriend_target uid target =
    if target.uid == uid
    then abort bad_request
    else call (create_friend uid target.uid) database_failed λ u. answer target

unfoldable pub post_friend : String → Option FriendAdd → Handler User
unfolding befriend_target resolve_friend_target
post_friend uid none = abort bad_request
post_friend uid (some body) =
    call (resolve_friend_target body) bad_target λ target. befriend_target uid target

unfoldable pub delete_friend : String → String → Handler String
delete_friend uid target = call (remove_friend uid target) database_failed λ u. answer target

-- AddFriends: the user of each row.
unfoldable pub friend_infos : List Friend → Exec Session (List User)
friend_infos [] = pure []
friend_infos (f ∷ friends) = do
  info ← get_user f.friend_uid
  infos ← friend_infos friends
  pure (info ∷ infos)

unfoldable pub add_friends : String → Exec Session (List User)
unfolding friend_infos
add_friends uid = list_by_owner uid >>= λ friends. friend_infos friends

unfoldable pub get_friends : String → Handler (List User)
unfolding add_friends
get_friends uid = call (add_friends uid) (λ e. unexpected) λ infos. answer infos

unfoldable pub get_user_view : String → Handler (User × List User)
unfolding add_friends
get_user_view uid =
    call (get_user uid) database_failed
      λ user. call (add_friends user.uid) (λ e. unexpected) λ infos. answer (user, infos)

-- The ids of the two accounts differ: no error of the stores, and told apart from none.
same_account : User → User → Exec Session User
same_account user by_email = if user.uid == by_email.uid then pure user else raise driver

-- lookupLoginUser, with `none` for nil.
unfoldable pub lookup_login_user : Option String → Option String → Exec Session User
unfolding same_account
lookup_login_user (some name) (some email) =
    get_by_user_name name >>= λ user. get_by_email email >>= λ by_email. same_account user by_email
lookup_login_user (some name) none = get_by_user_name name
lookup_login_user none (some email) = get_by_email email
lookup_login_user none none = raise driver

module _ (new_uuid : ℕ → String) where
  ensure_with : String → String → Handler Conversation
  ensure_with uid to_uid =
      call (get_user to_uid) (λ e. not_found)
        λ target. call (ensure_single new_uuid uid to_uid) database_failed λ conv. answer conv

  unfoldable pub post_conversation : String → Option String → Handler Conversation
  unfolding ensure_with
  post_conversation uid none = abort bad_request
  post_conversation uid (some to_uid) =
      if to_uid == ""
      then abort bad_request
      else if to_uid == uid
      then abort bad_request
      else ensure_with uid to_uid

messages_if : Bool → String → ℕ → ℕ → Handler (List Message)
messages_if false conv_id after_seq limit = abort unauthorized
messages_if true conv_id after_seq limit =
    call (list_after conv_id after_seq limit) database_failed λ msgs. answer msgs

-- The numbers that ParseInt and Atoi read; a negative one is a 0 here.
unfoldable pub get_messages : String → String → ℕ → ℕ → Handler (List Message)
unfolding messages_if
get_messages uid conv_id after_seq limit =
    call (is_member conv_id uid) database_failed
      λ member. messages_if member conv_id after_seq limit
