-- ===== src/FeedApi.antt =====
-- feed/api: the HTTP handlers of the feed. BindJSON's result and the identity of the user are
-- arguments, as are `size`, the number of a text's bytes, and what json.Marshal makes of a text.
pub mod Read
use alfred_brave_com.Base.{
  ℕ, zero, suc, String, Bool, true, false, ◌||◌, Option, none, some, List, [], ◌∷◌, ◌++◌, find,
  length, ltb, nat_eq, map, ◌/◌, if◌then◌else◌, contains, ◌==◌,
}
use alfred_brave_com.Base.Errors.{Error}
use alfred_brave_com.Abort.{
  Abort, Handler, answer, abort, call, bad_request, database_error, not_found,
}
use alfred_brave_com.Database.{Session, Post, PostAction, User}
use alfred_brave_com.Database.Users.{get_users, has_uid}
use alfred_brave_com.Database.Feed.{create_post, get_posts, has_post_id}
use alfred_brave_com.Database.Feed.Actions.{
  count_friends_by_owner, toggle_like, add_comment, list_comments,
}
use alfred_brave_com.Fanout.{FanoutEvent}

abbrev pub big_v_threshold : ℕ
big_v_threshold = 5000

abbrev pub database_failed : Error → Abort
database_failed e = database_error

-- The JSON texts that json.Marshal makes.
pub record Json : Type 0 where
  pub size : String → ℕ
  pub text_content : String → String
  pub media_list : List String → String

pub record PostCreate : Type 0 where
  pub text : String
  pub media : List String

-- The answer of createPost, with the event that is handed to the producer of feed.fanout: whether
-- its write fails only shows in the log.
pub record Published : Type 0 where
  pub post_id : String
  pub is_big_v : Bool
  pub created_at : ℕ
  pub event : FanoutEvent

pub record CommentView : Type 0 where
  pub uid : String
  pub user_name : String
  pub content : Option String
  pub created_at : ℕ

abbrev pub name_in : List User → String → String
name_in users uid = elim (find (has_uid uid) users) [ none ↦ "" | some u ↦ u.user_name ]

-- The first occurrence of each.
unfoldable pub distinct_uids : List String → List String → List String
unfolding contains
distinct_uids seen [] = []
distinct_uids seen (uid ∷ uids) =
    let known = contains uid seen in
    let rest = distinct_uids (if known then seen else uid ∷ seen) uids in
    if known then rest else uid ∷ rest

comment_view : List User → PostAction → CommentView
comment_view users a = record {
  uid = a.uid;
  user_name = name_in users a.uid;
  content = a.content;
  created_at = a.created_at;
}

module _ (json : Json) (new_uuid : ℕ → String) (now : ℕ) where
  published : Post → Published
  published p = record {
    post_id = p.post_id;
    is_big_v = p.is_big_v;
    created_at = p.created_at;
    event = record { post_id = p.post_id; pub_uid = p.uid; created_at = p.created_at / 1000000 };
  }

  post_by : String → PostCreate → Handler Published
  unfolding published
  post_by uid body =
      if nat_eq (json.size body.text) 0 || ltb 2000 (json.size body.text)
      then abort bad_request
      else call (count_friends_by_owner uid) database_failed λ friend_cnt.
        call
          (create_post new_uuid now uid (json.text_content body.text) (json.media_list body.media)
            (ltb big_v_threshold friend_cnt))
          database_failed λ p. answer (published p)

  unfoldable pub publish : String → Option PostCreate → Handler Published
  unfolding post_by
  publish uid none = abort bad_request
  publish uid (some body) = post_by uid body

  -- A post that is there and not deleted.
  like_found : String → String → Option Post → Handler Bool
  like_found uid post_id none = abort not_found
  like_found uid post_id (some p) =
      if p.is_deleted
      then abort not_found
      else call (toggle_like now post_id uid) database_failed λ liked. answer liked

  unfoldable pub switch_like : String → String → Handler Bool
  unfolding like_found find has_post_id
  switch_like uid post_id =
      call (get_posts (post_id ∷ [])) database_failed
        λ posts. like_found uid post_id (find (has_post_id post_id) posts)

  unfoldable pub comment_on : String → String → Option String → Handler (Unit {0})
  comment_on uid post_id none = abort bad_request
  comment_on uid post_id (some text) =
      if nat_eq (json.size text) 0 || ltb 500 (json.size text)
      then abort bad_request
      else call (add_comment now post_id uid (json.text_content text)) database_failed
          λ u. answer tt

unfoldable pub comments_on : String → Handler (List CommentView)
unfolding comment_view distinct_uids
comments_on post_id = call (list_comments post_id) database_failed λ comments.
    call (get_users (distinct_uids [] (map (λ a. a.uid) comments))) database_failed
      λ authors. answer (map (comment_view authors) comments)
