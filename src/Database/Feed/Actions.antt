-- ===== src/Database/Feed/Actions.antt =====
-- database/feed.go: likes, comments and their counters.
use alfred_brave_com.Base.{
  ℕ, String, Bool, true, false, not, ◌&&◌, ◌||◌, none, some, List, [], ◌∷◌, ◌++◌, keep, exists,
  take, update_where, contains, length, ltb, ◌==◌, if◌then◌else◌,
}
use alfred_brave_com.Base.Sort.{sort_by}
use alfred_brave_com.Base.Errors.{driver}
use alfred_brave_com.Base.Exec.{ok, err, Exec, pure, ◌>>=◌, ◌>>◌}
use alfred_brave_com.Database.{
  Db, Session, Sql, statement, select, Action, like, comment, PostAction, PostCounter,
}
use alfred_brave_com.Database.Feed.{has_post_id}
use alfred_brave_com.Database.Friends.{friends_of}

abbrev pub same_kind : Action → Action → Bool
same_kind like like = true
same_kind comment comment = true
same_kind like comment = false
same_kind comment like = false

-- The primary key of post_actions.
unfoldable pub is_action : String → String → Action → PostAction → Bool
is_action post_id uid kind a = a.post_id == post_id && a.uid == uid && same_kind a.action kind

abbrev pub set_actions : List PostAction → Db → Db
set_actions rows db = record db { feed = record db.feed { actions = rows } }

abbrev pub like_row : String → String → ℕ → PostAction
like_row post_id uid now = record {
  post_id = post_id;
  uid = uid;
  action = like;
  content = none;
  created_at = now;
}

-- INSERT … ON CONFLICT DO NOTHING, with what RowsAffected says: 1 or 0.
unfoldable pub insert_like : String → String → ℕ → Sql Bool
unfolding exists is_action
insert_like post_id uid now db =
    if exists (is_action post_id uid like) db.feed.actions
    then ok (false, db)
    else ok (true, set_actions (db.feed.actions ++ like_row post_id uid now ∷ []) db)

unfoldable pub delete_like : String → String → Sql (Unit {0})
unfolding keep is_action
delete_like post_id uid db =
    ok (tt, set_actions (keep (λ a. not (is_action post_id uid like a)) db.feed.actions) db)

unfoldable pub toggle_like : ℕ → String → String → Exec Session Bool
unfolding insert_like delete_like
toggle_like now post_id uid = do
  added ← statement (insert_like post_id uid now)
  if added then pure true else (statement (delete_like post_id uid) >> pure false)

-- INSERT … ON CONFLICT (post_id, uid, action) DO UPDATE SET content
unfoldable pub upsert_comment : String → String → String → ℕ → Sql (Unit {0})
unfolding exists is_action update_where
upsert_comment post_id uid text now db =
    if exists (is_action post_id uid comment) db.feed.actions
    then ok (
      tt,
      set_actions
          (update_where (is_action post_id uid comment) (λ a. record a { content = some text })
            db.feed.actions)
          db,
    )
    else ok (
      tt,
      set_actions
          (db.feed.actions
            ++ record {
              post_id = post_id;
              uid = uid;
              action = comment;
              content = some text;
              created_at = now;
            }
              ∷ [])
          db,
    )

unfoldable pub add_comment : ℕ → String → String → String → Exec Session (Unit {0})
unfolding upsert_comment
add_comment now post_id uid text = statement (upsert_comment post_id uid text now)

older : PostAction → PostAction → Bool
older a b = ltb a.created_at b.created_at

is_kind_of : Action → String → PostAction → Bool
is_kind_of kind post_id a = a.post_id == post_id && same_kind a.action kind

unfoldable pub comments_of : String → Db → List PostAction
unfolding take sort_by older keep is_kind_of
comments_of post_id db = take 50 (sort_by older (keep (is_kind_of comment post_id) db.feed.actions))

unfoldable pub list_comments : String → Exec Session (List PostAction)
unfolding comments_of
list_comments post_id = statement (select (comments_of post_id))

-- SELECT DISTINCT post_id … WHERE created_at > $1
unfoldable pub touched_in : ℕ → List PostAction → List String
unfolding contains
touched_in since [] = []
touched_in since (a ∷ actions) =
    let rest = touched_in since actions in
    if ltb since a.created_at && not (contains a.post_id rest) then a.post_id ∷ rest else rest

unfoldable pub touched_post_ids : ℕ → Exec Session (List String)
unfolding touched_in
touched_post_ids since = statement (select (λ db. touched_in since db.feed.actions))

-- count(*) FILTER (WHERE action = …) of the rows of one post.
unfoldable pub count_of : Action → String → List PostAction → ℕ
unfolding keep is_kind_of
count_of kind post_id actions = length (keep (is_kind_of kind post_id) actions)

unfoldable pub has_counter : String → PostCounter → Bool
has_counter post_id c = c.post_id == post_id

abbrev pub counter_of : List PostAction → String → PostCounter
counter_of actions post_id = record {
  post_id = post_id;
  like_cnt = count_of like post_id actions;
  comment_cnt = count_of comment post_id actions;
}

-- ON CONFLICT (post_id) DO UPDATE SET like_cnt, comment_cnt
unfoldable pub upsert_counter : PostCounter → List PostCounter → List PostCounter
unfolding has_counter
upsert_counter c [] = c ∷ []
upsert_counter c (d ∷ rows) =
    let rest = upsert_counter c rows in if has_counter c.post_id d then c ∷ rows else d ∷ rest

unfoldable pub upsert_counters : List PostAction → List String → List PostCounter → List PostCounter
unfolding upsert_counter count_of
upsert_counters actions [] rows = rows
upsert_counters actions (id ∷ ids) rows =
    upsert_counters actions ids (upsert_counter (counter_of actions id) rows)

unfoldable pub has_repeats : List String → Bool
unfolding contains
has_repeats [] = false
has_repeats (id ∷ ids) = contains id ids || has_repeats ids

-- The server refuses to change a row twice in one statement.
unfoldable pub recount : List String → Sql (Unit {0})
unfolding has_repeats upsert_counters
recount post_ids db =
    if has_repeats post_ids
    then err driver
    else ok (
      tt,
      record db {
        feed = record db.feed {
          counters = upsert_counters db.feed.actions post_ids db.feed.counters;
        };
      },
    )

unfoldable pub recount_post_counters : List String → Exec Session (Unit {0})
unfolding recount
recount_post_counters [] = pure tt
recount_post_counters (id ∷ ids) = statement (recount (id ∷ ids))

unfoldable pub counters_of : List String → Db → List PostCounter
unfolding keep contains
counters_of post_ids db = keep (λ c. contains c.post_id post_ids) db.feed.counters

unfoldable pub get_counters : List String → Exec Session (List PostCounter)
unfolding counters_of
get_counters [] = pure []
get_counters (id ∷ ids) = statement (select (counters_of (id ∷ ids)))

unfoldable pub soft_delete_post : String → Exec Session (Unit {0})
unfolding update_where has_post_id
soft_delete_post post_id = statement λ db. ok (
  tt,
  record db {
    feed = record db.feed {
      posts =
          update_where (has_post_id post_id) (λ p. record p { is_deleted = true }) db.feed.posts;
    };
  },
)

unfoldable pub count_friends_by_owner : String → Exec Session ℕ
unfolding friends_of
count_friends_by_owner uid = statement (select (λ db. length (friends_of uid db)))
