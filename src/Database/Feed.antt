-- ===== src/Database/Feed.antt =====
-- database/feed.go: the statements on the tables of the feed. `now` is what the server's now() says,
-- in microseconds, the precision of a timestamp. Rows of equal times, which `ORDER BY` leaves in any
-- order, keep the order of the table. A map of rows by their primary key is the list of the rows.
pub mod Actions
pub mod Likes
pub mod Inbox
pub mod Counters
mod Tests
use alfred_brave_com.Base.{
  ℕ, zero, suc, String, Bool, true, false, not, ◌&&◌, ◌||◌, Option, none, some, List, [], ◌∷◌, ◌++◌,
  keep, exists, take, update_where, contains, length, ltb, nat_eq, ◌==◌, if◌then◌else◌,
}
use alfred_brave_com.Base.Sort.{sort_by}
use alfred_brave_com.Base.Errors.{unique_violation, driver}
use alfred_brave_com.Base.Exec.{ok, err, Exec, pure, ◌>>=◌, ◌>>◌}
use alfred_brave_com.Database.{
  Db, Session, Sql, statement, select, Post, InboxEntry, Action, like, comment, PostAction,
  PostCounter, FeedTables, Friend,
}
use alfred_brave_com.Database.Conversations.{draw}
use alfred_brave_com.Database.Friends.{friends_of}

unfoldable pub has_post_id : String → Post → Bool
has_post_id post_id p = p.post_id == post_id

unfoldable pub insert_post : Post → Sql (Unit {0})
unfolding exists has_post_id
insert_post p db =
    if exists (has_post_id p.post_id) db.feed.posts
    then err unique_violation
    else ok (tt, record db { feed = record db.feed { posts = db.feed.posts ++ p ∷ [] } })

unfoldable pub create_post : (ℕ → String) → ℕ → String → String → String → Bool → Exec Session Post
unfolding insert_post
create_post new_uuid now uid content media is_big_v = do
  post_id ← draw new_uuid
  let p : Post = record {
    post_id = post_id;
    uid = uid;
    content = content;
    media = media;
    is_big_v = is_big_v;
    is_deleted = false;
    created_at = now;
  }
  statement (insert_post p)
  pure p

unfoldable pub posts_of : List String → Db → List Post
unfolding keep contains
posts_of post_ids db = keep (λ p. contains p.post_id post_ids) db.feed.posts

unfoldable pub get_posts : List String → Exec Session (List Post)
unfolding posts_of
get_posts [] = pure []
get_posts (id ∷ ids) = statement (select (posts_of (id ∷ ids)))

-- ORDER BY created_at DESC
unfoldable pub newer_post : Post → Post → Bool
newer_post p q = ltb q.created_at p.created_at

unfoldable pub recent_of : List String → ℕ → Db → List Post
unfolding keep contains take sort_by newer_post
recent_of uids limit db =
    take limit
      (sort_by newer_post (keep (λ p. contains p.uid uids && not p.is_deleted) db.feed.posts))

unfoldable pub pull_recent_by_authors : List String → ℕ → Exec Session (List Post)
unfolding recent_of
pull_recent_by_authors [] limit = pure []
pull_recent_by_authors (uid ∷ uids) zero = pure []
pull_recent_by_authors (uid ∷ uids) (suc limit) =
    statement (select (recent_of (uid ∷ uids) (suc limit)))

unfoldable pub is_entry : String → String → InboxEntry → Bool
is_entry uid post_id e = e.uid == uid && e.post_id == post_id

-- INSERT … ON CONFLICT DO NOTHING of one row of feed_inbox.
unfoldable pub add_entry : String → ℕ → String → List InboxEntry → List InboxEntry
unfolding exists is_entry
add_entry post_id created_at uid rows =
    if exists (is_entry uid post_id) rows
    then rows
    else rows ++ record { uid = uid; post_id = post_id; created_at = created_at } ∷ []

unfoldable pub add_entries : String → ℕ → List String → List InboxEntry → List InboxEntry
unfolding add_entry
add_entries post_id created_at [] rows = rows
add_entries post_id created_at (uid ∷ uids) rows =
    add_entries post_id created_at uids (add_entry post_id created_at uid rows)

abbrev pub set_inbox : List InboxEntry → Db → Db
set_inbox rows db = record db { feed = record db.feed { inbox = rows } }

unfoldable pub insert_inbox : String → String → ℕ → Exec Session (Unit {0})
unfolding add_entry
insert_inbox uid post_id created_at =
    statement λ db. ok (tt, set_inbox (add_entry post_id created_at uid db.feed.inbox) db)

unfoldable pub insert_entries : List String → String → ℕ → Sql (Unit {0})
unfolding add_entries
insert_entries uids post_id created_at db =
    ok (tt, set_inbox (add_entries post_id created_at uids db.feed.inbox) db)

unfoldable pub insert_inbox_batch : List String → String → ℕ → Exec Session (Unit {0})
unfolding insert_entries
insert_inbox_batch [] post_id created_at = pure tt
insert_inbox_batch (uid ∷ uids) post_id created_at =
    statement (insert_entries (uid ∷ uids) post_id created_at)

-- `limit <= 0 || limit > 50`; a negative limit is a 0 here.
unfoldable pub inbox_limit : ℕ → ℕ
inbox_limit limit = if nat_eq limit 0 || ltb 50 limit then 20 else limit

unfoldable pub newer_entry : InboxEntry → InboxEntry → Bool
newer_entry e f = ltb f.created_at e.created_at

unfoldable pub inbox_page : String → ℕ → ℕ → Db → List InboxEntry
unfolding keep take sort_by newer_entry inbox_limit
inbox_page uid before limit db =
    take (inbox_limit limit)
      (sort_by newer_entry (keep (λ e. e.uid == uid && ltb e.created_at before) db.feed.inbox))

unfoldable pub page_inbox : String → ℕ → ℕ → Exec Session (List InboxEntry)
unfolding inbox_page
page_inbox uid before limit = statement (select (inbox_page uid before limit))
