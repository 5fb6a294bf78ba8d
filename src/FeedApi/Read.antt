-- ===== src/FeedApi/Read.antt =====
-- feed/api/read.go: a page of a user's timeline. Times are in microseconds, which the cursor gives in
-- nanoseconds; it is taken as decoded, with `none` for a text that is no cursor.
pub mod Merge
pub mod Page
mod Tests
use alfred_brave_com.Base.{
  ℕ, zero, suc, ◌+◌, String, Bool, true, false, not, ◌&&◌, ◌||◌, Option, none, some, List, [], ◌∷◌,
  ◌++◌, find, length, take, ltb, nat_eq, map, if◌then◌else◌, contains, ◌==◌,
}
use alfred_brave_com.Base.Order.{gtb}
use alfred_brave_com.Base.Sort.{sort_by}
use alfred_brave_com.Abort.{Handler, answer, abort, panic, call, bad_request, database_error}
use alfred_brave_com.Database.{Session, Post, PostCounter, InboxEntry, User}
use alfred_brave_com.Database.Users.{get_users}
use alfred_brave_com.Database.Friends.{list_by_owner}
use alfred_brave_com.Database.Feed.{has_post_id, get_posts, page_inbox, pull_recent_by_authors}
use alfred_brave_com.Database.Feed.Actions.{get_counters, has_counter}
use alfred_brave_com.Fanout.{friend_uids}
use alfred_brave_com.FeedApi.{database_failed, name_in, distinct_uids}

pub record FeedItem : Type 0 where
  pub post_id : String
  pub uid : String
  pub author_name : String
  pub content : String
  pub media : String
  pub like_cnt : ℕ
  pub comment_cnt : ℕ
  pub created_at : ℕ

pub record Cursor : Type 0 where
  pub ts : ℕ
  pub post_id : String

pub record TimelineEntry : Type 0 where
  pub post_id : String
  pub created_at : ℕ

pub record Timeline : Type 0 where
  pub posts : List FeedItem
  pub next_cursor : Option Cursor

-- `limit=`: the number that Atoi reads, `none` where it reads none; a negative one is a 0 here.
unfoldable pub feed_limit : Option ℕ → ℕ
feed_limit none = 20
feed_limit (some v) = if ltb 0 v && not (ltb 50 v) then v else 20

before_of : ℕ → Option Cursor → ℕ
before_of now none = now + 1000000
before_of now (some cur) = cur.ts

-- Where a pulled post has the very time of the cursor; with no cursor its post_id is read from nil.
same_time : Option Cursor → Post → Option Bool
same_time none p = none
same_time (some cur) p = some (not (p.post_id == cur.post_id))

-- Whether a pulled post is taken, `none` for a panic.
unfoldable pub pull_one : ℕ → Option Cursor → Post → Option Bool
unfolding same_time
pull_one before cur p =
    if ltb p.created_at before
    then some true
    else if nat_eq p.created_at before
    then same_time cur p
    else some false

abbrev pub entry_of : Post → TimelineEntry
entry_of p = record { post_id = p.post_id; created_at = p.created_at }

pulled_entry : Option Bool → Post → Option (List TimelineEntry) → Option (List TimelineEntry)
pulled_entry (some true) p (some rest) = some (entry_of p ∷ rest)
pulled_entry (some false) p rest = rest
pulled_entry none p rest = none
pulled_entry (some true) p none = none

unfoldable pub pull_entries : ℕ → Option Cursor → List Post → Option (List TimelineEntry)
unfolding pulled_entry pull_one
pull_entries before cur [] = some []
pull_entries before cur (p ∷ ps) =
    pulled_entry (pull_one before cur p) p (pull_entries before cur ps)

unfoldable pub later_entry : TimelineEntry → TimelineEntry → Bool
unfolding gtb
later_entry a b =
    if nat_eq a.created_at b.created_at
    then gtb a.post_id b.post_id
    else ltb b.created_at a.created_at

-- The first entry of each post.
unfoldable pub first_entries : List String → List TimelineEntry → List TimelineEntry
unfolding contains
first_entries seen [] = []
first_entries seen (e ∷ es) =
    let known = contains e.post_id seen in
    let rest = first_entries (if known then seen else e.post_id ∷ seen) es in
    if known then rest else e ∷ rest

-- The loop ends when it has as many as the limit, which is not 0.
unfoldable pub merge : ℕ → List TimelineEntry → List TimelineEntry
unfolding sort_by later_entry first_entries take
merge limit entries = take limit (first_entries [] (sort_by later_entry entries))

counts_in : List PostCounter → String → ℕ × ℕ
unfolding find has_counter
counts_in counters post_id = elim (find (has_counter post_id) counters) [
  | none ↦ (0, 0)
  | some c ↦ (c.like_cnt, c.comment_cnt)
]

item_of : List PostCounter → Post → FeedItem
unfolding counts_in
item_of counters p = record {
  post_id = p.post_id;
  uid = p.uid;
  author_name = "";
  content = p.content;
  media = p.media;
  like_cnt = (counts_in counters p.post_id).0;
  comment_cnt = (counts_in counters p.post_id).1;
  created_at = p.created_at;
}

add_item : List PostCounter → Option Post → List FeedItem → List FeedItem
unfolding item_of
add_item counters none items = items
add_item counters (some p) items = if p.is_deleted then items else item_of counters p ∷ items

unfoldable pub hydrate : List Post → List PostCounter → List TimelineEntry → List FeedItem
unfolding add_item find has_post_id
hydrate posts counters [] = []
hydrate posts counters (e ∷ es) =
    add_item counters (find (has_post_id e.post_id) posts) (hydrate posts counters es)

abbrev pub with_name : List User → FeedItem → FeedItem
with_name users item = record item { author_name = name_in users item.uid }

last_cursor : List FeedItem → Option Cursor
last_cursor [] = none
last_cursor (i ∷ []) = some (record { ts = i.created_at; post_id = i.post_id })
last_cursor (i ∷ j ∷ items) = last_cursor (j ∷ items)

timeline_of : ℕ → List FeedItem → Timeline
unfolding last_cursor
timeline_of limit items = record {
  posts = items;
  next_cursor = if nat_eq (length items) limit then last_cursor items else none;
}

-- The second half, from the merged entries on.
unfoldable pub show : ℕ → List TimelineEntry → Handler Timeline
unfolding timeline_of hydrate distinct_uids
show limit merged = call (get_posts (map (λ e. e.post_id) merged)) database_failed λ posts.
    call (get_counters (map (λ e. e.post_id) merged)) database_failed λ counters.
      let items = hydrate posts counters merged in
      call (get_users (distinct_uids [] (map (λ i. i.uid) items))) database_failed
        λ users. answer (timeline_of limit (map (with_name users) items))

unfoldable pub merge_and_show : ℕ → List InboxEntry → Option (List TimelineEntry) → Handler Timeline
unfolding merge show
merge_and_show limit inbox none = panic
merge_and_show limit inbox (some pulled) = show limit (
    merge limit
      (map (λ e. record { post_id = e.post_id; created_at = e.created_at }) inbox ++ pulled))

-- getFeed, at a reading of the clock.
unfoldable pub get_feed : ℕ → String → Option ℕ → Option (Option Cursor) → Handler Timeline
unfolding feed_limit before_of merge_and_show pull_entries friend_uids
get_feed now uid limit none = abort bad_request
get_feed now uid limit (some cur) =
    call (page_inbox uid (before_of now cur) (feed_limit limit)) database_failed λ inbox.
      call (list_by_owner uid) database_failed λ friends.
        call (pull_recent_by_authors (uid ∷ friend_uids friends) (feed_limit limit)) database_failed
          λ pulled.
            merge_and_show (feed_limit limit) inbox (pull_entries (before_of now cur) cur pulled)
