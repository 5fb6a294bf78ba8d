-- ===== src/FeedApi/Read/Page.antt =====
-- feed/api/read.go: what stands on a page of the timeline.
use alfred_brave_com.Base.{
  ℕ, zero, suc, ◌≡◌, ◌≤◌, refl, sym, subst, String, Bool, true, false, Option, none, some, List, [],
  ◌∷◌, arith, exists, keep, length, length-take, map, All,
}
use alfred_brave_com.Base.Exec.{Exec}
use alfred_brave_com.Abort.{answered, call-answered, answered-injective, answer, panic, abort}
use alfred_brave_com.Database.{Db, Session, Post, InboxEntry, statement, select}
use alfred_brave_com.Database.Ends.{Ends, Ends-select, Ends-pure}
use alfred_brave_com.Database.Friends.{list_by_owner}
use alfred_brave_com.Database.Feed.{get_posts, posts_of, page_inbox, pull_recent_by_authors}
use alfred_brave_com.Database.Feed.Actions.{has_repeats, get_counters}
use alfred_brave_com.Database.Users.{get_users}
use alfred_brave_com.FeedApi.{database_failed, distinct_uids}
use alfred_brave_com.Fanout.{friend_uids}
use alfred_brave_com.FeedApi.Read.{
  FeedItem, TimelineEntry, Timeline, Cursor, feed_limit, merge, hydrate, timeline_of, show,
  merge_and_show, get_feed, before_of, pull_entries,
}
use alfred_brave_com.FeedApi.Read.Merge.{
  entry_ids, is_shown, first_entries-distinct, take-distinct, hydrate-distinct, length-hydrate,
  hydrate-shown, named-ids, named-shown, length-named,
}

pub record IsPage (limit : Option ℕ) (db : Db) (page : Timeline) : Type 0 where
  pub bounded : length page.posts ≤ feed_limit limit
  pub small : feed_limit limit ≤ 50
  pub distinct : has_repeats (map (λ i. i.post_id) page.posts) ≡ false
  pub shown : All (λ i. exists (is_shown i) db.feed.posts ≡ true) page.posts

feed_limit-le : (limit : Option ℕ) → feed_limit limit ≤ 50
unfolding feed_limit
feed_limit-le none = omega arith
feed_limit-le (some v) = ground arith

-- A call that reads leaves the tables, here known to be those at the start.
module _ (before : Db) where
  Reads : {A : Type 0} → Exec Session A → Type 0
  Reads m = Ends (λ db. before ≡ db) m (λ a db. before ≡ db)

  select-Reads : {A : Type 0} (f : Db → A) → Reads (statement (select f))
  unfolding Reads
  select-Reads f = record { at = λ s a h e. ((Ends-select {P = λ db. before ≡ db} f).at s a h e).0 }

  pull-Reads : (uids : List String) (limit : ℕ) → Reads (pull_recent_by_authors uids limit)
  unfolding pull_recent_by_authors Reads
  pull-Reads [] limit = Ends-pure [] λ db h. h
  pull-Reads (uid ∷ uids) zero = Ends-pure [] λ db h. h
  pull-Reads (uid ∷ uids) (suc limit) = select-Reads _

  page_inbox-Reads : (uid : String) (until limit : ℕ) → Reads (page_inbox uid until limit)
  unfolding page_inbox
  page_inbox-Reads uid until limit = select-Reads _

  list_by_owner-Reads : (uid : String) → Reads (list_by_owner uid)
  unfolding list_by_owner
  list_by_owner-Reads uid = select-Reads _

exists-keep :
    (q k : Post → Bool) (rows : List Post) → exists q (keep k rows) ≡ true → exists q rows ≡ true
unfolding exists keep
exists-keep q k [] h = h
exists-keep q k (p ∷ rows) h = ground (arith, h, exists-keep q k rows)

-- What get_posts returns is in the table.
get_posts-rows :
    (ids : List String) (before : Db)
    → Ends
        (λ db. before ≡ db)
        (get_posts ids)
        (λ posts db. (q : Post → Bool) → exists q posts ≡ true → exists q before.feed.posts ≡ true)
unfolding get_posts posts_of exists
get_posts-rows [] before = Ends-pure [] λ db h q e. cc
get_posts-rows (id ∷ ids) before = record {
  at = λ s posts h e q there.
      let read = (Ends-select {P = λ db. before ≡ db} (posts_of (id ∷ ids))).at s posts h e in
      exists-keep q _ before.feed.posts (
        subst (λ (d : Db). exists q (posts_of (id ∷ ids) d) ≡ true) (sym read.0)
          (subst (λ (ps : List Post). exists q ps ≡ true) (sym read.1) there));
}

All-known :
    (posts rows : List Post) (items : List FeedItem)
    → ((q : Post → Bool) → exists q posts ≡ true → exists q rows ≡ true)
    → All (λ i. exists (is_shown i) posts ≡ true) items
    → All (λ i. exists (is_shown i) rows ≡ true) items
All-known posts rows [] known h = tt
All-known posts rows (i ∷ items) known (hi, hs) =
    (known (is_shown i) hi, All-known posts rows items known hs)

-- From entries that are distinct and no more than the limit.
show-IsPage :
    (limit : Option ℕ) (merged : List TimelineEntry) (before : Db) (s : Session) (page : Timeline)
    → has_repeats (entry_ids merged) ≡ false
    → length merged ≤ feed_limit limit
    → before ≡ s.db
    → (show (feed_limit limit) merged s).0 ≡ answered page
    → IsPage limit before page
unfolding show timeline_of answer
show-IsPage limit merged before s page distinct few same =
    call-answered _ (get_posts (entry_ids merged)) database_failed _ s page λ posts got.
      call-answered _ (get_counters (entry_ids merged)) database_failed _ _ page λ counters counted.
        let items = hydrate posts counters merged in
        call-answered _ (get_users (distinct_uids [] (map (λ i. i.uid) items))) database_failed _ _
          page
          λ users named e.
            let known = (get_posts-rows (entry_ids merged) before).at s posts same got in
            subst (IsPage limit before) (answered-injective _ page e) (record {
              bounded =
                  omega
                    (arith, few, length-named users items, length-hydrate posts counters merged);
              small = feed_limit-le limit;
              distinct =
                  subst (λ (ids : List String). has_repeats ids ≡ false)
                    (sym (named-ids users items)) (hydrate-distinct posts counters merged distinct);
              shown = named-shown users before.feed.posts items (
                  All-known posts before.feed.posts items known
                    (hydrate-shown posts counters merged));
            })

merge_and_show-IsPage :
    (limit : Option ℕ) (inbox : List InboxEntry) (pulled : Option (List TimelineEntry))
    (before : Db) (s : Session) (page : Timeline)
    → before ≡ s.db
    → (merge_and_show (feed_limit limit) inbox pulled s).0 ≡ answered page
    → IsPage limit before page
unfolding merge_and_show merge panic
merge_and_show-IsPage limit inbox none before s page same e = cc
merge_and_show-IsPage limit inbox (some pulled) before s page same e =
    show-IsPage limit _ before s page
      (take-distinct (feed_limit limit) _ (first_entries-distinct [] _))
      (length-take (feed_limit limit) _) same e

-- An answer of getFeed holds no more posts than the limit, which is at most fifty, none of them
-- twice, and each is in the table, by the author named, and not deleted.
pub get_feed-IsPage :
    (now : ℕ) (uid : String) (limit : Option ℕ) (cursor : Option (Option Cursor)) (s : Session)
    (page : Timeline)
    → (get_feed now uid limit cursor s).0 ≡ answered page
    → IsPage limit s.db page
unfolding get_feed abort Reads
get_feed-IsPage now uid limit none s page = λ e. cc
get_feed-IsPage now uid limit (some cur) s page =
    call-answered _ (page_inbox uid (before_of now cur) (feed_limit limit)) database_failed _ s page
      λ inbox got_inbox.
        let db1 =
          (page_inbox-Reads s.db uid (before_of now cur) (feed_limit limit)).at s inbox refl
            got_inbox in
        call-answered _ (list_by_owner uid) database_failed _ _ page λ friends got_friends.
          let db2 = (list_by_owner-Reads s.db uid).at _ friends db1 got_friends in
          call-answered _ (pull_recent_by_authors (uid ∷ friend_uids friends) (feed_limit limit))
            database_failed _ _ page
            λ pulled got_pulled.
              merge_and_show-IsPage limit inbox (pull_entries (before_of now cur) cur pulled) s.db _
                page
                ((pull-Reads s.db (uid ∷ friend_uids friends) (feed_limit limit)).at _ pulled db2
                  got_pulled)
