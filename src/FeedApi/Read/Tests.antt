-- ===== src/FeedApi/Read/Tests.antt =====
-- Pages of a small timeline, and the theorem at one.
use alfred_brave_com.Base.{◌≡◌, refl, false, none, some, [], ◌∷◌, find, exists, keep, take}
use alfred_brave_com.Base.Sort.{sort_by, insert_sorted}
use alfred_brave_com.Base.Order.{gtb}
use alfred_brave_com.Base.Exec.{pure}
use alfred_brave_com.Abort.{answered, answer, call}
use alfred_brave_com.Database.{Db, empty_db, steady, statement, select}
use alfred_brave_com.Database.Friends.{list_by_owner, friends_of}
use alfred_brave_com.Database.Users.{get_users, has_uid}
use alfred_brave_com.Database.Feed.{
  get_posts, posts_of, has_post_id, page_inbox, inbox_page, inbox_limit, newer_entry, newer_post,
  pull_recent_by_authors, recent_of,
}
use alfred_brave_com.Database.Feed.Actions.{get_counters, counters_of, has_counter}
use alfred_brave_com.Fanout.{friend_uids}
use alfred_brave_com.FeedApi.{distinct_uids}
use alfred_brave_com.FeedApi.Read.{
  Cursor, Timeline, get_feed, feed_limit, before_of, pull_entries, merge_and_show, show, merge,
  first_entries, later_entry, hydrate, timeline_of,
}
use alfred_brave_com.FeedApi.Read.Page.{IsPage, get_feed-IsPage}

-- Ada's post of 5.5 s, which the fanout has put into Bob's inbox with its time in whole seconds.
abbrev tables : Db
tables = record empty_db {
  friends = record { owner_uid = "bob"; friend_uid = "ada" } ∷ [];
  feed = record {
    posts =
        record {
          post_id = "p1";
          uid = "ada";
          content = "{}";
          media = "[]";
          is_big_v = false;
          is_deleted = false;
          created_at = 5500000;
        }
        ∷ [];
    inbox = record { uid = "bob"; post_id = "p1"; created_at = 5000000 } ∷ [];
    actions = [];
    counters = [];
  };
}

abbrev first_cursor : Cursor
first_cursor = record { ts = 5500000; post_id = "p1" }

abbrev only_page : Timeline
only_page = record {
  posts =
      record {
        post_id = "p1";
        uid = "ada";
        author_name = "";
        content = "{}";
        media = "[]";
        like_cnt = 0;
        comment_cnt = 0;
        created_at = 5500000;
      }
      ∷ [];
  next_cursor = some first_cursor;
}

first_page : (get_feed 9000000 "bob" (some 1) (some none) (steady tables 0)).0 ≡ answered only_page
unfolding get_feed feed_limit before_of pull_entries merge_and_show show merge first_entries
    later_entry hydrate timeline_of answer call list_by_owner friends_of get_users has_uid get_posts
    posts_of has_post_id page_inbox inbox_page inbox_limit newer_entry newer_post
    pull_recent_by_authors recent_of get_counters counters_of has_counter friend_uids distinct_uids
    statement select pure find exists keep take sort_by insert_sorted gtb
first_page = refl

-- The page behind the first one is the first one.
same_page_again :
    (get_feed 9000000 "bob" (some 1) (some (some first_cursor)) (steady tables 0)).0
    ≡ answered only_page
unfolding get_feed feed_limit before_of pull_entries merge_and_show show merge first_entries
    later_entry hydrate timeline_of answer call list_by_owner friends_of get_users has_uid get_posts
    posts_of has_post_id page_inbox inbox_page inbox_limit newer_entry newer_post
    pull_recent_by_authors recent_of get_counters counters_of has_counter friend_uids distinct_uids
    statement select pure find exists keep take sort_by insert_sorted gtb
same_page_again = refl

get_feed-IsPage_example : IsPage (some 1) tables only_page
get_feed-IsPage_example =
    get_feed-IsPage 9000000 "bob" (some 1) (some none) (steady tables 0) only_page first_page
