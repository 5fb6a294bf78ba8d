-- ===== src/Fanout/Tests.antt =====
-- Runs of the fanout on small tables, and the theorems at them.
use alfred_brave_com.Base.{ℕ, ◌≡◌, refl, false, some, [], ◌∷◌, find, exists, keep, take, drop}
use alfred_brave_com.Base.Table.{lookup, insert}
use alfred_brave_com.Base.Exec.{ok, ◌>>=◌}
use alfred_brave_com.Database.{Db, Session, empty_db, steady, statement, select, Post, refused}
use alfred_brave_com.Database.Friends.{list_by_owner, friends_of}
use alfred_brave_com.Database.Feed.{
  get_posts, posts_of, has_post_id, insert_inbox_batch, insert_entries,
}
use alfred_brave_com.Database.Feed.Actions.{
  toggle_like, insert_like, delete_like, recount_post_counters, recount, has_repeats,
  upsert_counters, upsert_counter, has_counter, count_of, is_action, touched_post_ids, touched_in,
}
use alfred_brave_com.Database.Feed.Counters.{counter_in}
use alfred_brave_com.Fanout.{
  Worker, FanoutEvent, flush_counters, recount_touched, handle, spread, list, cached, list_or_query,
  store_friends, on_session, friend_uids, insert_batches, run, take_frame, commit_message,
  after_handle,
}
use alfred_brave_com.Fanout.Stale.{flush_counters-stale, has_actions}
use alfred_brave_com.Fanout.Inboxes.{Spread, handle-Spread}

-- A like, a flush, and the like taken back.
abbrev unliked : Session
unliked =
    (toggle_like 9 "p1" "bob"
      (flush_counters 0 (toggle_like 7 "p1" "bob" (steady empty_db 0)).1).1).1

none_left : has_actions "p1" unliked.db ≡ false
unfolding toggle_like insert_like delete_like statement select exists keep is_action ◌>>=◌
    has_actions flush_counters recount_touched touched_post_ids touched_in recount_post_counters
    recount has_repeats
none_left = refl

flush_counters-stale_example :
    counter_in "p1" (flush_counters 0 unliked).1.db ≡ counter_in "p1" unliked.db
flush_counters-stale_example = flush_counters-stale 0 "p1" unliked none_left

still_one :
    counter_in "p1" unliked.db ≡ some (record { post_id = "p1"; like_cnt = 1; comment_cnt = 0 })
unfolding toggle_like insert_like delete_like statement select exists keep is_action ◌>>=◌
    counter_in flush_counters recount_touched touched_post_ids touched_in recount_post_counters
    recount has_repeats has_counter find upsert_counters upsert_counter count_of
still_one = refl

abbrev clock : ℕ → ℕ
clock i = i

abbrev post : Post
post = record {
  post_id = "p1";
  uid = "ada";
  content = "{}";
  media = "[]";
  is_big_v = false;
  is_deleted = false;
  created_at = 5000000;
}

abbrev tables : Db
tables = record empty_db {
  friends = record { owner_uid = "ada"; friend_uid = "bob" } ∷ [];
  feed = record { posts = post ∷ []; inbox = []; actions = []; counters = [] };
}

abbrev event : FanoutEvent
event = record { post_id = "p1"; pub_uid = "ada"; created_at = 5 }

abbrev other_event : FanoutEvent
other_event = record { post_id = "p2"; pub_uid = "ada"; created_at = 5 }

abbrev worker : Worker
worker = record { cache = []; reads = 0; session = steady tables 0; commits = []; committed = [] }

handled : (handle clock event worker).0 ≡ ok tt
unfolding handle spread list cached list_or_query store_friends on_session friend_uids
    insert_batches lookup insert list_by_owner friends_of keep take drop get_posts posts_of
    has_post_id find insert_inbox_batch insert_entries statement select ◌>>=◌
handled = refl

handle-Spread_example : Spread clock event worker (handle clock event worker).1.session.db
handle-Spread_example = handle-Spread clock event worker tt handled

-- The first event's query is refused: Run goes on to the second, and that one is committed.
abbrev shaken : Worker
shaken = record worker { session = record { db = tables; fates = refused ∷ []; drawn = 0 } }

goes_on :
    ((run clock 3 (some event ∷ some other_event ∷ []) shaken).0 ≡ ok tt)
    × ((run clock 3 (some event ∷ some other_event ∷ []) shaken).1.committed ≡ 4 ∷ [])
unfolding run take_frame commit_message after_handle handle spread on_session get_posts statement
    select ◌>>=◌ posts_of keep find has_post_id
goes_on = (refl, refl)
