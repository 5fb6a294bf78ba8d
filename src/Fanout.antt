-- ===== src/Fanout.antt =====
-- worker/fanout/fanout.go: the consumer of feed.fanout and the recount of the counters. The clock is
-- a parameter: `now_fn i` is its i-th reading, in nanoseconds. The reader gives the frames of Run,
-- numbered in their order; `committed` holds the numbers of those that CommitMessages has given to the
-- broker, and the fate of each call comes from the list `commits`, a missing entry of which is
-- `answered`. What the broker makes of a commit for other frames is not modelled.
pub mod Inboxes
pub mod Stale
mod Tests
use alfred_brave_com.Base.{
  ℕ, zero, suc, ◌+◌, ◌*◌, String, Bool, true, false, Option, none, some, List, [], ◌∷◌, ◌++◌, map,
  find, take, drop, length, ltb, if◌then◌else◌,
}
use alfred_brave_com.Base.Table.{lookup, insert}
use alfred_brave_com.Base.Errors.{Error, driver}
use alfred_brave_com.Base.Exec.{Result, ok, err, Exec, pure, ◌>>=◌, ◌>>◌}
use alfred_brave_com.Database.{Session, Friend, Post, Fate, answered, refused, lost, next_fate}
use alfred_brave_com.Database.Friends.{list_by_owner}
use alfred_brave_com.Database.Feed.{has_post_id, get_posts, insert_inbox_batch}
use alfred_brave_com.Database.Feed.Actions.{touched_post_ids, recount_post_counters}

abbrev pub batch_size : ℕ
batch_size = 500

-- Thirty seconds.
abbrev pub cache_ttl : ℕ
cache_ttl = 30000000000

-- The payload of feed.fanout; the time is in seconds.
pub record FanoutEvent : Type 0 where
  pub post_id : String
  pub pub_uid : String
  pub created_at : ℕ

pub record FriendCacheEntry : Type 0 where
  pub uids : List String
  pub expire_at : ℕ

-- The worker with its list of friends, and the database that it works on.
pub record Worker : Type 0 where
  pub cache : List (String × FriendCacheEntry)
  pub reads : ℕ
  pub session : Session
  pub commits : List Fate
  pub committed : List ℕ

unfoldable pub on_session : {A : Type 0} → Exec Session A → Exec Worker A
on_session m wk = let (r, s) = m wk.session in (r, record wk { session = s })

unfoldable pub friend_uids : List Friend → List String
friend_uids friends = map (λ f. f.friend_uid) friends

-- FlushCounters.
unfoldable pub recount_touched : List String → Exec Session (Unit {0})
recount_touched [] = pure tt
recount_touched (id ∷ ids) = recount_post_counters (id ∷ ids)

unfoldable pub flush_counters : ℕ → Exec Session (Unit {0})
unfolding recount_touched
flush_counters since = touched_post_ids since >>= λ ids. recount_touched ids

-- The loop over the batches; the fuel is one unit for each friend.
unfoldable pub insert_batches : ℕ → List String → String → ℕ → Exec Session (Unit {0})
unfolding take drop
insert_batches zero uids post_id created_at = pure tt
insert_batches (suc fuel) [] post_id created_at = pure tt
insert_batches (suc fuel) (uid ∷ uids) post_id created_at = do
  insert_inbox_batch (take batch_size (uid ∷ uids)) post_id created_at
  insert_batches fuel (drop batch_size (uid ∷ uids)) post_id created_at

module _ (now_fn : ℕ → ℕ) where
  -- What an entry of the cache says, if it is there and has not ended.
  unfoldable pub cached : Option FriendCacheEntry → Worker → Option (List String) × Worker
  cached none wk = (none, wk)
  cached (some x) wk = (
    if ltb (now_fn wk.reads) x.expire_at then some x.uids else none,
    record wk { reads = suc wk.reads },
  )

  unfoldable pub store_friends : String → List String → Exec Worker (List String)
  unfolding insert
  store_friends uid uids wk = (
    ok uids,
    record wk {
      cache = insert uid (record { uids = uids; expire_at = now_fn wk.reads + cache_ttl }) wk.cache;
      reads = suc wk.reads;
    },
  )

  unfoldable pub list_or_query : String → Option (List String) → Exec Worker (List String)
  unfolding friend_uids store_friends
  list_or_query uid (some uids) = pure uids
  list_or_query uid none = do
    friends ← on_session (list_by_owner uid)
    store_friends uid (friend_uids friends)

  unfoldable pub list : String → Exec Worker (List String)
  unfolding cached list_or_query lookup
  list uid wk = let (hit, wk') = cached (lookup uid wk.cache) wk in list_or_query uid hit wk'

  -- Handle, once the post has been looked for.
  unfoldable pub spread : FanoutEvent → Option Post → Exec Worker (Unit {0})
  unfolding insert_batches
  spread ev none = pure tt
  spread ev (some post) =
      if post.is_deleted
      then pure tt
      else if post.is_big_v
      then pure tt
      else list ev.pub_uid >>= λ uids.
          on_session (insert_batches (length uids) uids ev.post_id (ev.created_at * 1000000))

  unfoldable pub handle : FanoutEvent → Exec Worker (Unit {0})
  unfolding spread find has_post_id
  handle ev = do
    posts ← on_session (get_posts (ev.post_id ∷ []))
    spread ev (find (has_post_id ev.post_id) posts)

commit_fate : Fate → ℕ → Exec Worker (Unit {0})
commit_fate answered number wk = (ok tt, record wk { committed = wk.committed ++ number ∷ [] })
commit_fate refused number wk = (err driver, wk)
commit_fate lost number wk = (err driver, record wk { committed = wk.committed ++ number ∷ [] })

unfoldable pub commit_message : ℕ → Exec Worker (Unit {0})
unfolding commit_fate next_fate
commit_message number wk =
    let (fate, rest) = next_fate wk.commits in
    commit_fate fate number (record wk { commits = rest })

-- The commit, when Handle has returned; the next frame, when it has failed.
unfoldable pub after_handle : ℕ → Result (Unit {0}) → Exec Worker (Unit {0})
after_handle number (ok u) = commit_message number
after_handle number (err e) = pure tt

module _ (now_fn : ℕ → ℕ) where
  unfoldable pub take_frame : ℕ → Option FanoutEvent → Exec Worker (Unit {0})
  unfolding commit_message after_handle
  take_frame number none wk = commit_message number wk
  take_frame number (some ev) wk = let (r, wk') = handle now_fn ev wk in after_handle number r wk'

  -- Run on the frames that the reader gives, from a number on.
  unfoldable pub run : ℕ → List (Option FanoutEvent) → Exec Worker (Unit {0})
  unfolding take_frame
  run number [] = pure tt
  run number (frame ∷ frames) = take_frame number frame >> run (suc number) frames
