-- ===== src/Fanout/Inboxes.antt =====
-- worker/fanout/fanout.go: the inboxes that an event ends in.
use alfred_brave_com.Base.{
  ℕ, zero, suc, ◌*◌, ◌≡◌, ◌≤◌, ◌<◌, refl, sym, ap, ◌∙◌, subst, inl, inr, ◌⊎◌, String, Bool, true,
  false, not, ◌&&◌, Option, none, some, List, [], ◌∷◌, arith, eq_iff, contains, find, take, drop,
  take-drop, length-drop, length, ltb, ltb→lt, both_ways, find-keep,
}
use alfred_brave_com.Base.Table.{lookup}
use alfred_brave_com.Base.Exec.{ok, Exec, pure, ok-injective, ◌>>=◌, resume-ok}
use alfred_brave_com.Database.{Db, Session, Post}
use alfred_brave_com.Database.Ends.{Ends, Ends-bind, Ends-pure, Ends-select}
use alfred_brave_com.Database.Friends.{friends_of, list_by_owner}
use alfred_brave_com.Database.Feed.{has_post_id, get_posts, posts_of}
use alfred_brave_com.Database.Feed.Inbox.{
  with_entries, insert_inbox_batch-Ends, with_entries-append,
}
use alfred_brave_com.Fanout.{
  Worker, FanoutEvent, FriendCacheEntry, batch_size, insert_batches, cached, store_friends,
  list_or_query, list, spread, handle, on_session, friend_uids,
}

insert_batches-Ends :
    (fuel : ℕ) (uids : List String) (post_id : String) (at : ℕ) (before : Db)
    → length uids ≤ fuel
    → Ends
        (λ db. before ≡ db)
        (insert_batches fuel uids post_id at)
        (λ u db. with_entries post_id at uids before ≡ db)
unfolding insert_batches with_entries
insert_batches-Ends zero [] post_id at before enough = Ends-pure tt λ db same. same
insert_batches-Ends zero (x ∷ xs) post_id at before enough = absurd (omega (arith, enough))
insert_batches-Ends (suc fuel) [] post_id at before enough = Ends-pure tt λ db same. same
insert_batches-Ends (suc fuel) (x ∷ xs) post_id at before enough =
    let first = take batch_size (x ∷ xs) in
    let rest = drop batch_size (x ∷ xs) in
    subst
      (λ (ys : List String).
        Ends (λ db. before ≡ db) (insert_batches (suc fuel) (x ∷ xs) post_id at)
          (λ u db. with_entries post_id at ys before ≡ db))
      (take-drop batch_size (x ∷ xs))
      (Ends-bind _ _ (insert_inbox_batch-Ends post_id at first before) λ u.
        subst
          (λ (d : Db).
            Ends (λ db. with_entries post_id at first before ≡ db)
              (insert_batches fuel rest post_id at) (λ v db. d ≡ db))
          (with_entries-append post_id at first rest before)
          (insert_batches-Ends fuel rest post_id at (with_entries post_id at first before)
            (omega (arith, enough, length-drop batch_size (x ∷ xs)))))

-- Whether the table has the post, it is not deleted, and its author is no big name.
unfoldable pub wants_inboxes : Option Post → Bool
wants_inboxes none = false
wants_inboxes (some p) = not p.is_deleted && not p.is_big_v

unfoldable pub post_in : String → Db → Option Post
unfolding find has_post_id
post_in id db = find (has_post_id id) db.feed.posts

posts_of-post_in :
    (id : String) (db : Db) → find (has_post_id id) (posts_of (id ∷ []) db) ≡ post_in id db
unfolding posts_of post_in has_post_id contains
posts_of-post_in id db =
    find-keep (has_post_id id) _ db.feed.posts
      (λ p h. ground (arith, h, eq_iff p.post_id id, eq_iff id p.post_id))

module _ (now_fn : ℕ → ℕ) where
  -- The users are the friends in an entry of the cache that has not ended, or those in the table.
  pub Listed : String → Worker → List String → Type 0
  Listed uid wk uids =
      ((x : FriendCacheEntry) × (lookup uid wk.cache ≡ some x)
        × ((now_fn wk.reads < x.expire_at) × (x.uids ≡ uids)))
      ⊎ (friend_uids (friends_of uid wk.session.db) ≡ uids)

  -- What the list of the friends leaves, with what it returned.
  record Found (uid : String) (wk : Worker) (uids : List String) (wk' : Worker) : Type 0 where
    listed : Listed uid wk uids
    tables : wk'.session.db ≡ wk.session.db

  queried :
      (uid : String) (wk wk1 : Worker) (uids : List String)
      → wk1.session ≡ wk.session
      → (list_or_query now_fn uid none wk1).0 ≡ ok uids
      → Found uid wk uids (list_or_query now_fn uid none wk1).1
  unfolding list_or_query ◌>>=◌ on_session list_by_owner store_friends Listed
  queried uid wk wk1 uids same =
      resume-ok (Found uid wk uids) (λ friends. store_friends now_fn uid (friend_uids friends))
        (list_by_owner uid wk1.session).0
        (record wk1 { session = (list_by_owner uid wk1.session).1 }) uids
        λ friends got e.
          let read =
            (Ends-select {P = λ db. wk.session.db ≡ db} (friends_of uid)).at wk1.session friends
              (ap (λ (s : Session). s.db) (sym same)) got in
          record {
            listed = inr (
                ap (λ (d : Db). friend_uids (friends_of uid d)) read.0
                ∙ ap friend_uids read.1
                ∙ ok-injective e);
            tables = sym read.0;
          }

  from_hit :
      (uid : String) (wk wk1 : Worker) (uids : List String) (x : FriendCacheEntry)
      → lookup uid wk.cache ≡ some x
      → now_fn wk.reads < x.expire_at
      → wk1.session ≡ wk.session
      → (list_or_query now_fn uid (some x.uids) wk1).0 ≡ ok uids
      → Found uid wk uids (list_or_query now_fn uid (some x.uids) wk1).1
  unfolding list_or_query pure Listed
  from_hit uid wk wk1 uids x there valid same e = record {
    listed = inl (x, there, (valid, ok-injective e));
    tables = ap (λ (s : Session). s.db) same;
  }

  from_entry :
      (uid : String) (wk : Worker) (uids : List String) (o : Option FriendCacheEntry)
      → lookup uid wk.cache ≡ o
      → (list_or_query now_fn uid (cached now_fn o wk).0 (cached now_fn o wk).1).0 ≡ ok uids
      → Found uid wk uids (list_or_query now_fn uid (cached now_fn o wk).0 (cached now_fn o wk).1).1
  unfolding cached Listed
  from_entry uid wk uids none there = queried uid wk wk uids refl
  from_entry uid wk uids (some x) there =
      let wk1 : Worker = record wk { reads = suc wk.reads } in
      both_ways
        (λ (hit : Option (List String)).
          (list_or_query now_fn uid hit wk1).0 ≡ ok uids
          → Found uid wk uids (list_or_query now_fn uid hit wk1).1)
        (ltb (now_fn wk.reads) x.expire_at) (some x.uids) none
        (λ valid e.
          from_hit uid wk wk1 uids x there (ltb→lt (now_fn wk.reads) x.expire_at valid) refl e)
        (λ ended. queried uid wk wk1 uids refl)

  list-Found :
      (uid : String) (wk : Worker) (uids : List String)
      → (list now_fn uid wk).0 ≡ ok uids
      → Found uid wk uids (list now_fn uid wk).1
  unfolding list
  list-Found uid wk uids = from_entry uid wk uids (lookup uid wk.cache) refl

  -- The tables after an event.
  pub Spread : FanoutEvent → Worker → Db → Type 0
  Spread ev wk db =
      ((wants_inboxes (post_in ev.post_id wk.session.db) ≡ false) × (wk.session.db ≡ db))
      ⊎ ((wants_inboxes (post_in ev.post_id wk.session.db) ≡ true)
          × ((uids : List String) × Listed ev.pub_uid wk uids
              × (with_entries ev.post_id (ev.created_at * 1000000) uids wk.session.db ≡ db)))

  -- The part of Handle behind its checks, in a session whose tables are still the same.
  abbrev spread_all : FanoutEvent → Exec Worker (Unit {0})
  spread_all ev = list now_fn ev.pub_uid >>= λ uids.
      on_session (insert_batches (length uids) uids ev.post_id (ev.created_at * 1000000))

  spread_all-Spread :
      (ev : FanoutEvent) (wk : Worker) (s : Session) (u : Unit {0})
      → wants_inboxes (post_in ev.post_id wk.session.db) ≡ true
      → s.db ≡ wk.session.db
      → (spread_all ev (record wk { session = s })).0 ≡ ok u
      → Spread ev wk (spread_all ev (record wk { session = s })).1.session.db
  unfolding ◌>>=◌ on_session Spread Listed
  spread_all-Spread ev wk s u wanted same =
      resume-ok (λ (x : Worker). Spread ev wk x.session.db)
        (λ uids.
          on_session (insert_batches (length uids) uids ev.post_id (ev.created_at * 1000000)))
        (list now_fn ev.pub_uid (record wk { session = s })).0
        (list now_fn ev.pub_uid (record wk { session = s })).1 u
        λ uids got e.
          let found = list-Found ev.pub_uid (record wk { session = s }) uids got in
          let listed =
            subst
              (λ (d : Db).
                ((x : FriendCacheEntry) × (lookup ev.pub_uid wk.cache ≡ some x)
                  × ((now_fn wk.reads < x.expire_at) × (x.uids ≡ uids)))
                ⊎ (friend_uids (friends_of ev.pub_uid d) ≡ uids))
              same found.listed in
          inr (
            wanted,
            (
              uids,
              listed,
              (insert_batches-Ends (length uids) uids ev.post_id (ev.created_at * 1000000)
                    wk.session.db (omega arith)).at
                  (list now_fn ev.pub_uid (record wk { session = s })).1.session u
                  (sym (found.tables ∙ same)) e,
            ),
          )

  spread-Spread :
      (ev : FanoutEvent) (wk : Worker) (s : Session) (o : Option Post) (u : Unit {0})
      → post_in ev.post_id wk.session.db ≡ o
      → s.db ≡ wk.session.db
      → (spread now_fn ev o (record wk { session = s })).0 ≡ ok u
      → Spread ev wk (spread now_fn ev o (record wk { session = s })).1.session.db
  unfolding spread Spread wants_inboxes pure
  spread-Spread ev wk s none u found same = λ e. inl (ap wants_inboxes found, sym same)
  spread-Spread ev wk s (some post) u found same =
      both_ways
        (λ (m : Exec Worker (Unit {0})).
          (m (record wk { session = s })).0 ≡ ok u
          → Spread ev wk (m (record wk { session = s })).1.session.db)
        post.is_deleted _ _
        (λ gone e. inl (ap wants_inboxes found ∙ ground (arith, gone), sym same))
        (λ there.
          both_ways
            (λ (m : Exec Worker (Unit {0})).
              (m (record wk { session = s })).0 ≡ ok u
              → Spread ev wk (m (record wk { session = s })).1.session.db)
            post.is_big_v _ _
            (λ big e. inl (ap wants_inboxes found ∙ ground (arith, big), sym same))
            (λ small.
              spread_all-Spread ev wk s u (ap wants_inboxes found ∙ ground (arith, there, small))
                same))

  -- Whenever Handle returns: if the event's post is missing, deleted or by a big name, the tables
  -- are as before; otherwise they are as with one row more for each friend of the author whose inbox
  -- did not have the post, in the order of the friends, however many batches it took. The friends are
  -- those of the table or of an entry of the cache that had not ended.
  pub handle-Spread :
      (ev : FanoutEvent) (wk : Worker) (u : Unit {0})
      → (handle now_fn ev wk).0 ≡ ok u
      → Spread ev wk (handle now_fn ev wk).1.session.db
  unfolding handle ◌>>=◌ on_session get_posts Spread
  handle-Spread ev wk u =
      resume-ok (λ (x : Worker). Spread ev wk x.session.db)
        (λ posts. spread now_fn ev (find (has_post_id ev.post_id) posts))
        (get_posts (ev.post_id ∷ []) wk.session).0
        (record wk { session = (get_posts (ev.post_id ∷ []) wk.session).1 }) u
        λ posts got e.
          let read =
            (Ends-select {P = λ db. wk.session.db ≡ db} (posts_of (ev.post_id ∷ []))).at wk.session
              posts refl got in
          spread-Spread ev wk (get_posts (ev.post_id ∷ []) wk.session).1 _ u
            (sym (posts_of-post_in ev.post_id wk.session.db)
              ∙ ap (λ (d : Db). find (has_post_id ev.post_id) (posts_of (ev.post_id ∷ []) d)) read.0
              ∙ ap (find (has_post_id ev.post_id)) read.1)
            (sym read.0) e
