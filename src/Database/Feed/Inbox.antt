-- ===== src/Database/Feed/Inbox.antt =====
-- database/feed.go: rows of feed_inbox that are written in one or more statements.
use alfred_brave_com.Base.{
  ℕ, ◌≡◌, refl, sym, ap, ◌∙◌, String, Bool, ◌&&◌, ◌||◌, List, [], ◌∷◌, ◌++◌, arith, eq_iff,
  contains, exists, ◌==◌, exists-append,
}
use alfred_brave_com.Base.Exec.{ok-injective}
use alfred_brave_com.Database.{Db, InboxEntry}
use alfred_brave_com.Database.Ends.{Ends, Ends-statement, Ends-pure}
use alfred_brave_com.Database.Feed.{
  add_entry, add_entries, is_entry, set_inbox, insert_entries, insert_inbox_batch,
}

pub add_entries-append :
    (post_id : String) (at : ℕ) (xs ys : List String) (rows : List InboxEntry)
    → add_entries post_id at (xs ++ ys) rows
      ≡ add_entries post_id at ys (add_entries post_id at xs rows)
unfolding add_entries
add_entries-append post_id at [] ys rows = refl
add_entries-append post_id at (x ∷ xs) ys rows =
    add_entries-append post_id at xs ys (add_entry post_id at x rows)

unfoldable pub has_entry : String → String → Db → Bool
unfolding exists is_entry
has_entry uid post_id db = exists (is_entry uid post_id) db.feed.inbox

exists-add_entry :
    (post_id uid u p : String) (at : ℕ) (rows : List InboxEntry)
    → exists (is_entry u p) (add_entry post_id at uid rows)
      ≡ (exists (is_entry u p) rows || (uid == u && post_id == p))
unfolding add_entry is_entry exists
exists-add_entry post_id uid u p at rows = ground (
  arith,
  eq_iff uid u,
  eq_iff post_id p,
  exists-append (is_entry u p) rows (record { uid = uid; post_id = post_id; created_at = at } ∷ []),
)

pub exists-add_entries :
    (post_id u p : String) (at : ℕ) (uids : List String) (rows : List InboxEntry)
    → exists (is_entry u p) (add_entries post_id at uids rows)
      ≡ (exists (is_entry u p) rows || (contains u uids && post_id == p))
unfolding add_entries contains
exists-add_entries post_id u p at [] rows = ground arith
exists-add_entries post_id u p at (x ∷ xs) rows = ground (
  arith,
  exists-add_entries post_id u p at xs (add_entry post_id at x rows),
  exists-add_entry post_id x u p at rows,
)

-- The tables with the post in the inboxes of the users.
unfoldable pub with_entries : String → ℕ → List String → Db → Db
unfolding add_entries
with_entries post_id at uids db = set_inbox (add_entries post_id at uids db.feed.inbox) db

pub insert_inbox_batch-Ends :
    (post_id : String) (at : ℕ) (uids : List String) (before : Db)
    → Ends
        (λ db. before ≡ db)
        (insert_inbox_batch uids post_id at)
        (λ u db. with_entries post_id at uids before ≡ db)
unfolding insert_inbox_batch insert_entries with_entries
insert_inbox_batch-Ends post_id at [] before = Ends-pure tt λ db same. same
insert_inbox_batch-Ends post_id at (x ∷ xs) before =
    Ends-statement (insert_entries (x ∷ xs) post_id at) λ db u db' same e.
      ap (with_entries post_id at (x ∷ xs)) same ∙ ap (λ (p : Unit {0} × Db). p.1) (ok-injective e)

pub with_entries-append :
    (post_id : String) (at : ℕ) (xs ys : List String) (db : Db)
    → with_entries post_id at ys (with_entries post_id at xs db)
      ≡ with_entries post_id at (xs ++ ys) db
unfolding with_entries
with_entries-append post_id at xs ys db =
    ap (λ rows. set_inbox rows db) (sym (add_entries-append post_id at xs ys db.feed.inbox))
