-- ===== src/Database/Feed/Likes.antt =====
-- database/feed.go: what a switch of a like does to the rows of post_actions.
use alfred_brave_com.Base.{
  ℕ, ◌≡◌, refl, sym, subst, String, Bool, true, false, not, ◌&&◌, [], ◌∷◌, ◌++◌, arith, eq_iff,
  exists, keep, if◌then◌else◌, ◌==◌, both_ways, exists-append, exists-keep_out,
}
use alfred_brave_com.Base.Exec.{Result, ok, pure, ok-injective, ◌>>◌}
use alfred_brave_com.Database.{Db, Session, statement, PostAction, Action, like, comment}
use alfred_brave_com.Database.Ends.{Ends, Ends-bind, Ends-statement, Ends-pure}
use alfred_brave_com.Database.Feed.Actions.{
  is_action, same_kind, insert_like, set_actions, like_row, delete_like, toggle_like,
}

-- Whether the user has the action on the post.
unfoldable pub has_action : String → String → Action → Db → Bool
unfolding exists is_action
has_action post_id uid kind db = exists (is_action post_id uid kind) db.feed.actions

-- Whether a key is that of the user's like of the post.
abbrev pub is_the_like : String → String → String → String → Action → Bool
is_the_like post_id uid p u kind = post_id == p && uid == u && same_kind like kind

same_kind_unique :
    (a b c : Action) → (same_kind a b && same_kind a c) ≡ (same_kind a b && same_kind c b)
same_kind_unique like like like = refl
same_kind_unique like like comment = refl
same_kind_unique like comment like = refl
same_kind_unique like comment comment = refl
same_kind_unique comment like like = refl
same_kind_unique comment like comment = refl
same_kind_unique comment comment like = refl
same_kind_unique comment comment comment = refl

one_key :
    (post_id uid p u : String) (kind : Action) (a : PostAction)
    → (is_action p u kind a && is_action post_id uid like a)
      ≡ (is_action p u kind a && is_the_like post_id uid p u kind)
unfolding is_action
one_key post_id uid p u kind a = ground (
  arith,
  same_kind_unique a.action kind like,
  eq_iff a.post_id p,
  eq_iff a.post_id post_id,
  eq_iff post_id p,
  eq_iff a.uid u,
  eq_iff a.uid uid,
  eq_iff uid u,
)

-- What a call returns and leaves, from the given tables: the user's like is as it returned, and
-- every other action as it was.
pub record Switched (post_id uid : String) (before : Db) (liked : Bool) (db : Db) : Type 0 where
  pub answer : liked ≡ not (has_action post_id uid like before)
  pub rows :
      (p u : String) (kind : Action)
      → has_action p u kind db
        ≡ (if is_the_like post_id uid p u kind then liked else has_action p u kind before)

-- Behind the first statement.
Tried : String → String → Db → Bool → Db → Type 0
Tried post_id uid before true db = Switched post_id uid before true db
Tried post_id uid before false db = (before ≡ db) × (has_action post_id uid like before ≡ true)

inserted-Switched :
    (post_id uid : String) (now : ℕ) (db : Db)
    → has_action post_id uid like db ≡ false
    → Switched post_id uid db true
        (set_actions (db.feed.actions ++ like_row post_id uid now ∷ []) db)
unfolding has_action exists is_action
inserted-Switched post_id uid now db absent = record {
  answer = ground (arith, absent);
  rows = λ p u kind. ground (
    arith,
    eq_iff post_id p,
    eq_iff uid u,
    exists-append (is_action p u kind) db.feed.actions (like_row post_id uid now ∷ []),
  );
}

deleted-Switched :
    (post_id uid : String) (db : Db)
    → has_action post_id uid like db ≡ true
    → Switched post_id uid db false
        (set_actions (keep (λ a. not (is_action post_id uid like a)) db.feed.actions) db)
unfolding has_action
deleted-Switched post_id uid db there = record {
  answer = ground (arith, there);
  rows = λ p u kind. ground (
    arith,
    exists-keep_out (is_action p u kind) (is_action post_id uid like)
        (is_the_like post_id uid p u kind) db.feed.actions (one_key post_id uid p u kind),
  );
}

insert_like-Tried :
    (post_id uid : String) (now : ℕ) (db : Db) (added : Bool) (db' : Db)
    → insert_like post_id uid now db ≡ ok (added, db')
    → Tried post_id uid db added db'
unfolding insert_like Tried has_action
insert_like-Tried post_id uid now db added db' =
    both_ways (λ (r : Result (Bool × Db)). r ≡ ok (added, db') → Tried post_id uid db added db')
      (exists (is_action post_id uid like) db.feed.actions) _ _
      (λ there e.
        subst (λ (p : Bool × Db). Tried post_id uid db p.0 p.1) (ok-injective e) (refl, there))
      (λ absent e.
        subst (λ (p : Bool × Db). Tried post_id uid db p.0 p.1) (ok-injective e)
          (inserted-Switched post_id uid now db absent))

delete_like-Switched :
    (post_id uid : String) (before db : Db) (u : Unit {0}) (db' : Db)
    → Tried post_id uid before false db
    → delete_like post_id uid db ≡ ok (u, db')
    → Switched post_id uid before false db'
unfolding delete_like Tried
delete_like-Switched post_id uid before db u db' (same, there) e =
    subst (λ (p : Unit {0} × Db). Switched post_id uid before false p.1) (ok-injective e)
      (subst
        (λ (d : Db).
          Switched post_id uid before false
            (set_actions (keep (λ a. not (is_action post_id uid like a)) d.feed.actions) d))
        same (deleted-Switched post_id uid before there))

second-Ends :
    (post_id uid : String) (before : Db) (added : Bool)
    → Ends
        (Tried post_id uid before added)
        (if added then pure true else (statement (delete_like post_id uid) >> pure false))
        (Switched post_id uid before)
unfolding Tried
second-Ends post_id uid before true = Ends-pure true λ db h. h
second-Ends post_id uid before false =
    Ends-bind {R = λ u db. Switched post_id uid before false db} _ _
      (Ends-statement (delete_like post_id uid)
        λ db u db' h e. delete_like-Switched post_id uid before db u db' h e)
      λ u. Ends-pure false λ db h. h

-- A switch of a like, whenever it returns: it returns that the user likes the post now exactly when
-- the user did not before, the like is there exactly when it says so, and every other user's like,
-- every other post's and every comment is there as before.
pub toggle_like-Switched :
    (now : ℕ) (post_id uid : String) (s : Session) (liked : Bool)
    → (toggle_like now post_id uid s).0 ≡ ok liked
    → Switched post_id uid s.db liked (toggle_like now post_id uid s).1.db
unfolding toggle_like
toggle_like-Switched now post_id uid s liked =
    (Ends-bind {P = λ db. s.db ≡ db} {R = Tried post_id uid s.db} _ _
        (Ends-statement (insert_like post_id uid now) λ db added db' same e.
          subst (λ (d : Db). Tried post_id uid d added db') (sym same)
            (insert_like-Tried post_id uid now db added db' e))
        (second-Ends post_id uid s.db)).at
      s liked refl
