-- ===== src/Database/Feed/Counters.antt =====
-- database/feed.go: the counters of posts against the rows they count.
use alfred_brave_com.Base.{
  ◌≡◌, refl, sym, ap, ◌∙◌, subst, String, Bool, true, false, ◌||◌, Option, some, List, [], ◌∷◌,
  arith, eq_iff, contains, find, if◌then◌else◌, ◌==◌, both_ways,
}
use alfred_brave_com.Base.Exec.{Result, ok, ok-injective, pure, Keeps, Keeps-pure}
use alfred_brave_com.Database.Rules.{On, Keeps-statement}
use alfred_brave_com.Database.{Db, Session, PostAction, PostCounter}
use alfred_brave_com.Database.Ends.{Ends-statement}
use alfred_brave_com.Database.Feed.Actions.{
  has_counter, counter_of, upsert_counter, upsert_counters, has_repeats, recount,
  recount_post_counters,
}

unfoldable pub counter_in : String → Db → Option PostCounter
unfolding find has_counter
counter_in id db = find (has_counter id) db.feed.counters

find-upsert_counter :
    (id : String) (c : PostCounter) (rows : List PostCounter)
    → find (has_counter id) (upsert_counter c rows)
      ≡ (if c.post_id == id then some c else find (has_counter id) rows)
unfolding find upsert_counter has_counter
find-upsert_counter id c [] = refl
find-upsert_counter id c (d ∷ rows) = ground (
  arith,
  eq_iff c.post_id id,
  eq_iff d.post_id id,
  eq_iff d.post_id c.post_id,
  find-upsert_counter id c rows,
)

nested_tests :
    (late early : Bool) (x y o : Option PostCounter)
    → (early ≡ true → y ≡ x)
    → (if late then x else if early then y else o) ≡ (if early || late then x else o)
nested_tests true early x y o h = ground arith
nested_tests false true x y o h = h refl
nested_tests false false x y o h = refl

find-upsert_counters :
    (id : String) (actions : List PostAction) (ids : List String) (rows : List PostCounter)
    → find (has_counter id) (upsert_counters actions ids rows)
      ≡ (if contains id ids then some (counter_of actions id) else find (has_counter id) rows)
unfolding upsert_counters contains
find-upsert_counters id actions [] rows = refl
find-upsert_counters id actions (other ∷ ids) rows =
    find-upsert_counters id actions ids (upsert_counter (counter_of actions other) rows)
    ∙ ap (λ o. if contains id ids then some (counter_of actions id) else o)
        (find-upsert_counter id (counter_of actions other) rows)
    ∙ nested_tests (contains id ids) (other == id) (some (counter_of actions id))
        (some (counter_of actions other)) (find (has_counter id) rows)
        (λ e. ap (λ i. some (counter_of actions i)) ((eq_iff other id).0 e))

-- The counters of the given posts are the numbers of rows that they count, and those of the other
-- posts are as they were.
abbrev pub Counted : List String → Db → Db → Type 0
Counted ids before db =
    (id : String)
    → counter_in id db
      ≡ (if contains id ids then some (counter_of before.feed.actions id) else counter_in id before)

recount-Counted :
    (ids : List String) (db : Db) (u : Unit {0}) (db' : Db)
    → recount ids db ≡ ok (u, db')
    → Counted ids db db'
unfolding recount counter_in
recount-Counted ids db u db' =
    both_ways (λ (r : Result (Unit {0} × Db)). r ≡ ok (u, db') → Counted ids db db')
      (has_repeats ids) _ _ (λ repeats e. cc)
      (λ distinct e.
        subst (λ (p : Unit {0} × Db). Counted ids db p.1) (ok-injective e)
          (λ id. find-upsert_counters id db.feed.actions ids db.feed.counters))

-- A recount, whenever it returns: the counters of the posts it was given are the numbers of their
-- likes and comments, also where there are none, and the other posts' counters are as before.
pub recount_post_counters-Counted :
    (ids : List String) (s : Session) (u : Unit {0})
    → (recount_post_counters ids s).0 ≡ ok u
    → Counted ids s.db (recount_post_counters ids s).1.db
unfolding recount_post_counters pure
recount_post_counters-Counted [] s u e = λ id. refl
recount_post_counters-Counted (id ∷ ids) s u e0 =
    (Ends-statement {P = λ db. s.db ≡ db} {Q = λ u db. Counted (id ∷ ids) s.db db}
        (recount (id ∷ ids))
        λ db u db' same e.
          subst (λ (d : Db). Counted (id ∷ ids) d db') (sym same)
            (recount-Counted (id ∷ ids) db u db' e)).at
      s u refl e0

-- Whatever becomes of a recount, it leaves the counter of a post that it was not given.
pub recount_post_counters-Keeps :
    (ids : List String) (id : String) (c : Option PostCounter)
    → contains id ids ≡ false
    → Keeps (On (λ db. counter_in id db ≡ c)) (recount_post_counters ids)
unfolding recount_post_counters
recount_post_counters-Keeps [] id c h = Keeps-pure tt
recount_post_counters-Keeps (x ∷ ids) id c h =
    Keeps-statement (λ db. counter_in id db ≡ c) (recount (x ∷ ids))
      λ db u db' same e. recount-Counted (x ∷ ids) db u db' e id ∙ rw h same
