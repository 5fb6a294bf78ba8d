-- ===== src/Fanout/Stale.antt =====
-- worker/fanout/fanout.go: which counters a flush passes over.
use alfred_brave_com.Base.{
  ℕ, ◌≡◌, refl, sym, subst, inl, inr, String, Bool, false, Option, List, [], ◌∷◌, arith, contains,
  exists, ◌==◌,
}
use alfred_brave_com.Base.Exec.{Result, Exec, Keeps, Keeps-pure, Result-cases, ◌>>=◌, resume}
use alfred_brave_com.Database.{Db, Session, PostAction, PostCounter}
use alfred_brave_com.Database.Rules.{On, Keeps-select}
use alfred_brave_com.Database.Ends.{Ends, Ends-select}
use alfred_brave_com.Database.Feed.Actions.{touched_in, touched_post_ids}
use alfred_brave_com.Database.Feed.Counters.{counter_in, recount_post_counters-Keeps}
use alfred_brave_com.Fanout.{flush_counters, recount_touched}

-- Whether anyone likes the post or has commented on it.
unfoldable pub has_actions : String → Db → Bool
unfolding exists
has_actions id db = exists (λ a. a.post_id == id) db.feed.actions

contains-touched_in :
    (id : String) (since : ℕ) (actions : List PostAction)
    → exists (λ a. a.post_id == id) actions ≡ false
    → contains id (touched_in since actions) ≡ false
unfolding exists touched_in contains
contains-touched_in id since [] h = refl
contains-touched_in id since (a ∷ actions) h =
    ground (arith, h, contains-touched_in id since actions)

module _ {A B : Type 0} {P : Db → Type 0} (Inv : Db → Type 0) {R : A → Type 0} where
  -- A call keeps `Inv` when its first part does, and its second part for what the first can return.
  bind-On :
      (m : Exec Session A) (f : A → Exec Session B) (s : Session)
      → Ends P m (λ a db. R a)
      → Keeps (On Inv) m
      → ((a : A) → R a → Keeps (On Inv) (f a))
      → P s.db
      → Inv s.db
      → Inv ((m >>= f) s).1.db
  unfolding ◌>>=◌
  bind-On m f s ends km kf p h = elim (Result-cases (m s).0) [
    | inl (a, e) ↦
        subst (λ (r : Result A). Inv (resume f r (m s).1).1.db) (sym e)
          ((kf a (ends.at s a p e)).at (m s).1 (km.at s h))
    | inr (x, e) ↦ subst (λ (r : Result A). Inv (resume f r (m s).1).1.db) (sym e) (km.at s h)
  ]

recount_touched-Keeps :
    (ids : List String) (id : String) (c : Option PostCounter)
    → contains id ids ≡ false
    → Keeps (On (λ db. counter_in id db ≡ c)) (recount_touched ids)
unfolding recount_touched
recount_touched-Keeps [] id c h = Keeps-pure tt
recount_touched-Keeps (x ∷ ids) id c h = recount_post_counters-Keeps (x ∷ ids) id c h

-- A flush of the counters, whatever its statements meet, leaves the counter of a post that no one
-- likes and no one has commented on as it was, also where the counter is not zero.
pub flush_counters-stale :
    (since : ℕ) (id : String) (s : Session)
    → has_actions id s.db ≡ false
    → counter_in id (flush_counters since s).1.db ≡ counter_in id s.db
unfolding flush_counters touched_post_ids has_actions
flush_counters-stale since id s none_left =
    bind-On {P = λ db. s.db ≡ db} (λ db. counter_in id db ≡ counter_in id s.db)
      {R = λ ids. contains id ids ≡ false} _ _ s
      (record {
        at = λ t ids same e.
            let read =
              (Ends-select {P = λ db. s.db ≡ db} (λ db. touched_in since db.feed.actions)).at t ids
                same e in
            subst (λ (x : List String). contains id x ≡ false) read.1
              (contains-touched_in id since _ (
                subst (λ (d : Db). exists (λ a. a.post_id == id) d.feed.actions ≡ false) read.0
                  none_left));
      })
      (Keeps-select _ _) (λ ids out. recount_touched-Keeps ids id _ out) refl refl
