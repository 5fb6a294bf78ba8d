-- ===== src/Database/Feed/Tests.antt =====
-- Runs of likes and recounts on small tables, and the theorems at them.
use alfred_brave_com.Base.{◌≡◌, refl, false, some, [], ◌∷◌, find, exists, keep}
use alfred_brave_com.Base.Exec.{ok, ◌>>=◌}
use alfred_brave_com.Database.{Session, empty_db, steady, statement}
use alfred_brave_com.Database.Feed.Actions.{
  toggle_like, insert_like, delete_like, recount_post_counters, recount, has_repeats,
  upsert_counters, upsert_counter, has_counter, count_of, is_action,
}
use alfred_brave_com.Database.Feed.Likes.{Switched, toggle_like-Switched}
use alfred_brave_com.Database.Feed.Counters.{Counted, counter_in, recount_post_counters-Counted}

abbrev liked_once : Session
liked_once = (toggle_like 7 "p1" "bob" (steady empty_db 0)).1

liked_again : (toggle_like 8 "p1" "bob" liked_once).0 ≡ ok false
unfolding toggle_like insert_like delete_like statement exists keep is_action ◌>>=◌
liked_again = refl

toggle_like-Switched_example :
    Switched "p1" "bob" liked_once.db false (toggle_like 8 "p1" "bob" liked_once).1.db
toggle_like-Switched_example = toggle_like-Switched 8 "p1" "bob" liked_once false liked_again

counted : (recount_post_counters ("p1" ∷ "p2" ∷ []) liked_once).0 ≡ ok tt
unfolding toggle_like insert_like statement exists is_action ◌>>=◌ recount_post_counters recount
    has_repeats
counted = refl

recount_post_counters-Counted_example :
    Counted
      ("p1" ∷ "p2" ∷ [])
      liked_once.db
      (recount_post_counters ("p1" ∷ "p2" ∷ []) liked_once).1.db
recount_post_counters-Counted_example =
    recount_post_counters-Counted ("p1" ∷ "p2" ∷ []) liked_once tt counted

one_like :
    counter_in "p1" (recount_post_counters ("p1" ∷ "p2" ∷ []) liked_once).1.db
    ≡ some (record { post_id = "p1"; like_cnt = 1; comment_cnt = 0 })
unfolding toggle_like insert_like statement exists is_action ◌>>=◌ recount_post_counters recount
    has_repeats counter_in has_counter find upsert_counters upsert_counter count_of keep
one_like = refl
