-- ===== src/Database/Friends/Symmetric.antt =====
-- database/friend.go: a friendship has both of its rows, or neither.
use alfred_brave_com.Base.{
  ◌≡◌, sym, ap, ◌∙◌, String, Bool, true, not, ◌&&◌, ◌||◌, List, [], ◌∷◌, ◌++◌, arith, eq_iff,
  exists, keep, ◌==◌, both_ways,
}
use alfred_brave_com.Base.Exec.{Result, ok, Exec, Keeps-if, Keeps-raise, ok-injective}
use alfred_brave_com.Base.Errors.{not_found}
use alfred_brave_com.Database.{Db, Session, Friend, commit_with}
use alfred_brave_com.Database.Ends.{
  Ends, Ends-Keeps, Ends-bind, Ends-statement, Ends-pure, Committed,
}
use alfred_brave_com.Database.Friends.{
  is_friend_row, insert_friend, delete_friend, create_tx, create_friend, delete_tx, remove_friend,
}

-- Whether the owner has the row of the friend.
unfoldable pub has_friend : String → String → Db → Bool
unfolding exists is_friend_row
has_friend owner friend db = exists (is_friend_row owner friend) db.friends

abbrev pub IsSymmetric : Db → Type 0
IsSymmetric db = (a b : String) → has_friend a b db ≡ has_friend b a db

abbrev is_pair : String → String → String → String → Bool
is_pair owner friend a b = owner == a && friend == b

exists-snoc :
    (owner friend a b : String) (rows : List Friend)
    → exists (is_friend_row a b) (rows ++ record { owner_uid = owner; friend_uid = friend } ∷ [])
      ≡ (exists (is_friend_row a b) rows || is_pair owner friend a b)
unfolding exists is_friend_row
exists-snoc owner friend a b [] = ground arith
exists-snoc owner friend a b (f ∷ rows) = ground (arith, exists-snoc owner friend a b rows)

exists-keep_out :
    (owner friend a b : String) (rows : List Friend)
    → exists (is_friend_row a b) (keep (λ f. not (is_friend_row owner friend f)) rows)
      ≡ (exists (is_friend_row a b) rows && not (is_pair owner friend a b))
unfolding exists is_friend_row keep
exists-keep_out owner friend a b [] = ground arith
exists-keep_out owner friend a b (f ∷ rows) = ground (
  arith,
  eq_iff owner a,
  eq_iff friend b,
  eq_iff f.owner_uid a,
  eq_iff f.friend_uid b,
  eq_iff f.owner_uid owner,
  eq_iff f.friend_uid friend,
  exists-keep_out owner friend a b rows,
)

-- The rows behind a statement that adds a row or takes one out.
abbrev Adds : String → String → Db → Db → Type 0
Adds owner friend db db' =
    (a b : String) → has_friend a b db' ≡ (has_friend a b db || is_pair owner friend a b)

abbrev Drops : String → String → Db → Db → Type 0
Drops owner friend db db' =
    (a b : String) → has_friend a b db' ≡ (has_friend a b db && not (is_pair owner friend a b))

insert_friend-Adds :
    (owner friend : String) (db db' : Db) (u : Unit {0})
    → insert_friend owner friend db ≡ ok (u, db')
    → Adds owner friend db db'
unfolding insert_friend has_friend
insert_friend-Adds owner friend db db' u =
    both_ways (λ (r : Result (Unit {0} × Db)). r ≡ ok (u, db') → Adds owner friend db db')
      (exists (is_friend_row owner friend) db.friends) _ _
      (λ there e a b.
        ap (λ (p : Unit {0} × Db). exists (is_friend_row a b) p.1.friends) (sym (ok-injective e))
        ∙ already there a b)
      (λ absent e a b.
        ap (λ (p : Unit {0} × Db). exists (is_friend_row a b) p.1.friends) (sym (ok-injective e))
        ∙ exists-snoc owner friend a b db.friends)
  where
    already :
        exists (is_friend_row owner friend) db.friends ≡ true
        → (a b : String)
        → exists (is_friend_row a b) db.friends
          ≡ (exists (is_friend_row a b) db.friends || is_pair owner friend a b)
    already there a b = ground (arith, eq_iff owner a, eq_iff friend b, there)

delete_friend-Drops :
    (owner friend : String) (db db' : Db) (u : Unit {0})
    → delete_friend owner friend db ≡ ok (u, db')
    → Drops owner friend db db'
unfolding delete_friend has_friend
delete_friend-Drops owner friend db db' u e a b =
    ap (λ (p : Unit {0} × Db). exists (is_friend_row a b) p.1.friends) (sym (ok-injective e))
    ∙ exists-keep_out owner friend a b db.friends

-- Behind the first statement of a body, from tables with both rows or neither.
Half : (Db → Db → Type 0) → Db → Type 0
Half R db = (before : Db) × IsSymmetric before × R before db

create_tx-Ends :
    (owner friend : String) → Ends IsSymmetric (create_tx owner friend) (Committed IsSymmetric)
unfolding create_tx Half
create_tx-Ends owner friend =
    Ends-bind {R = λ u db. Half (Adds owner friend) db} _ _
      (Ends-statement (insert_friend owner friend)
        λ db u db' sym_before e. (db, sym_before, insert_friend-Adds owner friend db db' u e))
      λ u.
        Ends-bind {R = λ u db. IsSymmetric db} _ _
          (Ends-statement (insert_friend friend owner) λ db u db' half e a b.
            let second = insert_friend-Adds friend owner db db' u e in
            ground (arith, second a b, second b a, half.2 a b, half.2 b a, half.1 a b))
          λ u. Ends-pure (commit_with tt) λ db h. h

delete_tx-Ends :
    (owner friend : String) → Ends IsSymmetric (delete_tx owner friend) (Committed IsSymmetric)
unfolding delete_tx Half
delete_tx-Ends owner friend =
    Ends-bind {R = λ u db. Half (Drops owner friend) db} _ _
      (Ends-statement (delete_friend owner friend)
        λ db u db' sym_before e. (db, sym_before, delete_friend-Drops owner friend db db' u e))
      λ u.
        Ends-bind {R = λ u db. IsSymmetric db} _ _
          (Ends-statement (delete_friend friend owner) λ db u db' half e a b.
            let second = delete_friend-Drops friend owner db db' u e in
            ground (arith, second a b, second b a, half.2 a b, half.2 b a, half.1 a b))
          λ u. Ends-pure (commit_with tt) λ db h. h

-- The calls that change friendships.
pub data FriendCall : Type 0 where
  befriend unfriend : String → String → FriendCall

unfoldable pub perform_friend : FriendCall → Exec Session (Unit {0})
perform_friend (befriend a b) = create_friend a b
perform_friend (unfriend a b) = remove_friend a b

-- Every call that changes friendships, whatever its statements and its commit meet: if each
-- friendship had both of its rows or neither, it is so afterwards.
pub perform_friend-IsSymmetric :
    (call : FriendCall) (s : Session) → IsSymmetric s.db → IsSymmetric (perform_friend call s).1.db
unfolding perform_friend create_friend remove_friend
perform_friend-IsSymmetric (befriend a b) s h =
    (Keeps-if (a == b) _ _ (Keeps-raise not_found)
        (Ends-Keeps (create_tx a b) (create_tx-Ends a b))).at
      s h
perform_friend-IsSymmetric (unfriend a b) s h =
    (Ends-Keeps (delete_tx a b) (delete_tx-Ends a b)).at s h
