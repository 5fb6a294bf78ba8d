-- ===== src/Database/Users/Created.antt =====
-- database/user.go: the row of a user that Create has made.
use alfred_brave_com.Base.{
  ℕ, ◌≡◌, refl, subst, String, false, some, List, [], ◌∷◌, ◌++◌, arith, exists, exists-find, find,
  find-append, eq_refl, ◌==◌,
}
use alfred_brave_com.Base.Errors.{Error}
use alfred_brave_com.Base.Exec.{Result, ok, err, Exec, with_error}
use alfred_brave_com.Database.{Db, Session, User}
use alfred_brave_com.Database.Ends.{Ends, Ends-statement, Ends-bind, Ends-pure}
use alfred_brave_com.Database.Users.{user_clashes, insert_user, assigned_uid, create_user}

-- The user stands behind rows that it does not clash with.
pub record IsCreated (given user : User) (db : Db) : Type 0 where
  pub rows : List User
  pub stored : db.users ≡ rows ++ user ∷ []
  pub fresh : exists (user_clashes user) rows ≡ false
  pub user_name : user.user_name ≡ given.user_name
  pub password : user.password ≡ given.password

kept_ok :
    {A : Type 0} (f : Error → Error) (r : Result A) (a : A)
    → elim r [ ok b ↦ ok b | err e ↦ err (f e) ] ≡ ok a
    → r ≡ ok a
kept_ok f (ok b) a e = e
kept_ok f (err x) a e = cc

Ends-with_error :
    {A : Type 0} {P : Db → Type 0} {Q : A → Db → Type 0} (f : Error → Error) (m : Exec Session A)
    → Ends P m Q
    → Ends P (with_error f m) Q
unfolding with_error
Ends-with_error f m k = record { at = λ s a h e. k.at s a h (kept_ok f (m s).0 a e) }

insert_user_lem :
    (given u : User) (t : Unit {0}) (db db' : Db)
    → u.user_name ≡ given.user_name
    → u.password ≡ given.password
    → insert_user u db ≡ ok (t, db')
    → IsCreated given u db'
unfolding insert_user
insert_user_lem given u t db db' named hashed e = record {
  rows = db.users;
  stored = ground (arith, e);
  fresh = ground (arith, e);
  user_name = named;
  password = hashed;
}

pub create_user-IsCreated :
    (new_uuid : ℕ → String) (u : User)
    → Ends (λ db. Unit {0}) (create_user new_uuid u) (λ user db. IsCreated u user db)
unfolding create_user
create_user-IsCreated new_uuid u =
    Ends-bind {R = λ uid db. Unit {0}} (assigned_uid new_uuid u.uid) _
      (record { at = λ s uid h e. tt })
      λ uid.
        Ends-bind _ _
          (Ends-with_error _ _ (
            Ends-statement (insert_user (record u { uid = uid }))
              λ db t db' h e. insert_user_lem u (record u { uid = uid }) t db db' refl refl e))
          λ t. Ends-pure (record u { uid = uid }) (λ db h. h)

named_fresh :
    (user : User) (rows : List User)
    → exists (user_clashes user) rows ≡ false
    → exists (λ (x : User). x.user_name == user.user_name) rows ≡ false
unfolding exists user_clashes
named_fresh user [] e = refl
named_fresh user (x ∷ rows) e = ground (arith, e, named_fresh user rows)

-- The user is the one with its name.
pub IsCreated-find :
    (given user : User) (db : Db)
    → IsCreated given user db
    → find (λ (x : User). x.user_name == given.user_name) db.users ≡ some user
unfolding find
IsCreated-find given user db c =
    subst (λ name. find (λ (x : User). x.user_name == name) db.users ≡ some user) c.user_name
      (rw
        (
          c.stored,
          find-append (λ (x : User). x.user_name == user.user_name) c.rows (user ∷ []),
          exists-find (λ (x : User). x.user_name == user.user_name) c.rows
              (named_fresh user c.rows c.fresh),
          eq_refl user.user_name,
        )
        refl)
