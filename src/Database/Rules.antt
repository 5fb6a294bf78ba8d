-- ===== src/Database/Rules.antt =====
-- database/store.go: rules for what statements and transactions keep.
use alfred_brave_com.Base.{◌≡◌, refl, ap, subst, Option, none, some}
use alfred_brave_com.Base.Exec.{Result, ok, err, Exec, Keeps, ok-injective}
use alfred_brave_com.Database.{
  Db, Session, Fate, answered, refused, lost, Sql, next_fate, settle, statement, commit, finish,
  begun, Ending, commit_with, left_with, transaction, select, select_one, one_row,
}

-- A predicate on the tables, of a session.
abbrev pub On : (Db → Type 0) → Session → Type 0
On P s = P s.db

module _ {A : Type 0} (P : Db → Type 0) where
  settle-On :
      (f : Fate) (r : Result (A × Db)) (s : Session)
      → P s.db
      → ((a : A) (db : Db) → r ≡ ok (a, db) → P db)
      → P (settle f r s).1.db
  unfolding settle
  settle-On refused r s h k = h
  settle-On lost (ok (a, db)) s h k = k a db refl
  settle-On lost (err e) s h k = h
  settle-On answered (ok (a, db)) s h k = k a db refl
  settle-On answered (err e) s h k = h

  -- A statement that keeps `P` when the server carries it out keeps it whatever becomes of it.
  pub Keeps-statement :
      (q : Sql A)
      → ((db : Db) (a : A) (db' : Db) → P db → q db ≡ ok (a, db') → P db')
      → Keeps (On P) (statement q)
  unfolding statement
  Keeps-statement q k = record {
    at = λ s h. settle-On (next_fate s.fates).0 (q s.db) _ h (λ a db e. k s.db a db h e);
  }

  commit-On :
      (f : Fate) (a : A) (before : Db) (s : Session)
      → P before
      → P s.db
      → P (commit f a before s).1.db
  unfolding commit
  commit-On answered a before s h k = k
  commit-On refused a before s h k = h
  commit-On lost a before s h k = k

  finish-On :
      (r : Result (Ending A)) (before : Db) (s : Session)
      → P before
      → ((a : A) → r ≡ ok (commit_with a) → P s.db)
      → P (finish r before s).1.db
  unfolding finish
  finish-On (ok (commit_with a)) before s h k =
      commit-On (next_fate s.fates).0 a before _ h (k a refl)
  finish-On (ok (left_with a)) before s h k = h
  finish-On (err e) before s h k = h

  begun-On :
      (f : Fate) (m : Exec Session (Ending A)) (s : Session)
      → P s.db
      → ((a : A) → (m s).0 ≡ ok (commit_with a) → P (m s).1.db)
      → P (begun f m s).1.db
  unfolding begun
  begun-On answered m s h k = finish-On (m s).0 s.db (m s).1 h k
  begun-On refused m s h k = h
  begun-On lost m s h k = h

  -- A transaction keeps `P` when its body, run to its commit, leaves it; what the body's
  -- statements do to `P` on the way does not matter.
  pub Keeps-transaction :
      (m : Exec Session (Ending A))
      → ((s : Session) (a : A) → P s.db → (m s).0 ≡ ok (commit_with a) → P (m s).1.db)
      → Keeps (On P) (transaction m)
  unfolding transaction
  Keeps-transaction m k = record {
    at = λ s h. begun-On (next_fate s.fates).0 m _ h (λ a e. k _ a h e);
  }

  -- The same for one call, whose body may use what holds of the tables at its start.
  pub transaction-On :
      (m : Exec Session (Ending A)) (s : Session)
      → P s.db
      → ((s' : Session) (a : A) → s'.db ≡ s.db → (m s').0 ≡ ok (commit_with a) → P (m s').1.db)
      → P (transaction m s).1.db
  unfolding transaction
  transaction-On m s h k = begun-On (next_fate s.fates).0 m _ h (λ a e. k _ a refl e)

  -- A body whose every statement keeps `P`.
  pub Keeps-transaction_body :
      (m : Exec Session (Ending A)) → Keeps (On P) m → Keeps (On P) (transaction m)
  Keeps-transaction_body m k = Keeps-transaction m (λ s a h e. k.at s h)

  select_keeps :
      (f : Db → A) (db : Db) (a : A) (db' : Db) → P db → select f db ≡ ok (a, db') → P db'
  unfolding select
  select_keeps f db a db' h e = subst P (ap (λ (p : A × Db). p.1) (ok-injective e)) h

  pub Keeps-select : (f : Db → A) → Keeps (On P) (statement (select f))
  Keeps-select f = Keeps-statement (select f) (select_keeps f)

  one_row_keeps :
      (o : Option A) (db : Db) (a : A) (db' : Db) → P db → one_row o db ≡ ok (a, db') → P db'
  unfolding one_row
  one_row_keeps none db a db' h e = cc
  one_row_keeps (some b) db a db' h e = subst P (ap (λ (p : A × Db). p.1) (ok-injective e)) h

  pub Keeps-select_one : (f : Db → Option A) → Keeps (On P) (statement (select_one f))
  unfolding select_one
  Keeps-select_one f =
      Keeps-statement (select_one f) (λ db a db' h e. one_row_keeps (f db) db a db' h e)
