-- ===== src/Database/Ends.antt =====
-- database/store.go: a rule for what holds of the tables when a call has returned with no error.
use alfred_brave_com.Base.{
  ◌≡◌, refl, sym, subst, ap, Bool, true, false, Option, none, some, if◌then◌else◌,
}
use alfred_brave_com.Base.Errors.{Error}
use alfred_brave_com.Base.Exec.{
  Result, ok, err, Exec, Keeps, ◌>>=◌, resume, pure, raise, ok-injective, ok-ne-err,
}
use alfred_brave_com.Database.{
  Db, Session, Fate, answered, refused, lost, Sql, next_fate, settle, statement, Ending,
  commit_with, left_with, commit, finish, begun, select, select_one, one_row, transaction,
}
use alfred_brave_com.Database.Rules.{On, Keeps-transaction}

-- From tables with `P`, what `m` returns and the tables after it are in `Q`.
pub record Ends {A : Type 0} (P : Db → Type 0) (m : Exec Session A) (Q : A → Db → Type 0)
    : Type 0 where
  pub at : (s : Session) (a : A) → P s.db → (m s).0 ≡ ok a → Q a (m s).1.db

module _ {A : Type 0} {Q : A → Db → Type 0} where
  settle-Ends :
      (f : Fate) (r : Result (A × Db)) (s : Session) (a : A)
      → ((b : A) (db : Db) → r ≡ ok (b, db) → Q b db)
      → (settle f r s).0 ≡ ok a
      → Q a (settle f r s).1.db
  unfolding settle
  settle-Ends refused r s a k e = cc
  settle-Ends lost (ok (b, db)) s a k e = cc
  settle-Ends lost (err x) s a k e = cc
  settle-Ends answered (ok (b, db)) s a k e = subst (λ x. Q x db) (ok-injective e) (k b db refl)
  settle-Ends answered (err x) s a k e = cc

module _ {A : Type 0} {P : Db → Type 0} {Q : A → Db → Type 0} where
  pub Ends-statement :
      (q : Sql A)
      → ((db : Db) (a : A) (db' : Db) → P db → q db ≡ ok (a, db') → Q a db')
      → Ends P (statement q) Q
  unfolding statement
  Ends-statement q k = record {
    at = λ s a h e. settle-Ends (next_fate s.fates).0 (q s.db) _ a (λ b db e'. k s.db b db h e') e;
  }

  pub Ends-pure : (a : A) → ((db : Db) → P db → Q a db) → Ends P (pure a) Q
  unfolding pure
  Ends-pure a k = record { at = λ s b h e. subst (λ x. Q x s.db) (ok-injective e) (k s.db h) }

  pub Ends-raise : (x : Error) → Ends P (raise x) Q
  unfolding raise
  Ends-raise x = record { at = λ s a h e. absurd (ok-ne-err (sym e)) }

  pub Ends-if :
      (b : Bool) (m n : Exec Session A) → Ends P m Q → Ends P n Q → Ends P (if b then m else n) Q
  Ends-if true m n km kn = km
  Ends-if false m n km kn = kn

-- What a transaction's body must end in: `P`, when it commits.
abbrev pub Committed : {A : Type 0} → (Db → Type 0) → Ending A → Db → Type 0
Committed P (commit_with a) db = P db
Committed P (left_with a) db = Unit

module _ {A : Type 0} {P : Db → Type 0} where
  pub Ends-Keeps :
      (m : Exec Session (Ending A)) → Ends P m (Committed P) → Keeps (On P) (transaction m)
  Ends-Keeps m k = record {
    at = (Keeps-transaction P m (λ s a h e. k.at s (commit_with a) h e)).at;
  }

module _ {A B : Type 0} {R : A → Db → Type 0} {Q : B → Db → Type 0} where
  resume-Ends :
      (f : A → Exec Session B) (r : Result A) (s : Session) (b : B)
      → ((a : A) → Ends (R a) (f a) Q)
      → ((a : A) → r ≡ ok a → R a s.db)
      → (resume f r s).0 ≡ ok b
      → Q b (resume f r s).1.db
  resume-Ends f (ok a) s b kf h e = (kf a).at s b (h a refl) e
  resume-Ends f (err x) s b kf h e = cc

module _ {A B : Type 0} {P : Db → Type 0} {R : A → Db → Type 0} {Q : B → Db → Type 0} where
  pub Ends-bind :
      (m : Exec Session A) (f : A → Exec Session B)
      → Ends P m R
      → ((a : A) → Ends (R a) (f a) Q)
      → Ends P (m >>= f) Q
  unfolding ◌>>=◌
  Ends-bind m f km kf = record {
    at = λ s b h e. resume-Ends f (m s).0 (m s).1 b kf (λ a e'. km.at s a h e') e;
  }

-- What a transaction that always commits must end in.
abbrev pub Always : {A : Type 0} → (A → Db → Type 0) → Ending A → Db → Type 0
Always Q (commit_with a) db = Q a db
Always Q (left_with a) db = ⊥

module _ {A : Type 0} (Q : A → Db → Type 0) where
  commit-Ends :
      (f : Fate) (a b : A) (before : Db) (s : Session)
      → Q a s.db
      → (commit f a before s).0 ≡ ok b
      → Q b (commit f a before s).1.db
  unfolding commit
  commit-Ends answered a b before s h e = subst (λ x. Q x s.db) (ok-injective e) h
  commit-Ends refused a b before s h e = cc
  commit-Ends lost a b before s h e = cc

  finish-Ends :
      (r : Result (Ending A)) (before : Db) (s : Session) (b : A)
      → ((x : Ending A) → r ≡ ok x → Always Q x s.db)
      → (finish r before s).0 ≡ ok b
      → Q b (finish r before s).1.db
  unfolding finish
  finish-Ends (ok (commit_with a)) before s b k e =
      commit-Ends (next_fate s.fates).0 a b before _ (k (commit_with a) refl) e
  finish-Ends (ok (left_with a)) before s b k e = absurd (k (left_with a) refl)
  finish-Ends (err x) before s b k e = cc

module _ {A : Type 0} {P : Db → Type 0} {Q : A → Db → Type 0} where
  begun-Ends :
      (f : Fate) (m : Exec Session (Ending A)) (s : Session) (b : A)
      → Ends P m (Always Q)
      → P s.db
      → (begun f m s).0 ≡ ok b
      → Q b (begun f m s).1.db
  unfolding begun
  begun-Ends answered m s b k h e = finish-Ends Q (m s).0 s.db (m s).1 b (λ x e'. k.at s x h e') e
  begun-Ends refused m s b k h e = cc
  begun-Ends lost m s b k h e = cc

  pub Ends-transaction :
      (m : Exec Session (Ending A)) → Ends P m (Always Q) → Ends P (transaction m) Q
  unfolding transaction
  Ends-transaction m k = record { at = λ s b h e. begun-Ends (next_fate s.fates).0 m _ b k h e }

module _ {A : Type 0} where
  select-value :
      (f : Db → A) (db : Db) (a : A) (db' : Db)
      → select f db ≡ ok (a, db')
      → ◌≡◌ {A = A × Db} (f db, db) (a, db')
  unfolding select
  select-value f db a db' e = ok-injective e

  one_row-value :
      (o : Option A) (db : Db) (a : A) (db' : Db)
      → one_row o db ≡ ok (a, db')
      → (o ≡ some a) × (db ≡ db')
  unfolding one_row
  one_row-value none db a db' e = cc
  one_row-value (some b) db a db' e =
      let p = ok-injective e in (ap some (ap (λ (x : A × Db). x.0) p), ap (λ (x : A × Db). x.1) p)

module _ {A : Type 0} {P : Db → Type 0} where
  -- What was read is what the tables hold.
  pub Ends-select : (f : Db → A) → Ends P (statement (select f)) (λ a db. P db × (f db ≡ a))
  Ends-select f = Ends-statement (select f) λ db a db' h e.
      subst (λ (x : A × Db). P x.1 × (f x.1 ≡ x.0)) (select-value f db a db' e) (h, refl)

  pub Ends-select_one :
      (f : Db → Option A) → Ends P (statement (select_one f)) (λ a db. P db × (f db ≡ some a))
  unfolding select_one
  Ends-select_one f = Ends-statement (select_one f) λ db a db' h e.
      let (o, same) = one_row-value (f db) db a db' e in
      subst (λ (x : Db). P x × (f x ≡ some a)) same (h, o)

-- What a transaction that starts at given tables must end in, with its commit or with none.
abbrev pub EitherEnd : {A : Type 0} → Db → (A → Db → Type 0) → Ending A → Db → Type 0
EitherEnd before Q (commit_with a) db = Q a db
EitherEnd before Q (left_with a) db = Q a before

module _ {A : Type 0} (Q : A → Db → Type 0) where
  finish_either :
      (r : Result (Ending A)) (before : Db) (s : Session) (b : A)
      → ((x : Ending A) → r ≡ ok x → EitherEnd before Q x s.db)
      → (finish r before s).0 ≡ ok b
      → Q b (finish r before s).1.db
  unfolding finish
  finish_either (ok (commit_with a)) before s b k e =
      commit-Ends Q (next_fate s.fates).0 a b before _ (k (commit_with a) refl) e
  finish_either (ok (left_with a)) before s b k e =
      subst (λ x. Q x before) (ok-injective e) (k (left_with a) refl)
  finish_either (err x) before s b k e = cc

  begun_either :
      (f : Fate) (m : Exec Session (Ending A)) (s : Session) (b : A)
      → Ends (λ db. s.db ≡ db) m (EitherEnd s.db Q)
      → (begun f m s).0 ≡ ok b
      → Q b (begun f m s).1.db
  unfolding begun
  begun_either answered m s b k e =
      finish_either (m s).0 s.db (m s).1 b (λ x e'. k.at s x refl e') e
  begun_either refused m s b k e = cc
  begun_either lost m s b k e = cc

  pub transaction_result :
      (m : Exec Session (Ending A)) (s : Session) (b : A)
      → Ends (λ db. s.db ≡ db) m (EitherEnd s.db Q)
      → (transaction m s).0 ≡ ok b
      → Q b (transaction m s).1.db
  unfolding transaction
  transaction_result m s b k e = begun_either (next_fate s.fates).0 m _ b k e
