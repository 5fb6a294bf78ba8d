-- ===== src/Abort.antt =====
-- internal/abort/abort.go: the refusals of the HTTP handlers, each a status code with a message; and
-- handlers, as functions on the session with the database.
use alfred_brave_com.Base.{ℕ, ◌≡◌, refl, ap, Bool, true, false, if◌then◌else◌}
use alfred_brave_com.Base.Errors.{Error}
use alfred_brave_com.Base.Exec.{Result, ok, err, Exec}
use alfred_brave_com.Database.{Session}

pub data Abort : Type 0 where
  bad_request unexpected not_found wrong_password database_error login_error : Abort
  unauthorized service_unavailable forbidden conflict : Abort

unfoldable pub status : Abort → ℕ
status bad_request = 400
status unexpected = 500
status not_found = 404
status wrong_password = 401
status database_error = 500
status login_error = 401
status unauthorized = 401
status service_unavailable = 503
status forbidden = 403
status conflict = 409

-- What a handler does to its request: it answers, aborts, or panics.
pub data Answer (A : Type 0) : Type 0 where
  answered : A → Answer A
  aborted : Abort → Answer A
  panicked : Answer A

abbrev pub Handler : Type 0 → Type 0
Handler B = Session → Answer B × Session

module _ {B : Type 0} where
  answer_or : B → Answer B → B
  answer_or b (answered c) = c
  answer_or b (aborted a) = b
  answer_or b panicked = b

  pub answered-injective : (b c : B) → answered b ≡ answered c → b ≡ c
  unfolding answer_or
  answered-injective b c e = ap (answer_or b) e

  unfoldable pub answer : B → Handler B
  answer b s = (answered b, s)

  unfoldable pub abort : Abort → Handler B
  abort a s = (aborted a, s)

  unfoldable pub panic : Handler B
  panic s = (panicked, s)

  -- A handler that answers has passed its guard.
  pub guard-answered :
      (Q : Type 0) (test : Bool) (a : Abort) (h : Handler B) (s : Session) (b : B)
      → (test ≡ false → (h s).0 ≡ answered b → Q)
      → ((if test then abort a else h) s).0 ≡ answered b
      → Q
  unfolding abort
  guard-answered Q true a h s b f e = cc
  guard-answered Q false a h s b f e = f refl e

module _ {A B : Type 0} where
  abbrev pub continue : (Error → Abort) → (A → Handler B) → Result A → Handler B
  continue refuse k (ok a) s = k a s
  continue refuse k (err e) s = (aborted (refuse e), s)

  -- A call of a store, and what the handler does with its result or its error.
  unfoldable pub call : Exec Session A → (Error → Abort) → (A → Handler B) → Handler B
  call m refuse k s = let (r, s') = m s in continue refuse k r s'

  continue-answered :
      (Q : Type 0) (refuse : Error → Abort) (k : A → Handler B) (r : Result A) (s : Session) (b : B)
      → ((a : A) → r ≡ ok a → (k a s).0 ≡ answered b → Q)
      → (continue refuse k r s).0 ≡ answered b
      → Q
  continue-answered Q refuse k (ok a) s b f e = f a refl e
  continue-answered Q refuse k (err x) s b f e = cc

  -- A handler that answers has had a result of each call.
  pub call-answered :
      (Q : Type 0) (m : Exec Session A) (refuse : Error → Abort) (k : A → Handler B) (s : Session)
      (b : B)
      → ((a : A) → (m s).0 ≡ ok a → (k a (m s).1).0 ≡ answered b → Q)
      → (call m refuse k s).0 ≡ answered b
      → Q
  unfolding call
  call-answered Q m refuse k s b = continue-answered Q refuse k (m s).0 (m s).1 b
