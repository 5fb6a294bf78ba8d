-- ===== src/Base/Exec.antt =====
-- Calls that change a state and may return an error. What happened before the error stays in the
-- state that comes back with it.
use mathlib.Core.Path.{◌≡◌, refl, ap}
use mathlib.Core.Logic.{◌≢◌, ◌⊎◌, inl, inr}
use mathlib.Core.Bool.{Bool, true, false}
use mathlib.Core.Option.{Option, none, some}
use alfred_brave_com.Base.Tests.{if◌then◌else◌}
use alfred_brave_com.Base.Errors.{Error}

pub data Result {ℓ} (A : Type ℓ) : Type ℓ where
  ok : A → Result A
  err : Error → Result A

module _ {ℓ} {A : Type ℓ} where
  pub Result-cases : (r : Result A) → ((a : A) × (r ≡ ok a)) ⊎ ((e : Error) × (r ≡ err e))
  Result-cases (ok a) = inl (a, refl)
  Result-cases (err e) = inr (e, refl)

  value_or : A → Result A → A
  value_or a (ok b) = b
  value_or a (err e) = a

  pub ok-injective : {a b : A} → ok a ≡ ok b → a ≡ b
  unfolding value_or
  ok-injective {a} e = ap (value_or a) e

  pub ok-ne-err : {a : A} {e : Error} → ok a ≢ err e
  ok-ne-err h = cc

abbrev pub Exec {ℓ} : Type ℓ → Type ℓ → Type ℓ
Exec S A = S → Result A × S

module _ {ℓ} {S A : Type ℓ} where
  unfoldable pub pure : A → Exec S A
  pure a s = (ok a, s)

  unfoldable pub raise : Error → Exec S A
  raise e s = (err e, s)

  unfoldable pub gets : (S → A) → Exec S A
  gets f s = (ok (f s), s)

  unfoldable pub or_raise : Option A → Error → Exec S A
  or_raise none e s = (err e, s)
  or_raise (some a) e s = (ok a, s)

  -- The same call with its error renamed.
  unfoldable pub with_error : (Error → Error) → Exec S A → Exec S A
  with_error f m s = let (r, s') = m s in (elim r [ ok a ↦ ok a | err e ↦ err (f e) ], s')

module _ {ℓ} {S A B : Type ℓ} where
  abbrev pub resume : (A → Exec S B) → Result A → Exec S B
  resume f (ok a) s = f a s
  resume f (err e) s = (err e, s)

  -- What holds of the rest of a call that returns, whatever its first part returned.
  pub resume-ok :
      (Q : S → Type 0) (f : A → Exec S B) (r : Result A) (s : S) (b : B)
      → ((a : A) → r ≡ ok a → (f a s).0 ≡ ok b → Q (f a s).1)
      → (resume f r s).0 ≡ ok b
      → Q (resume f r s).1
  resume-ok Q f (ok a) s b k e = k a refl e
  resume-ok Q f (err x) s b k e = cc

  infixl 10 ◌>>=◌ ◌>>◌
  -- Opening this opens the four above too.
  unfoldable pub ◌>>=◌ : Exec S A → (A → Exec S B) → Exec S B
  unfolding pure raise gets or_raise
  ◌>>=◌ m f s = let (r, s') = m s in resume f r s'

  abbrev pub ◌>>◌ : Exec S A → Exec S B → Exec S B
  m >> n = m >>= λ _. n

-- `m` keeps `Inv`, whether it returns or fails.
pub record Keeps {ℓ} {S A : Type ℓ} (Inv : S → Type ℓ) (m : Exec S A) : Type ℓ where
  pub at : (s : S) → Inv s → Inv (m s).1

module _ {ℓ} {S A : Type ℓ} {Inv : S → Type ℓ} where
  pub Keeps-pure : (a : A) → Keeps Inv (pure a)
  unfolding pure
  Keeps-pure a = record { at = λ s held. held }

  pub Keeps-raise : (e : Error) → Keeps Inv (raise {A = A} e)
  unfolding raise
  Keeps-raise e = record { at = λ s held. held }

  pub Keeps-gets : (f : S → A) → Keeps Inv (gets f)
  unfolding gets
  Keeps-gets f = record { at = λ s held. held }

  pub Keeps-if :
      (test : Bool) (m other : Exec S A)
      → Keeps Inv m
      → Keeps Inv other
      → Keeps Inv (if test then m else other)
  Keeps-if true m other first second = first
  Keeps-if false m other first second = second

  pub Keeps-or_raise : (o : Option A) (e : Error) → Keeps Inv (or_raise o e)
  unfolding or_raise
  Keeps-or_raise none e = record { at = λ s held. held }
  Keeps-or_raise (some a) e = record { at = λ s held. held }

  pub Keeps-with_error :
      (f : Error → Error) (m : Exec S A) → Keeps Inv m → Keeps Inv (with_error f m)
  unfolding with_error
  Keeps-with_error f m k = record { at = λ s held. k.at s held }

module _ {ℓ} {S A B : Type ℓ} {Inv : S → Type ℓ} where
  resume-Keeps :
      (f : A → Exec S B) (r : Result A) (s : S)
      → ((a : A) → Keeps Inv (f a))
      → Inv s
      → Inv (resume f r s).1
  resume-Keeps f (ok a) s kf h = (kf a).at s h
  resume-Keeps f (err e) s kf h = h

  pub Keeps-bind :
      (m : Exec S A) (f : A → Exec S B)
      → Keeps Inv m
      → ((a : A) → Keeps Inv (f a))
      → Keeps Inv (m >>= f)
  unfolding ◌>>=◌
  Keeps-bind m f km kf = record { at = λ s held. resume-Keeps f (m s).0 (m s).1 kf (km.at s held) }

pub ruleset keeps_rules =
    (Keeps-pure, Keeps-raise, Keeps-gets, Keeps-if, Keeps-or_raise, Keeps-with_error, Keeps-bind)
