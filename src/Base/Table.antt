-- ===== src/Base/Table.antt =====
-- A Go map with text keys, as an association list in which the first entry of a key counts.
use Prim.Native.String.{String}
use mathlib.Core.Path.{◌≡◌, refl}
use mathlib.Core.List.{List, [], ◌∷◌}
use mathlib.Core.Option.{Option, none, some}
use native.Mathlib.Omega.{arith}
use text.Mathlib.TextEquality.{eq_iff}
use text.Mathlib.TextPositions.{eq_refl}
use alfred_brave_com.Base.Tests.{◌==◌, if◌then◌else◌}

module _ {ℓ} {V : Type ℓ} where
  unfoldable pub lookup : String → List (String × V) → Option V
  lookup key [] = none
  lookup key ((other, value) ∷ rows) = if other == key then some value else lookup key rows

  unfoldable pub remove : String → List (String × V) → List (String × V)
  remove key [] = []
  remove key ((other, value) ∷ rows) =
      let rest = remove key rows in if other == key then rest else (other, value) ∷ rest

  -- Writes an entry in place, and a new one at the end: iteration keeps the order of insertion.
  unfoldable pub insert : String → V → List (String × V) → List (String × V)
  insert key value [] = (key, value) ∷ []
  insert key value ((other, old) ∷ rows) =
      let rest = insert key value rows in
      if other == key then (other, value) ∷ rows else (other, old) ∷ rest

  pub lookup-insert :
      (key other : String) (value : V) (rows : List (String × V))
      → lookup other (insert key value rows)
        ≡ (if key == other then some value else lookup other rows)
  unfolding lookup insert
  lookup-insert key other value [] = refl
  lookup-insert key other value ((own, old) ∷ rows) = ground (
    arith,
    eq_iff key other,
    eq_iff own key,
    eq_iff own other,
    lookup-insert key other value rows,
  )

  pub lookup-insert_same :
      (key : String) (value : V) (rows : List (String × V))
      → lookup key (insert key value rows) ≡ some value
  lookup-insert_same key value rows = ground (arith, eq_refl key, lookup-insert key key value rows)

  pub lookup-remove :
      (key other : String) (rows : List (String × V))
      → lookup other (remove key rows) ≡ (if key == other then none else lookup other rows)
  unfolding lookup remove
  lookup-remove key other [] = ground arith
  lookup-remove key other ((own, old) ∷ rows) =
      ground
        (arith, eq_iff key other, eq_iff own key, eq_iff own other, lookup-remove key other rows)

pub ruleset table_laws = (lookup-insert, lookup-remove)
