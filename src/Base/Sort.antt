-- ===== src/Base/Sort.antt =====
-- Sorting by a Boolean order, as `sort.Slice` and `ORDER BY` do it, stably: elements of which
-- neither comes before the other stay as they stood.
use Prim.Native.Nat.{suc}
use mathlib.Core.Path.{◌≡◌, refl, ap, ◌∙◌}
use mathlib.Core.Bool.{Bool, true, false, ◌||◌}
use mathlib.Core.Logic.{inl, inr}
use mathlib.Core.List.{List, [], ◌∷◌}
use native.Mathlib.Omega.{arith}
use alfred_brave_com.Base.Tests.{if◌then◌else◌, Bool-cases}
use alfred_brave_com.Base.Lists.{All, exists, length}

-- `before y x`: `y` has its place in front of `x`.
module _ {ℓ} {A : Type ℓ} (before : A → A → Bool) where
  unfoldable pub insert_sorted : A → List A → List A
  insert_sorted x [] = x ∷ []
  insert_sorted x (y ∷ ys) =
      let later = insert_sorted x ys in if before y x then y ∷ later else x ∷ y ∷ ys

  unfoldable pub sort_by : List A → List A
  unfolding insert_sorted
  sort_by [] = []
  sort_by (x ∷ xs) = insert_sorted x (sort_by xs)

  pub exists-insert_sorted :
      (p : A → Bool) (x : A) (xs : List A) → exists p (insert_sorted x xs) ≡ (p x || exists p xs)
  unfolding insert_sorted exists
  exists-insert_sorted p x [] = refl
  exists-insert_sorted p x (y ∷ ys) = ground (arith, exists-insert_sorted p x ys)

  pub exists-sort_by : (p : A → Bool) (xs : List A) → exists p (sort_by xs) ≡ exists p xs
  unfolding sort_by exists
  exists-sort_by p [] = refl
  exists-sort_by p (x ∷ xs) =
      exists-insert_sorted p x (sort_by xs) ∙ ap (λ b. p x || b) (exists-sort_by p xs)

  pub length-insert_sorted : (x : A) (xs : List A) → length (insert_sorted x xs) ≡ suc (length xs)
  unfolding insert_sorted
  length-insert_sorted x [] = refl
  length-insert_sorted x (y ∷ ys) = ground (arith, length-insert_sorted x ys)

  pub length-sort_by : (xs : List A) → length (sort_by xs) ≡ length xs
  unfolding sort_by
  length-sort_by [] = refl
  length-sort_by (x ∷ xs) = length-insert_sorted x (sort_by xs) ∙ ap suc (length-sort_by xs)

  pub All-insert_sorted :
      (P : A → Type 0) (x : A) (xs : List A) → P x → All P xs → All P (insert_sorted x xs)
  unfolding insert_sorted
  All-insert_sorted P x [] px pxs = (px, tt)
  All-insert_sorted P x (y ∷ ys) px (py, pys) = elim (Bool-cases (before y x)) [
    | inl e ↦ rw e (py, All-insert_sorted P x ys px pys)
    | inr e ↦ rw e (px, (py, pys))
  ]

  pub All-sort_by : (P : A → Type 0) (xs : List A) → All P xs → All P (sort_by xs)
  unfolding sort_by
  All-sort_by P [] h = tt
  All-sort_by P (x ∷ xs) (px, pxs) = All-insert_sorted P x (sort_by xs) px (All-sort_by P xs pxs)

  -- No element comes before one that stands in front of it.
  abbrev pub IsSorted : List A → Type 0
  IsSorted [] = Unit
  IsSorted (x ∷ xs) = All (λ y. before y x ≡ false) xs × IsSorted xs

-- A strict weak order: asymmetric, and what is not in front stays so through a third element.
pub record IsWeakOrder {ℓ} {A : Type ℓ} (before : A → A → Bool) : Type ℓ where
  pub asym : (x y : A) → before x y ≡ true → before y x ≡ false
  pub behind : (x y z : A) → before y x ≡ false → before z y ≡ false → before z x ≡ false

module _ {ℓ} {A : Type ℓ} (before : A → A → Bool) (o : IsWeakOrder before) where
  All-behind :
      (x y : A) (ys : List A)
      → before y x ≡ false
      → All (λ z. before z y ≡ false) ys
      → All (λ z. before z x ≡ false) ys
  All-behind x y [] h hs = tt
  All-behind x y (z ∷ ys) h (hz, hs) = (o.behind x y z h hz, All-behind x y ys h hs)

  insert_sorted-IsSorted :
      (x : A) (xs : List A) → IsSorted before xs → IsSorted before (insert_sorted before x xs)
  unfolding insert_sorted
  insert_sorted-IsSorted x [] h = (tt, tt)
  insert_sorted-IsSorted x (y ∷ ys) (hy, hs) = elim (Bool-cases (before y x)) [
    | inl e ↦ rw e (
      All-insert_sorted before (λ z. before z y ≡ false) x ys (o.asym y x e) hy,
      insert_sorted-IsSorted x ys hs,
    )
    | inr e ↦ rw e ((e, All-behind x y ys e hy), (hy, hs))
  ]

  pub sort_by-IsSorted : (xs : List A) → IsSorted before (sort_by before xs)
  unfolding sort_by
  sort_by-IsSorted [] = tt
  sort_by-IsSorted (x ∷ xs) = insert_sorted-IsSorted x (sort_by before xs) (sort_by-IsSorted xs)
