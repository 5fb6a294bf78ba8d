-- ===== src/Base/Order.antt =====
-- Go's order on strings.
use Prim.Native.Nat.{ℕ, Ordering, compare as compare_ℕ}
use Prim.Native.Char.{code}
use Prim.Native.String.append
use Prim.Native.String.compare
use Prim.Native.String.{String, compare, then, ◌++◌}
use mathlib.Core.Path.{◌≡◌, refl, subst}
use mathlib.Core.Logic.{◌⊎◌, inl, inr}
use mathlib.Core.Bool.{Bool, true, false, not}
use native.Mathlib.Omega.{arith}
use text.Mathlib.TextEquality.{path_by_compare}

abbrev flip : Ordering → Ordering
flip Ordering.lt = Ordering.gt
flip Ordering.eq = Ordering.eq
flip Ordering.gt = Ordering.lt

abbrev is_gt : Ordering → Bool
is_gt Ordering.gt = true
is_gt _ = false

-- a > b
unfoldable pub gtb : String → String → Bool
gtb a b = is_gt (compare a b)

compare_ℕ-flip : (m n : ℕ) → compare_ℕ n m ≡ flip (compare_ℕ m n)
compare_ℕ-flip m n = ground arith

then-flip : (o p q : Ordering) → q ≡ flip p → then (flip o) q ≡ flip (then o p)
then-flip Ordering.lt p q e = refl
then-flip Ordering.eq p q e = e
then-flip Ordering.gt p q e = refl

compare-flip : (s t : String) → compare t s ≡ flip (compare s t)
compare-flip String.[] String.[] = rw compare.nil-nil
compare-flip String.[] (String.◌∷◌ d t) = rw (compare.nil-cons, compare.cons-nil)
compare-flip (String.◌∷◌ c s) String.[] = rw (compare.nil-cons, compare.cons-nil)
compare-flip (String.◌∷◌ c s) (String.◌∷◌ d t) =
    rw (compare.cons-cons c d s t, compare.cons-cons d c t s, compare_ℕ-flip (code c) (code d))
      (then-flip (compare_ℕ (code c) (code d)) (compare s t) (compare t s) (compare-flip s t))

abbrev Swapped : String → String → Ordering → Type 0
Swapped s t o = (s ≡ t) ⊎ (is_gt (flip o) ≡ not (is_gt o))

Swapped-cases : (s t : String) (o : Ordering) → (o ≡ Ordering.eq → s ≡ t) → Swapped s t o
Swapped-cases s t Ordering.lt h = inr refl
Swapped-cases s t Ordering.eq h = inl (h refl)
Swapped-cases s t Ordering.gt h = inr refl

-- Of two texts that differ exactly one is greater than the other.
pub gtb-swap : (s t : String) → (s ≡ t) ⊎ (gtb t s ≡ not (gtb s t))
unfolding gtb
gtb-swap s t = rw (compare-flip s t) (Swapped-cases s t (compare s t) (path_by_compare s t))

compare_ℕ_self : (n : ℕ) → compare_ℕ n n ≡ Ordering.eq
compare_ℕ_self n = ground arith

-- A common prefix does not matter to the order.
pub compare-append : (p s t : String) → compare (p ++ s) (p ++ t) ≡ compare s t
compare-append String.[] s t = rw (append.nil s, append.nil t)
compare-append (String.◌∷◌ c p) s t =
    rw
      (
        append.cons c p s,
        append.cons c p t,
        compare.cons-cons c c (p ++ s) (p ++ t),
        compare_ℕ_self (code c),
      )
      (compare-append p s t)

then_trans :
    (a b c : ℕ) (p q r : Ordering)
    → (is_gt p ≡ true → is_gt q ≡ true → is_gt r ≡ true)
    → is_gt (then (compare_ℕ a b) p) ≡ true
    → is_gt (then (compare_ℕ b c) q) ≡ true
    → is_gt (then (compare_ℕ a c) r) ≡ true
then_trans a b c p q r h e f = ground (arith, h, e, f)

not-gt-nil : (u : String) → is_gt (compare String.[] u) ≡ false
not-gt-nil String.[] = refl
not-gt-nil (String.◌∷◌ d u) = rw compare.nil-cons refl

compare_trans :
    (s t u : String)
    → is_gt (compare s t) ≡ true
    → is_gt (compare t u) ≡ true
    → is_gt (compare s u) ≡ true
compare_trans String.[] t u e f = absurd (ground (arith, e, not-gt-nil t))
compare_trans (String.◌∷◌ c s) t String.[] e f = rw compare.cons-nil refl
compare_trans (String.◌∷◌ c s) String.[] (String.◌∷◌ d u) e f =
    absurd (ground (arith, f, not-gt-nil (String.◌∷◌ d u)))
compare_trans (String.◌∷◌ c s) (String.◌∷◌ d t) (String.◌∷◌ b u) e f =
    rw (compare.cons-cons c b s u) (
      then_trans (code c) (code d) (code b) (compare s t) (compare t u) (compare s u)
        (compare_trans s t u)
        (subst (λ (o : Ordering). is_gt o ≡ true) (compare.cons-cons c d s t) e)
        (subst (λ (o : Ordering). is_gt o ≡ true) (compare.cons-cons d b t u) f))

pub gtb_trans : (s t u : String) → gtb s t ≡ true → gtb t u ≡ true → gtb s u ≡ true
unfolding gtb
gtb_trans s t u e f = compare_trans s t u e f

compare_self : (s : String) → compare s s ≡ Ordering.eq
compare_self String.[] = compare.nil-nil
compare_self (String.◌∷◌ c s) =
    rw (compare.cons-cons c c s s, compare_ℕ_self (code c)) (compare_self s)

pub gtb_irrefl : (s : String) → gtb s s ≡ false
unfolding gtb
gtb_irrefl s = rw (compare_self s) refl
