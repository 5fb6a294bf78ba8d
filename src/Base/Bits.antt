-- ===== src/Base/Bits.antt =====
-- `bit_or` of a shifted number and one that fits below the shift is their sum.
use Prim.Native.Nat.{
  ℕ, zero, suc, ◌+◌, ◌*◌, ◌/◌, ◌%◌, ◌^◌, ◌≤◌, ◌<◌, max, bit_or, digits, bit_or-bitwise,
}
use mathlib.Core.Path.{◌≡◌, refl, ap}
use native.Mathlib.Omega.{arith}

abbrev or_digits : ℕ → ℕ → ℕ → ℕ
or_digits fuel x y = digits (λ b. b) max fuel x y

-- Fuel beyond the first number changes nothing.
or_digits_same : (x y more less : ℕ) → x ≤ more → x ≤ less → or_digits more x y ≡ or_digits less x y
or_digits_same zero y zero zero a b = refl
or_digits_same zero y (suc more) zero a b = refl
or_digits_same zero y zero (suc less) a b = refl
or_digits_same zero y (suc more) (suc less) a b = refl
or_digits_same (suc x) y zero less a b = absurd (omega arith)
or_digits_same (suc x) y (suc more) zero a b = absurd (omega arith)
or_digits_same (suc x) y (suc more) (suc less) a b =
    let halved = or_digits_same (suc x / 2) (y / 2) more less (omega arith) (omega arith) in
    omega (arith, halved)

bit_or_zero_left : (y : ℕ) → bit_or 0 y ≡ y
bit_or_zero_left y = bit_or-bitwise 0 y

bit_or_halves : (x y : ℕ) → bit_or x y ≡ max (x % 2) (y % 2) + 2 * bit_or (x / 2) (y / 2)
bit_or_halves zero y = omega (arith, bit_or_zero_left y, bit_or_zero_left (y / 2))
bit_or_halves (suc x) y =
    let halved = or_digits_same (suc x / 2) (y / 2) x (suc x / 2) (omega arith) (omega arith) in
    omega (arith, halved, bit_or-bitwise (suc x) y, bit_or-bitwise (suc x / 2) (y / 2))

bit_or_zero_right : (fuel x : ℕ) → x ≤ fuel → bit_or x 0 ≡ x
bit_or_zero_right fuel zero h = bit_or_zero_left 0
bit_or_zero_right zero (suc x) h = absurd (omega arith)
bit_or_zero_right (suc fuel) (suc x) h =
    omega (arith, bit_or_zero_right fuel (suc x / 2) (omega arith), bit_or_halves (suc x) 0)

-- A number above a bound that is a power of two, and one below it.
or_above :
    (places bound low high : ℕ)
    → low < bound
    → bound ≡ 2 ^ places
    → bit_or (high * bound) low ≡ high * bound + low
or_above zero bound low high fits e =
    let none_below : low ≡ 0 = omega (arith, e) in
    rw none_below (omega (arith, bit_or_zero_right (high * bound) (high * bound) (omega arith)))
or_above (suc places) bound low high fits e =
    let twice : bound ≡ 2 * 2 ^ places = omega (arith, e) in
    let product : high * bound ≡ 2 * (high * 2 ^ places) =
      omega (arith, ap (λ (t : ℕ). high * t) twice) in
    let upper : high * bound / 2 ≡ high * 2 ^ places = omega (arith, product) in
    let inner = or_above places (2 ^ places) (low / 2) high (omega (arith, twice)) refl in
    let halves = bit_or_halves (high * bound) low in
    omega (arith, product, inner, halves, ap (λ (top : ℕ). bit_or top (low / 2)) upper)

pub or-shifted :
    (places high low : ℕ)
    → low < 2 ^ places
    → bit_or (high * 2 ^ places) low ≡ high * 2 ^ places + low
or-shifted places high low fits = or_above places (2 ^ places) low high fits refl
