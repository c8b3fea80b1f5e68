-- ===== src/Prelude/Bits.antt =====
-- Shifts and masks: Python's `>>`, `&` with a mask of ones, and `|` of parts with no bit in common,
-- as quotients, remainders and sums.
use Prim.Native.Nat.{
  ℕ, zero, suc, ◌+◌, ◌-◌, ◌*◌, ◌/◌, ◌%◌, ◌^◌, ◌≤◌, ◌<◌, min, max, bit_and, bit_or, digits,
  bit_and-bitwise, bit_or-bitwise,
}
use mathlib.Core.Path.{◌≡◌, refl, sym, ◌∙◌, ap}
use native.Mathlib.Nat.{
  two-pow-succ, add-mul, mul-add, mod-eq_of_lt, add-mul-mod_self_left, div-add-mod, mod-lt,
}
use native.Mathlib.Omega.{arith}

-- Any count of digits that is large enough gives the same.
module _ (z : ℕ → ℕ) (f : ℕ → ℕ → ℕ) where
  digits_enough :
      (count more a b : ℕ) → a ≤ count → count ≤ more → digits z f more a b ≡ digits z f count a b
  digits_enough zero zero a b h k = refl
  digits_enough zero (suc more) zero b h k = refl
  digits_enough zero (suc more) (suc a) b h k = absurd (omega arith)
  digits_enough (suc count) zero a b h k = absurd (omega arith)
  digits_enough (suc count) (suc more) zero b h k = refl
  digits_enough (suc count) (suc more) (suc a) b h k =
      omega (arith, digits_enough count more (suc a / 2) (b / 2) (omega arith) (omega arith))

and_zero : (b : ℕ) → bit_and 0 b ≡ 0
and_zero b = bit_and-bitwise 0 b

or_zero : (b : ℕ) → bit_or 0 b ≡ b
or_zero b = bit_or-bitwise 0 b

-- The lowest bit apart from the others.
bit_and_low : (a b : ℕ) → bit_and a b ≡ bit_and (a / 2) (b / 2) * 2 + min (a % 2) (b % 2)
bit_and_low zero b = omega (arith, and_zero b, and_zero (b / 2))
bit_and_low (suc a) b = omega (
  arith,
  bit_and-bitwise (suc a) b,
  bit_and-bitwise (suc a / 2) (b / 2),
  digits_enough (λ _. zero) min (suc a / 2) a (suc a / 2) (b / 2) (omega arith) (omega arith),
)

bit_or_low : (a b : ℕ) → bit_or a b ≡ bit_or (a / 2) (b / 2) * 2 + max (a % 2) (b % 2)
bit_or_low zero b = omega (arith, or_zero b, or_zero (b / 2))
bit_or_low (suc a) b = omega (
  arith,
  bit_or-bitwise (suc a) b,
  bit_or-bitwise (suc a / 2) (b / 2),
  digits_enough (λ b. b) max (suc a / 2) a (suc a / 2) (b / 2) (omega arith) (omega arith),
)

bit_and_none : (count a : ℕ) → a ≤ count → bit_and a 0 ≡ 0
bit_and_none count zero h = and_zero 0
bit_and_none zero (suc a) h = absurd (omega arith)
bit_and_none (suc count) (suc a) h =
    omega (arith, bit_and_low (suc a) 0, bit_and_none count (suc a / 2) (omega arith))

bit_or_none : (count a : ℕ) → a ≤ count → bit_or a 0 ≡ a
bit_or_none count zero h = or_zero 0
bit_or_none zero (suc a) h = absurd (omega arith)
bit_or_none (suc count) (suc a) h =
    omega (arith, bit_or_low (suc a) 0, bit_or_none count (suc a / 2) (omega arith))

-- `2 ^ k` as it grows, opaque otherwise.
power_twice : (k : ℕ) → 2 ^ suc k ≡ 2 ^ k + 2 ^ k
power_twice k = two-pow-succ k

power_pos : (k : ℕ) → 0 < 2 ^ k
power_pos zero = omega arith
power_pos (suc k) = omega (arith, power_twice k, power_pos k)

mod_twice : (x p : ℕ) → 0 < p → x % (p + p) ≡ x / 2 % p * 2 + x % 2
mod_twice x p h =
    let q = x / 2 / p in
    let r = x / 2 % p in
    let parts : x ≡ (r * 2 + x % 2) + (p + p) * q =
      omega (arith, div-add-mod (x / 2) p, add-mul p p q) in
    ap (λ y. y % (p + p)) parts
    ∙ add-mul-mod_self_left (r * 2 + x % 2) (p + p) q
    ∙ mod-eq_of_lt (omega (arith, mod-lt (x / 2) h))

-- A mask of `k` ones keeps the lowest `k` bits.
pub bit_and_mask : (k x : ℕ) → bit_and x (2 ^ k - 1) ≡ x % 2 ^ k
bit_and_mask zero x = omega (arith, bit_and_none x x (omega arith))
bit_and_mask (suc k) x =
    let p = 2 ^ k in
    let pos : 0 < p = power_pos k in
    let half : (2 ^ suc k - 1) / 2 ≡ p - 1 = omega (arith, power_twice k) in
    let odd : (2 ^ suc k - 1) % 2 ≡ 1 = omega (arith, power_twice k) in
    bit_and_low x (2 ^ suc k - 1)
    ∙ rw (half, odd, bit_and_mask k (x / 2)) (omega arith)
    ∙ sym (ap (λ m. x % m) (power_twice k) ∙ mod_twice x p pos)

-- Bits above `k` and a number below `2 ^ k` have no bit in common.
pub bit_or_above : (k a b : ℕ) → b < 2 ^ k → bit_or (a * 2 ^ k) b ≡ a * 2 ^ k + b
bit_or_above zero a b h =
    let none_left : b ≡ 0 = omega arith in
    rw none_left (omega (arith, bit_or_none (a * 2 ^ 0) (a * 2 ^ 0) (omega arith)))
bit_or_above (suc k) a b h =
    let top = a * 2 ^ k in
    let doubled : a * 2 ^ suc k ≡ top + top =
      ap (λ p. a * p) (power_twice k) ∙ mul-add a (2 ^ k) (2 ^ k) in
    let half : a * 2 ^ suc k / 2 ≡ top = omega arith in
    let even : a * 2 ^ suc k % 2 ≡ 0 = omega arith in
    bit_or_low (a * 2 ^ suc k) b
    ∙ rw (half, even, bit_or_above k a (b / 2) (omega (arith, power_twice k))) (omega arith)
