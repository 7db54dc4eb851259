-- ===== src/Base/Bits.antt =====
-- `|` of fields that do not overlap is a sum, and `&` with a run of ones a remainder.
use Prim.Native.Nat.{
  ℕ, zero, suc, ◌+◌, ◌-◌, ◌*◌, ◌/◌, ◌%◌, ◌^◌, ◌≤◌, ◌<◌, min, max, bit_and, bit_or, digits,
  bit_and-bitwise, bit_or-bitwise,
}
use mathlib.Core.Path.{◌≡◌, refl, ap, ap₂}
use native.Mathlib.Nat.{pow-suc, one-le-pow}
use native.Mathlib.Omega.{arith}

-- More fuel than the first number needs changes no digit.
enough_digits :
    (z : ℕ → ℕ) (f : ℕ → ℕ → ℕ) (n m a b : ℕ) → a ≤ n → a ≤ m → digits z f n a b ≡ digits z f m a b
enough_digits z f zero zero a b p q = refl
enough_digits z f zero (suc m) zero b p q = refl
enough_digits z f zero (suc m) (suc a) b p q = absurd (omega arith)
enough_digits z f (suc n) zero zero b p q = refl
enough_digits z f (suc n) zero (suc a) b p q = absurd (omega arith)
enough_digits z f (suc n) (suc m) zero b p q = refl
enough_digits z f (suc n) (suc m) (suc a) b p q =
    omega (arith, enough_digits z f n m (suc a / 2) (b / 2) (omega arith) (omega arith))

or_digit : (a b : ℕ) → bit_or a b ≡ bit_or (a / 2) (b / 2) * 2 + max (a % 2) (b % 2)
or_digit zero b = omega (arith, bit_or-bitwise 0 b, bit_or-bitwise 0 (b / 2))
or_digit (suc a) b = omega (
  arith,
  bit_or-bitwise (suc a) b,
  bit_or-bitwise (suc a / 2) (b / 2),
  enough_digits (λ y. y) max a (suc a / 2) (suc a / 2) (b / 2) (omega arith) (omega arith),
)

and_digit : (a b : ℕ) → bit_and a b ≡ bit_and (a / 2) (b / 2) * 2 + min (a % 2) (b % 2)
and_digit zero b = omega (arith, bit_and-bitwise 0 b, bit_and-bitwise 0 (b / 2))
and_digit (suc a) b = omega (
  arith,
  bit_and-bitwise (suc a) b,
  bit_and-bitwise (suc a / 2) (b / 2),
  enough_digits (λ y. 0) min a (suc a / 2) (suc a / 2) (b / 2) (omega arith) (omega arith),
)

zero-or : (b : ℕ) → bit_or 0 b ≡ b
zero-or b = bit_or-bitwise 0 b

and-zero_below : (n a : ℕ) → a ≤ n → bit_and a 0 ≡ 0
and-zero_below n zero h = bit_and-bitwise 0 0
and-zero_below zero (suc a) h = absurd (omega arith)
and-zero_below (suc n) (suc a) h =
    omega (arith, and_digit (suc a) 0, and-zero_below n (suc a / 2) (omega arith))

double_shift : (v k : ℕ) → v * 2 ^ suc k ≡ 2 * (v * 2 ^ k)
double_shift v k = omega (arith, ap (λ (t : ℕ). v * t) (pow-suc 2 k))

-- A field shifted past everything that is set adds to it.
pub or_above : (k a v : ℕ) → a < 2 ^ k → bit_or a (v * 2 ^ k) ≡ a + v * 2 ^ k
or_above zero zero v h = omega (arith, zero-or (v * 2 ^ 0))
or_above zero (suc a) v h = absurd (omega arith)
or_above (suc k) a v h = omega (
  arith,
  or_digit a (v * 2 ^ suc k),
  double_shift v k,
  or_above k (a / 2) v (omega (arith, pow-suc 2 k)),
  ap (λ (t : ℕ). bit_or (a / 2) t) (half_shift v k),
)
  where
    half_shift : (x j : ℕ) → x * 2 ^ suc j / 2 ≡ x * 2 ^ j
    half_shift x j = omega (arith, double_shift x j)

and_split : (k q r : ℕ) → r < 2 ^ k → bit_and (r + q * 2 ^ k) (2 ^ k - 1) ≡ r
and_split zero q r h = omega (arith, and-zero_below (r + q * 2 ^ 0) (r + q * 2 ^ 0) (omega arith))
and_split (suc k) q r h = omega (
  arith,
  and_digit (r + q * 2 ^ suc k) (2 ^ suc k - 1),
  and_split k q (r / 2) (omega (arith, pow-suc 2 k)),
  ap₂ bit_and (halved q k r) (half_mask k),
  double_shift q k,
  pow-suc 2 k,
  one-le-pow k 2,
)
  where
    halved : (x j y : ℕ) → (y + x * 2 ^ suc j) / 2 ≡ y / 2 + x * 2 ^ j
    halved x j y = omega (arith, double_shift x j)

    half_mask : (j : ℕ) → (2 ^ suc j - 1) / 2 ≡ 2 ^ j - 1
    half_mask j = omega (arith, pow-suc 2 j)

-- A mask of the `k` low bits is the remainder by `2 ^ k`.
pub and_low : (k a : ℕ) → bit_and a (2 ^ k - 1) ≡ a % 2 ^ k
and_low k a = ground (arith, one-le-pow k 2, and_split k (a / 2 ^ k) (a % 2 ^ k))
