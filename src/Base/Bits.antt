-- ===== src/Base/Bits.antt =====
-- `|` of disjoint fields and `& 0x3f` as arithmetic, from the binary digits that the operations
-- stand for.
use Prim.Native.Nat.{
  ℕ, zero, suc, ◌+◌, ◌*◌, ◌/◌, ◌%◌, ◌≤◌, ◌<◌, min, max, bit_and, bit_or, digits, bit_and-bitwise,
  bit_or-bitwise,
}
use mathlib.Core.Path.{◌≡◌, refl}
use native.Mathlib.Omega.{arith}

-- The count of digits to go does not matter once it covers the first number.
module _ (z : ℕ → ℕ) (f : ℕ → ℕ → ℕ) where
  digits_count : (n m a b : ℕ) → a ≤ n → a ≤ m → digits z f n a b ≡ digits z f m a b
  digits_count zero zero zero b p q = refl
  digits_count zero (suc m) zero b p q = refl
  digits_count (suc n) zero zero b p q = refl
  digits_count (suc n) (suc m) zero b p q = refl
  digits_count zero m (suc a) b p q = absurd (omega arith)
  digits_count (suc n) zero (suc a) b p q = absurd (omega arith)
  digits_count (suc n) (suc m) (suc a) b p q =
      omega (arith, digits_count n m (suc a / 2) (b / 2) (omega arith) (omega arith))

bit_and_digit : (a b : ℕ) → bit_and a b ≡ bit_and (a / 2) (b / 2) * 2 + min (a % 2) (b % 2)
bit_and_digit zero b = omega (arith, bit_and-bitwise 0 b, bit_and-bitwise 0 (b / 2))
bit_and_digit (suc a) b = omega (
  arith,
  bit_and-bitwise (suc a) b,
  bit_and-bitwise (suc a / 2) (b / 2),
  digits_count (λ b. zero) min a (suc a / 2) (suc a / 2) (b / 2) (omega arith) (omega arith),
)

bit_or_digit : (a b : ℕ) → bit_or a b ≡ bit_or (a / 2) (b / 2) * 2 + max (a % 2) (b % 2)
bit_or_digit zero b = omega (arith, bit_or-bitwise 0 b, bit_or-bitwise 0 (b / 2))
bit_or_digit (suc a) b = omega (
  arith,
  bit_or-bitwise (suc a) b,
  bit_or-bitwise (suc a / 2) (b / 2),
  digits_count (λ b. b) max a (suc a / 2) (suc a / 2) (b / 2) (omega arith) (omega arith),
)

bit_and-zero_below : (n a : ℕ) → a ≤ n → bit_and a 0 ≡ 0
bit_and-zero_below n zero h = refl
bit_and-zero_below zero (suc a) h = absurd (omega arith)
bit_and-zero_below (suc n) (suc a) h =
    omega (arith, bit_and_digit (suc a) 0, bit_and-zero_below n (suc a / 2) (omega arith))

bit_or-zero_below : (n a : ℕ) → a ≤ n → bit_or a 0 ≡ a
bit_or-zero_below n zero h = refl
bit_or-zero_below zero (suc a) h = absurd (omega arith)
bit_or-zero_below (suc n) (suc a) h =
    omega (arith, bit_or_digit (suc a) 0, bit_or-zero_below n (suc a / 2) (omega arith))

bit_and_three : (a : ℕ) → bit_and a 7 ≡ a % 8
bit_and_three a = omega (
  arith,
  bit_and_digit a 7,
  bit_and_digit (a / 2) 3,
  bit_and_digit (a / 2 / 2) 1,
  bit_and-zero_below (a / 2 / 2 / 2) (a / 2 / 2 / 2) (omega arith),
)

pub bit_and_six : (a : ℕ) → bit_and a 0x3f ≡ a % 64
bit_and_six a = omega (
  arith,
  bit_and_digit a 63,
  bit_and_digit (a / 2) 31,
  bit_and_digit (a / 2 / 2) 15,
  bit_and_three (a / 2 / 2 / 2),
)

-- 2 to the k, by doubling.
abbrev pub two_pow : ℕ → ℕ
two_pow zero = 1
two_pow (suc k) = 2 * two_pow k

-- `(q << k) | r` is a sum if `r` has at most k digits.
pub bit_or_fields : (k q r : ℕ) → r < two_pow k → bit_or (q * two_pow k) r ≡ q * two_pow k + r
bit_or_fields zero q r h =
    let one : r ≡ 0 = omega arith in
    let same : q * 1 ≡ q = omega arith in
    rw (one, same) (omega (arith, bit_or-zero_below q q (omega arith)))
bit_or_fields (suc k) q r h =
    let even : q * two_pow (suc k) ≡ 2 * (q * two_pow k) = omega arith in
    let half : 2 * (q * two_pow k) / 2 ≡ q * two_pow k = omega arith in
    let rest : bit_or (2 * (q * two_pow k) / 2) (r / 2) ≡ q * two_pow k + r / 2 =
      rw half (bit_or_fields k q (r / 2) (omega arith)) in
    rw even (omega (arith, bit_or_digit (2 * (q * two_pow k)) r, rest))
