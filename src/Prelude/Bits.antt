-- ===== src/Prelude/Bits.antt =====
-- Digit laws of the native bit operations: a step of two numbers to their halves, and what follows
-- for the masks that the code uses.
use Prim.Native.Nat.{
  ℕ, zero, suc, ◌+◌, ◌*◌, ◌/◌, ◌%◌, ◌≤◌, min, max, digits, bitwise, differ, bit_and, bit_or,
  bit_xor, bit_and-bitwise, bit_or-bitwise, bit_xor-bitwise,
}
use mathlib.Core.Path.{◌≡◌, refl, ap₂}
use native.Mathlib.Omega.{arith}

module _ (z : ℕ → ℕ) (f : ℕ → ℕ → ℕ) where
  -- More fuel than the first number needs changes nothing.
  digits_fuel : (n m a b : ℕ) → a ≤ n → a ≤ m → digits z f n a b ≡ digits z f m a b
  digits_fuel zero zero zero b p q = refl
  digits_fuel zero (suc m) zero b p q = refl
  digits_fuel (suc n) zero zero b p q = refl
  digits_fuel (suc n) (suc m) zero b p q = refl
  digits_fuel (suc n) (suc m) (suc a) b p q =
      omega (arith, digits_fuel n m (suc a / 2) (b / 2) (omega arith) (omega arith))
  digits_fuel zero m (suc a) b p q = absurd (omega arith)
  digits_fuel (suc n) zero (suc a) b p q = absurd (omega arith)

  -- `rule` says that the digits of the rest, once the first number has run out, agree with `f`.
  bitwise_step :
      (a b : ℕ)
      → ((c : ℕ) → z c ≡ z (c / 2) * 2 + f 0 (c % 2))
      → bitwise z f a b ≡ bitwise z f (a / 2) (b / 2) * 2 + f (a % 2) (b % 2)
  bitwise_step zero b rule = rule b
  bitwise_step (suc a) b rule =
      omega (arith, digits_fuel a (suc a / 2) (suc a / 2) (b / 2) (omega arith) (omega arith))

pub bit_and_step : (a b : ℕ) → bit_and a b ≡ bit_and (a / 2) (b / 2) * 2 + min (a % 2) (b % 2)
bit_and_step a b = omega (
  arith,
  bit_and-bitwise a b,
  bit_and-bitwise (a / 2) (b / 2),
  bitwise_step (λ (c : ℕ). 0) min a b (λ c. omega arith),
)

pub bit_or_step : (a b : ℕ) → bit_or a b ≡ bit_or (a / 2) (b / 2) * 2 + max (a % 2) (b % 2)
bit_or_step a b = omega (
  arith,
  bit_or-bitwise a b,
  bit_or-bitwise (a / 2) (b / 2),
  bitwise_step (λ (c : ℕ). c) max a b (λ c. omega arith),
)

pub bit_xor_step : (a b : ℕ) → bit_xor a b ≡ bit_xor (a / 2) (b / 2) * 2 + differ (a % 2) (b % 2)
bit_xor_step a b = omega (
  arith,
  bit_xor-bitwise a b,
  bit_xor-bitwise (a / 2) (b / 2),
  bitwise_step (λ (c : ℕ). c) differ a b (λ c. ground arith),
)

differ-zero : (d : ℕ) → differ d 0 ≡ d
differ-zero zero = refl
differ-zero (suc d) = refl

differ-one : (d : ℕ) → d ≤ 1 → differ d 1 + d ≡ 1
differ-one zero h = refl
differ-one (suc zero) h = refl
differ-one (suc (suc d)) h = absurd (omega arith)

zero_right :
    (n a : ℕ) → a ≤ n → record { and : bit_and a 0 ≡ 0; or : bit_or a 0 ≡ a; xor : bit_xor a 0 ≡ a }
zero_right n zero h = record { and = refl; or = refl; xor = refl }
zero_right zero (suc a) h = absurd (omega arith)
zero_right (suc n) (suc a) h =
    let half = zero_right n (suc a / 2) (omega arith) in
    record {
      and = omega (arith, bit_and_step (suc a) 0, half.and);
      or = omega (arith, bit_or_step (suc a) 0, half.or);
      xor = omega (arith, bit_xor_step (suc a) 0, half.xor, differ-zero (suc a % 2));
    }

pub bit_and-zero : (a : ℕ) → bit_and a 0 ≡ 0
bit_and-zero a = (zero_right a a (omega arith)).and

bit_or-zero : (a : ℕ) → bit_or a 0 ≡ a
bit_or-zero a = (zero_right a a (omega arith)).or

bit_xor-zero : (a : ℕ) → bit_xor a 0 ≡ a
bit_xor-zero a = (zero_right a a (omega arith)).xor

-- The masks of the two lowest digits, each written by the digits of the number.
pub bit_and-one : (a : ℕ) → bit_and a 1 ≡ a % 2
bit_and-one a = omega (arith, bit_and_step a 1, bit_and-zero (a / 2))

pub bit_and-two : (a : ℕ) → bit_and a 2 ≡ a / 2 % 2 * 2
bit_and-two a = omega (arith, bit_and_step a 2, bit_and-one (a / 2))

pub bit_or-one : (a : ℕ) → bit_or a 1 ≡ a / 2 * 2 + 1
bit_or-one a = omega (arith, bit_or_step a 1, bit_or-zero (a / 2))

pub bit_or-two : (a : ℕ) → bit_or a 2 ≡ a / 4 * 4 + 2 + a % 2
bit_or-two a = omega (arith, bit_or_step a 2, bit_or-one (a / 2))

-- The index of the sibling.
pub bit_xor-one : (a : ℕ) → bit_xor a 1 + a % 2 ≡ a / 2 * 2 + 1
bit_xor-one a =
    omega (arith, bit_xor_step a 1, bit_xor-zero (a / 2), differ-one (a % 2) (omega arith))

-- Below 4 the second number has two digits.
pub bit_and_below :
    (a b : ℕ) → b ≤ 3 → bit_and a b ≡ min (a / 2 % 2) (b / 2) * 2 + min (a % 2) (b % 2)
bit_and_below a b h = omega (
  arith,
  bit_and_step a b,
  bit_and_step (a / 2) (b / 2),
  bit_and-zero (a / 2 / 2),
  ap₂ bit_and {x = a / 2 / 2} refl (let e : b / 2 / 2 ≡ 0 = omega arith in e),
)
