-- ===== src/Base/Masks.antt =====
-- Bounds on `&` and `|`.
use Prim.Native.Nat.{
  ℕ, zero, suc, ◌/◌, ◌^◌, ◌≤◌, ◌<◌, max, min, bit_and, bit_or, digits, bit_and-bitwise,
  bit_or-bitwise,
}
use native.Mathlib.Nat.{pow-suc}
use native.Mathlib.Omega.{arith}

and_digits-le : (n a b : ℕ) → digits (λ b. zero) min n a b ≤ b
and_digits-le zero a b = omega arith
and_digits-le (suc n) zero b = omega arith
and_digits-le (suc n) (suc a) b = omega (arith, and_digits-le n (suc a / 2) (b / 2))

pub bit_and-le : (a b : ℕ) → bit_and a b ≤ b
bit_and-le a b = omega (arith, bit_and-bitwise a b, and_digits-le a a b)

or_digits-lt : (n k a b : ℕ) → a < 2 ^ k → b < 2 ^ k → digits (λ b. b) max n a b < 2 ^ k
or_digits-lt zero k a b p q = q
or_digits-lt (suc n) k zero b p q = q
or_digits-lt (suc n) zero (suc a) b p q = absurd (omega arith)
or_digits-lt (suc n) (suc k) (suc a) b p q = omega (
  arith,
  pow-suc 2 k,
  or_digits-lt n k (suc a / 2) (b / 2) (omega (arith, pow-suc 2 k)) (omega (arith, pow-suc 2 k)),
)

pub bit_or-lt : (k a b : ℕ) → a < 2 ^ k → b < 2 ^ k → bit_or a b < 2 ^ k
bit_or-lt k a b p q = omega (arith, bit_or-bitwise a b, or_digits-lt a k a b p q)

or_digits-ge :
    (n a b : ℕ) → a ≤ n → (a ≤ digits (λ b. b) max n a b) × (b ≤ digits (λ b. b) max n a b)
or_digits-ge zero a b p = (omega arith, omega arith)
or_digits-ge (suc n) zero b p = (omega arith, omega arith)
or_digits-ge (suc n) (suc a) b p =
    let rest = or_digits-ge n (suc a / 2) (b / 2) (omega arith) in
    (omega (arith, rest.0), omega (arith, rest.1))

pub bit_or-ge : (a b : ℕ) → (a ≤ bit_or a b) × (b ≤ bit_or a b)
bit_or-ge a b =
    let h = or_digits-ge a a b (omega arith) in
    (omega (arith, bit_or-bitwise a b, h.0), omega (arith, bit_or-bitwise a b, h.1))
