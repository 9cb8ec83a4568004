-- ===== src/Base/Bits.antt =====
-- The bits of a word, one at a time.
use Prim.Native.Nat.{
  ℕ, zero, suc, ◌+◌, ◌*◌, ◌/◌, ◌%◌, ◌^◌, ◌≤◌, ◌<◌, max, min, bit_and, bit_or, digits,
  bit_and-bitwise,
}
use mathlib.Core.Path.{◌≡◌, refl, ap, ◌∙◌}
use mathlib.Core.Bool.{Bool}
use native.Mathlib.Nat.{pow-suc, div-div-eq-div-mul, zero-div}
use native.Mathlib.Omega.{arith}
use toshokan.Base.Tests.{◌==◌}
use toshokan.Base.Words.{bit_or_step}

abbrev pub bit_of : ℕ → ℕ → ℕ
bit_of k n = n / 2 ^ k % 2

abbrev pub flag : ℕ → ℕ → Bool
flag k n = bit_of k n == 1

div_suc : (k n : ℕ) → n / 2 ^ suc k ≡ n / 2 / 2 ^ k
div_suc k n = rw (pow-suc' k, div-div-eq-div-mul n 2 (2 ^ k)) refl
  where
    pow-suc' : (k : ℕ) → 2 ^ suc k ≡ 2 * 2 ^ k
    pow-suc' k = omega (arith, pow-suc 2 k)

pub bit_of-or : (k a b : ℕ) → bit_of k (bit_or a b) ≡ max (bit_of k a) (bit_of k b)
bit_of-or zero a b = omega (arith, bit_or_step a b)
bit_of-or (suc k) a b =
    let h : bit_or a b / 2 ≡ bit_or (a / 2) (b / 2) = omega (arith, bit_or_step a b) in
    rw (div_suc k (bit_or a b), div_suc k a, div_suc k b, h) (bit_of-or k (a / 2) (b / 2))

-- The digits of a conjunction, from what the native operation stands for.
halves : (h x : ℕ) → x < 2 → (h * 2 + x) / 2 ≡ h
halves h x p = omega arith

bit_of-digits :
    (n k a b : ℕ) → a ≤ n → bit_of k (digits (λ b. zero) min n a b) ≡ min (bit_of k a) (bit_of k b)
bit_of-digits zero k zero b p = rw (zero-div (2 ^ k)) (omega arith)
bit_of-digits (suc n) k zero b p = rw (zero-div (2 ^ k)) (omega arith)
bit_of-digits zero k (suc a) b p = absurd (omega arith)
bit_of-digits (suc n) zero (suc a) b p = omega arith
bit_of-digits (suc n) (suc k) (suc a) b p =
    let rest = digits (λ b. zero) min n (suc a / 2) (b / 2) in
    let low = min (suc a % 2) (b % 2) in
    rw (div_suc k (rest * 2 + low), div_suc k (suc a), div_suc k b, halves rest low (omega arith))
      (bit_of-digits n k (suc a / 2) (b / 2) (omega arith))

pub bit_of-and : (k a b : ℕ) → bit_of k (bit_and a b) ≡ min (bit_of k a) (bit_of k b)
bit_of-and k a b = ap (bit_of k) (bit_and-bitwise a b) ∙ bit_of-digits a k a b (omega arith)
