-- ===== src/Base/Words.antt =====
-- Machine words: wrapping arithmetic on 64 bits, and `|` where the two numbers share no bit.
use Prim.Native.Nat.{
  ℕ, zero, suc, ◌+◌, ◌*◌, ◌/◌, ◌%◌, ◌^◌, ◌≤◌, ◌<◌, max, bit_or, digits, bit_or-bitwise,
}
use mathlib.Core.Path.{◌≡◌, refl, ap}
use native.Mathlib.Nat.{pow-suc}
use native.Mathlib.Omega.{arith}

-- `size_t` and `uint64_t` sums.
abbrev pub add_u64 : ℕ → ℕ → ℕ
add_u64 a b = (a + b) % 2 ^ 64

abbrev or_digits : ℕ → ℕ → ℕ → ℕ
or_digits n a b = digits (λ b. b) max n a b

or_digits_fuel : (n m a b : ℕ) → a ≤ n → a ≤ m → or_digits n a b ≡ or_digits m a b
or_digits_fuel zero zero a b p q = refl
or_digits_fuel zero (suc m) zero b p q = refl
or_digits_fuel zero (suc m) (suc a) b p q = absurd (omega arith)
or_digits_fuel (suc n) zero zero b p q = refl
or_digits_fuel (suc n) zero (suc a) b p q = absurd (omega arith)
or_digits_fuel (suc n) (suc m) zero b p q = refl
or_digits_fuel (suc n) (suc m) (suc a) b p q =
    omega (arith, or_digits_fuel n m (suc a / 2) (b / 2) (omega arith) (omega arith))

zero-bit_or : (b : ℕ) → bit_or 0 b ≡ b
zero-bit_or b = bit_or-bitwise 0 b

-- The lowest digit of `a | b`, and the others.
pub bit_or_step : (a b : ℕ) → bit_or a b ≡ bit_or (a / 2) (b / 2) * 2 + max (a % 2) (b % 2)
bit_or_step zero b = omega (arith, zero-bit_or b, zero-bit_or (b / 2))
bit_or_step (suc a) b = omega (
  arith,
  bit_or-bitwise (suc a) b,
  bit_or-bitwise (suc a / 2) (b / 2),
  or_digits_fuel a (suc a / 2) (suc a / 2) (b / 2) (omega arith) (omega arith),
)

bit_or-zero_fuel : (n a : ℕ) → a ≤ n → bit_or a 0 ≡ a
bit_or-zero_fuel n zero h = zero-bit_or 0
bit_or-zero_fuel zero (suc a) h = absurd (omega arith)
bit_or-zero_fuel (suc n) (suc a) h =
    omega (arith, bit_or_step (suc a) 0, bit_or-zero_fuel n (suc a / 2) (omega arith))

pub bit_or-zero : (a : ℕ) → bit_or a 0 ≡ a
bit_or-zero a = bit_or-zero_fuel a a (omega arith)

-- Flags below `2 ^ k` set in a number whose low `k` bits are clear are added to it.
pub bit_or-flags : (k a m : ℕ) → m < 2 ^ k → bit_or (2 ^ k * a) m ≡ 2 ^ k * a + m
bit_or-flags zero a m h = let e : m ≡ 0 = omega arith in rw e (omega (arith, bit_or-zero (1 * a)))
bit_or-flags (suc k) a m h =
    omega (arith, split, bit_or-flags k a (m / 2) (omega (arith, pow-suc 2 k)), even)
  where
    even : 2 ^ suc k * a ≡ 2 * (2 ^ k * a)
    even = omega (arith, ap (λ (t : ℕ). t * a) (pow-suc 2 k))

    half : bit_or (2 * (2 ^ k * a) / 2) (m / 2) ≡ bit_or (2 ^ k * a) (m / 2)
    half = ap (λ (t : ℕ). bit_or t (m / 2)) (omega arith)

    split : bit_or (2 ^ suc k * a) m ≡ bit_or (2 ^ k * a) (m / 2) * 2 + m % 2
    split = rw even (omega (arith, bit_or_step (2 * (2 ^ k * a)) m, half))

-- Bits below `2 ^ k` are set in the low `k` bits alone.
pub bit_or_low :
    (k a r m : ℕ) → r < 2 ^ k → m < 2 ^ k → bit_or (2 ^ k * a + r) m ≡ 2 ^ k * a + bit_or r m
bit_or_low zero a r m p q =
    let e : m ≡ 0 = omega arith in
    let d : r ≡ 0 = omega arith in rw (e, d) (omega (arith, bit_or-zero (1 * a + 0), bit_or-zero 0))
bit_or_low (suc k) a r m p q = omega (
  arith,
  bit_or_step (2 ^ suc k * a + r) m,
  ap (λ (t : ℕ). bit_or t (m / 2)) half,
  low,
  bit_or_step r m,
  even,
  bit_or_low k a (r / 2) (m / 2) (omega (arith, pow-suc 2 k)) (omega (arith, pow-suc 2 k)),
)
  where
    even : 2 ^ suc k * a ≡ 2 * (2 ^ k * a)
    even = omega (arith, ap (λ (t : ℕ). t * a) (pow-suc 2 k))

    half : (2 ^ suc k * a + r) / 2 ≡ 2 ^ k * a + r / 2
    half = omega (arith, even)

    low : (2 ^ suc k * a + r) % 2 ≡ r % 2
    low = omega (arith, even)

-- Bits from `2 ^ k` on are set in a number below.
pub bit_or_raised : (k a m : ℕ) → m < 2 ^ k → bit_or m (2 ^ k * a) ≡ 2 ^ k * a + m
bit_or_raised zero a m h = let e : m ≡ 0 = omega arith in rw e (omega (arith, zero-bit_or (1 * a)))
bit_or_raised (suc k) a m h = omega (
  arith,
  bit_or_step m (2 ^ suc k * a),
  ap (λ (t : ℕ). bit_or (m / 2) t) half,
  even,
  bit_or_raised k a (m / 2) (omega (arith, pow-suc 2 k)),
)
  where
    even : 2 ^ suc k * a ≡ 2 * (2 ^ k * a)
    even = omega (arith, ap (λ (t : ℕ). t * a) (pow-suc 2 k))

    half : 2 ^ suc k * a / 2 ≡ 2 ^ k * a
    half = omega (arith, even)
