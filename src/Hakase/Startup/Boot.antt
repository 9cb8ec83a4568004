-- ===== src/Hakase/Startup/Boot.antt =====
-- How many cores `boot` starts.
use toshokan.Base.{
  ℕ, zero, suc, ◌+◌, ◌-◌, ◌<◌, ◌≤◌, ◌≡◌, ◌≢◌, refl, Bool, true, false, ◌&&◌, some, ltb, ◌==◌,
  ==_iff, ap, if◌then◌else◌, ℕ_discrete, arith,
}
use toshokan.Base.Int.{ℤ, pos, negsuc}
use toshokan.Hakase.Startup.{boot_from, boot}

-- `max`, where it is a limit that is met before core `n`, and else the number of the core before.
abbrev pub limit : ℤ → ℕ → ℕ
limit (pos m) n = if ltb 0 m && ltb m n then m else n - 1
limit (negsuc m) n = n - 1

-- From core `i` on, where no core before it was the last.
boot_from-pos :
    (opens : ℕ → Bool) (m f i n : ℕ)
    → n < i + f
    → 0 < i
    → i ≤ n
    → opens n ≡ false
    → ((j : ℕ) → i ≤ j → j < n → opens j ≡ true)
    → (0 < m → i ≤ m)
    → boot_from opens (pos m) f i ≡ some (limit (pos m) n)
unfolding boot_from
boot_from-pos opens m zero i n a b c d e g = absurd (omega arith)
boot_from-pos opens m (suc f) i n a b c d e g = elim (ℕ_discrete i n) [
  | yes x ↦ rw (x, d) (ap some (no_limit (λ p. omega (arith, g p))))
  | no x ↦ elim (ℕ_discrete m i) [
    | yes y ↦
        rw (e i (omega arith) (omega arith), (==_iff m i).1 y) (ap some (at_limit y (omega arith)))
    | no y ↦
        rw (e i (omega arith) (omega arith), differ m i y)
          (boot_from-pos opens m f (i + 1) n (omega arith) (omega arith) (omega arith) d
            (λ j p. e j (omega arith)) (λ p. omega (arith, g p)))
  ]
]
  where
    no_limit : (0 < m → n ≤ m) → n - 1 ≡ (if ltb 0 m && ltb m n then m else n - 1)
    no_limit h = ground arith

    at_limit : m ≡ i → i < n → i ≡ (if ltb 0 m && ltb m n then m else n - 1)
    at_limit y h = ground arith

    differ : (x y : ℕ) → x ≢ y → (x == y) ≡ false
    differ x y h = ground arith

boot_from-negsuc :
    (opens : ℕ → Bool) (m f i n : ℕ)
    → n < i + f
    → i ≤ n
    → opens n ≡ false
    → ((j : ℕ) → i ≤ j → j < n → opens j ≡ true)
    → boot_from opens (negsuc m) f i ≡ some (n - 1)
unfolding boot_from
boot_from-negsuc opens m zero i n a c d e = absurd (omega arith)
boot_from-negsuc opens m (suc f) i n a c d e = elim (ℕ_discrete i n) [
  | yes x ↦ rw (x, d) refl
  | no x ↦ rw (e i (omega arith) (omega arith)) (
      boot_from-negsuc opens m f (i + 1) n (omega arith) (omega arith) d (λ j p. e j (omega arith)))
]

-- Where the first core whose file cannot be opened is number `n`, counted from 1: `boot` ends, with
-- `max` if that is positive and less than `n`, and otherwise with the number of the cores before.
pub boot_lem :
    (opens : ℕ → Bool) (max : ℤ) (n fuel : ℕ)
    → 0 < n
    → opens n ≡ false
    → ((j : ℕ) → 1 ≤ j → j < n → opens j ≡ true)
    → n ≤ fuel
    → boot opens max fuel ≡ some (limit max n)
unfolding boot
boot_lem opens (pos m) n f p d e h =
    boot_from-pos opens m f 1 n (omega arith) (omega arith) (omega arith) d e (λ q. q)
boot_lem opens (negsuc m) n f p d e h =
    boot_from-negsuc opens m f 1 n (omega arith) (omega arith) d e
