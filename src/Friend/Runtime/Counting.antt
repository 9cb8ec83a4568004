-- ===== src/Friend/Runtime/Counting.antt =====
-- How many of the first `n` members of a family have a property.
use toshokan.Base.{
  ℕ, zero, suc, ◌+◌, ◌<◌, ◌≤◌, ◌≡◌, refl, ap, Bool, true, false, update, update_self, update_ne,
  ℕ_discrete, arith,
}

abbrev pub bit : Bool → ℕ
bit true = 1
bit false = 0

bit_le : (b : Bool) → bit b ≤ 1
bit_le true = omega arith
bit_le false = omega arith

bit_one : (b : Bool) → 1 ≤ bit b → b ≡ true
bit_one true h = refl
bit_one false h = absurd (omega arith)

module _ {ℓ} {A : Type ℓ} (has : A → Bool) where
  pub count : ℕ → (ℕ → A) → ℕ
  count zero f = 0
  count (suc n) f = bit (has (f n)) + count n f

  pub count-none : (n : ℕ) (a : A) → has a ≡ false → count n (λ _. a) ≡ 0
  unfolding count
  count-none zero a e = refl
  count-none (suc n) a e = rw (e, count-none n a e) (omega arith)

  -- Members beyond do not count.
  count-update_beyond : (n c : ℕ) (f : ℕ → A) (a : A) → n ≤ c → count n (update f c a) ≡ count n f
  unfolding count
  count-update_beyond zero c f a h = refl
  count-update_beyond (suc n) c f a h =
      rw (update_ne f c n a (λ e. absurd (omega arith)), count-update_beyond n c f a (omega arith))
        refl

  pub count-update :
      (n c : ℕ) (f : ℕ → A) (a : A)
      → c < n
      → count n (update f c a) + bit (has (f c)) ≡ count n f + bit (has a)
  unfolding count
  count-update zero c f a h = absurd (omega arith)
  count-update (suc n) c f a h = elim (ℕ_discrete c n) [
    | yes e ↦ rw (e, update_self f n a, count-update_beyond n n f a (omega arith)) (omega arith)
    | no d ↦ rw (update_ne f c n a d) (omega (arith, count-update n c f a (omega arith)))
  ]

module _ {ℓ} {A : Type ℓ} (has also : A → Bool) where
  -- Where each member with the second property has the first.
  pub count-le :
      (n : ℕ) (f : ℕ → A) → ((a : A) → bit (also a) ≤ bit (has a)) → count also n f ≤ count has n f
  unfolding count
  count-le zero f h = omega arith
  count-le (suc n) f h = omega (arith, h (f n), count-le n f h)

  pub count-all :
      (n : ℕ) (f : ℕ → A)
      → ((a : A) → bit (also a) ≤ bit (has a))
      → count has n f ≤ count also n f
      → (c : ℕ) → c < n
      → bit (has (f c)) ≤ bit (also (f c))
  unfolding count
  count-all zero f h p c q = absurd (omega arith)
  count-all (suc n) f h p c q = elim (ℕ_discrete c n) [
    | yes e ↦ rw e (omega (arith, p, count-le n f h))
    | no d ↦ count-all n f h (omega (arith, p, h (f n))) c (omega arith)
  ]

-- There are no more than `n`; where there are `n`, each is one.
module _ {ℓ} {A : Type ℓ} (has : A → Bool) where
  pub count_bound : (n : ℕ) (f : ℕ → A) → count has n f ≤ n
  unfolding count
  count_bound zero f = omega arith
  count_bound (suc n) f = omega (arith, count_bound n f, bit_le (has (f n)))

  pub count_full : (n : ℕ) (f : ℕ → A) → n ≤ count has n f → (c : ℕ) → c < n → has (f c) ≡ true
  unfolding count
  count_full zero f h c k = absurd (omega arith)
  count_full (suc n) f h c k = elim (ℕ_discrete c n) [
    | yes e ↦ rw e (bit_one (has (f n)) (omega (arith, h, count_bound n f)))
    | no d ↦ count_full n f (omega (arith, h, bit_le (has (f n)))) c (omega arith)
  ]

  pub count_empty : (n : ℕ) (f : ℕ → A) → ((c : ℕ) → c < n → has (f c) ≡ false) → count has n f ≡ 0
  unfolding count
  count_empty zero f h = refl
  count_empty (suc n) f h =
      omega (arith, ap bit (h n (omega arith)), count_empty n f (λ c k. h c (omega arith)))

  pub count_whole : (n : ℕ) (f : ℕ → A) → ((c : ℕ) → c < n → has (f c) ≡ true) → count has n f ≡ n
  unfolding count
  count_whole zero f h = refl
  count_whole (suc n) f h =
      omega (arith, ap bit (h n (omega arith)), count_whole n f (λ c k. h c (omega arith)))

  pub count_nobody : (n : ℕ) (f : ℕ → A) → count has n f ≡ 0 → (c : ℕ) → c < n → bit (has (f c)) ≡ 0
  unfolding count
  count_nobody zero f h c k = absurd (omega arith)
  count_nobody (suc n) f h c k = elim (ℕ_discrete c n) [
    | yes e ↦ rw e (omega (arith, h))
    | no d ↦ count_nobody n f (omega (arith, h)) c (omega arith)
  ]
