-- ===== src/Hakase/Interrupt/Vectors.antt =====
-- Which vector SetIntCallback gives.
use toshokan.Base.{
  ℕ, zero, suc, ◌+◌, ◌≡◌, ◌≢◌, ◌≤◌, ◌<◌, refl, some, true, false, ◌==◌, ℕ_discrete, arith,
}
use toshokan.Base.Int.{pos}
use toshokan.Hakase.Interrupt.{
  InterruptController, k_error, set_at, set_from, set_int_callback, process_interrupt,
}

module _ (f x : ℕ) (c : InterruptController) where
  set_from-free :
      (n from v : ℕ)
      → from ≤ v
      → v < from + n
      → c.callback v ≡ 0
      → ((w : ℕ) → from ≤ w → w < v → c.callback w ≢ 0)
      → set_from n from f x c ≡ (pos v, set_at v f x c)
  unfolding set_from
  set_from-free zero from v p q e h = absurd (omega arith)
  set_from-free (suc n) from v p q e h = elim (ℕ_discrete from v) [
    | yes d ↦ let z : (c.callback v == 0) ≡ true = ground arith in rw (d, z) refl
    | no d ↦
        let z : (c.callback from == 0) ≡ false =
          ground (arith, h from (omega arith) (omega arith)) in
        rw z (
          set_from-free n (from + 1) v (omega arith) (omega arith) e (λ w a b. h w (omega arith) b))
  ]

  set_from-full :
      (n from : ℕ)
      → ((w : ℕ) → from ≤ w → w < from + n → c.callback w ≢ 0)
      → set_from n from f x c ≡ (k_error, c)
  unfolding set_from
  set_from-full zero from h = refl
  set_from-full (suc n) from h =
      let z : (c.callback from == 0) ≡ false = ground (arith, h from (omega arith) (omega arith)) in
      rw z (set_from-full n (from + 1) (λ w a b. h w (omega arith) (omega arith)))

-- A function that is not null goes to the first free vector from 32 on, is the one that an interrupt
-- of that vector calls, and every other vector calls what it called before.
pub set_int_callback-first :
    (f x v w : ℕ) (c : InterruptController)
    → f ≢ 0
    → 32 ≤ v
    → v < 256
    → c.callback v ≡ 0
    → ((u : ℕ) → 32 ≤ u → u < v → c.callback u ≢ 0)
    → w ≢ v
    → let (result, c') = set_int_callback f x c in
      (result ≡ pos v)
      × (process_interrupt v c' ≡ (some (f, x), true))
      × (process_interrupt w c' ≡ process_interrupt w c)
unfolding set_int_callback
set_int_callback-first f x v w c n a b e h d =
    let r = set_from-free f x c 224 32 v a (omega arith) e h in
    let z : (f == 0) ≡ false = ground arith in
    let s : (v == v) ≡ true = ground arith in
    let o : (v == w) ≡ false = ground arith in rw r (refl, rw (s, z) refl, rw o refl)

-- Where every vector from 32 on is taken, the result is the error, and nothing changes.
pub set_int_callback-full :
    (f x : ℕ) (c : InterruptController)
    → ((w : ℕ) → 32 ≤ w → w < 256 → c.callback w ≢ 0)
    → set_int_callback f x c ≡ (k_error, c)
unfolding set_int_callback
set_int_callback-full f x c h = set_from-full f x c 224 32 h
