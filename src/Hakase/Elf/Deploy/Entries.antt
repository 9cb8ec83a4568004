-- ===== src/Hakase/Elf/Deploy/Entries.antt =====
-- The last byte of the fills of a table of entries.
use toshokan.Base.{
  ℕ, zero, suc, ◌+◌, ◌-◌, ◌≡◌, ◌≤◌, ◌<◌, ◌⊎◌, Bool, true, false, Option, none, some, List, [], ◌∷◌,
  ◌++◌, arith, refl, sym, if◌then◌else◌, Bool-cases, ℕ_discrete, inl, inr,
}
use toshokan.Hakase.Elf.Deploy.{Fill, covers}
use toshokan.Hakase.Elf.Deploy.Scan.{fills}
use toshokan.Hakase.Elf.Deploy.Loaded.{or_else, last_byte}

or_else-none : (o : Option ℕ) → or_else o none ≡ o
or_else-none none = refl
or_else-none (some b) = refl

or_else_assoc : (x y z : Option ℕ) → or_else (or_else x y) z ≡ or_else x (or_else y z)
or_else_assoc none y z = refl
or_else_assoc (some b) y z = refl

pub last_byte-append :
    (vs ws : List Fill) (a : ℕ) → last_byte (vs ++ ws) a ≡ or_else (last_byte ws a) (last_byte vs a)
last_byte-append [] ws a = sym (or_else-none (last_byte ws a))
last_byte-append (v ∷ vs) ws a =
    rw (last_byte-append vs ws a) (or_else_assoc (last_byte ws a) (last_byte vs a) _)

pub fills-next :
    (entry : ℕ → Option (Option Fill)) (n i : ℕ) (b : Bool) (w : Fill)
    → entry i ≡ some (if b then some w else none)
    → fills entry (suc n) i ≡ (if b then w ∷ fills entry n (i + 1) else fills entry n (i + 1))
fills-next entry n i true w e = rw (fills, e) refl
fills-next entry n i false w e = rw (fills, e) refl

-- A table of `n` entries, of which those with `is_listed` stand for the fills `at`.
module _ (entry : ℕ → Option (Option Fill)) (is_listed : ℕ → Bool) (at : ℕ → Fill) (a : ℕ) where
  abbrev pub Table : ℕ → ℕ → Type 0
  Table n i =
      (k : ℕ) → i ≤ k → k < i + n → entry k ≡ some (if is_listed k then some (at k) else none)

  -- No fill of an entry from `i` on covers the address.
  abbrev pub Free : ℕ → ℕ → Type 0
  Free n i = (k : ℕ) → i ≤ k → k < i + n → is_listed k ≡ true → covers (at k) a ≡ false

  pub last_byte-Free : (n i : ℕ) → Table n i → Free n i → last_byte (fills entry n i) a ≡ none
  last_byte-Free zero i t f = refl
  last_byte-Free (suc n) i t f =
      let rest =
        last_byte-Free n (i + 1) (λ k p q. t k (omega arith) (omega arith))
          (λ k p q. f k (omega arith) (omega arith)) in
      let e = fills-next entry n i (is_listed i) (at i) (t i (omega arith) (omega arith)) in
      elim (Bool-cases (is_listed i)) [
        | inl y ↦ rw (e, y) (rw (rest, f i (omega arith) (omega arith) y) refl)
        | inr n ↦ rw (e, n) rest
      ]

  pub last_byte-at :
      (n i k : ℕ)
      → Table n i
      → i ≤ k
      → k < i + n
      → is_listed k ≡ true
      → covers (at k) a ≡ true
      → ((j : ℕ) → k < j → j < i + n → is_listed j ≡ true → covers (at j) a ≡ false)
      → last_byte (fills entry n i) a ≡ some ((at k).byte (a - (at k).vaddr))
  last_byte-at zero i k t lo hi l c f = absurd (omega arith)
  last_byte-at (suc n) i k t lo hi l c f =
      let e = fills-next entry n i (is_listed i) (at i) (t i (omega arith) (omega arith)) in
      elim (ℕ_discrete i k) [
        | yes same ↦
            let rest =
              last_byte-Free n (k + 1) (λ j p q. t j (omega (arith, same)) (omega (arith, same)))
                (λ j p q. f j (omega arith) (omega (arith, same))) in
            rw (e, same, l) (rw (rest, c) refl)
        | no other ↦
            let rest =
              last_byte-at n (i + 1) k (λ j p q. t j (omega arith) (omega arith)) (omega arith)
                (omega arith) l c (λ j p q. f j p (omega arith)) in
            elim (Bool-cases (is_listed i)) [
              | inl y ↦ rw (e, y) (rw rest refl)
              | inr n ↦ rw (e, n) rest
            ]
      ]

  -- Where every fill is of zeros.
  module _ (zeros : (k x : ℕ) → (at k).byte x ≡ 0) where
    last_byte-zeros :
        (n i : ℕ)
        → Table n i
        → (last_byte (fills entry n i) a ≡ none) ⊎ (last_byte (fills entry n i) a ≡ some 0)
    last_byte-zeros zero i t = inl refl
    last_byte-zeros (suc n) i t =
        let e = fills-next entry n i (is_listed i) (at i) (t i (omega arith) (omega arith)) in
        let z = zeros i (a - (at i).vaddr) in
        elim (last_byte-zeros n (i + 1) (λ j p q. t j (omega arith) (omega arith))) [
          | inr y ↦ elim (Bool-cases (is_listed i)) [
            | inl l ↦ inr (rw (e, l) (rw y refl))
            | inr l ↦ inr (rw (e, l) y)
          ]
          | inl y ↦ elim (Bool-cases (is_listed i)) [
            | inl l ↦ elim (Bool-cases (covers (at i) a)) [
              | inl c ↦ inr (rw (e, l) (rw (y, c, z) refl))
              | inr c ↦ inl (rw (e, l) (rw (y, c) refl))
            ]
            | inr l ↦ inl (rw (e, l) y)
          ]
        ]

    pub last_byte-zero :
        (n i k : ℕ)
        → Table n i
        → i ≤ k
        → k < i + n
        → is_listed k ≡ true
        → covers (at k) a ≡ true
        → last_byte (fills entry n i) a ≡ some 0
    last_byte-zero zero i k t lo hi l c = absurd (omega arith)
    last_byte-zero (suc n) i k t lo hi l c =
        let e = fills-next entry n i (is_listed i) (at i) (t i (omega arith) (omega arith)) in
        elim (ℕ_discrete i k) [
          | yes same ↦
              elim (last_byte-zeros n (k + 1)
                (λ j p q. t j (omega (arith, same)) (omega (arith, same)))) [
                  | inl y ↦ rw (e, same, l) (rw (y, c, zeros k (a - (at k).vaddr)) refl)
                  | inr y ↦ rw (e, same, l) (rw y refl)
                ]
          | no other ↦
              let rest =
                last_byte-zero n (i + 1) k (λ j p q. t j (omega arith) (omega arith)) (omega arith)
                  (omega arith) l c in
              elim (Bool-cases (is_listed i)) [
                | inl y ↦ rw (e, y) (rw rest refl)
                | inr n ↦ rw (e, n) rest
              ]
        ]
