-- ===== src/SampleOld/Tables/Entries.antt =====
-- Entries of tables as words in memory by bytes.
use toshokan.Base.{
  ℕ, ◌+◌, ◌-◌, ◌*◌, ◌/◌, ◌%◌, ◌^◌, ◌≡◌, ◌≤◌, ◌<◌, refl, ap, sym, ◌∙◌, true, ◌⊎◌, leb, ltb,
  ℕ_discrete, arith,
}
use toshokan.Hakase.PageTables.{set_entry}
use toshokan.SampleOld.Machine.{Bytes, read64, write64, tables}

-- The bytes of a word below 2 ^ 64 are the word.
join_bytes :
    (v : ℕ)
    → v < 2 ^ 64
    → v % 256
        + 2 ^ 8
          * (v / 256 % 256
              + 2 ^ 8
                * (v / 256 ^ 2 % 256
                    + 2 ^ 8
                      * (v / 256 ^ 3 % 256
                          + 2 ^ 8
                            * (v / 256 ^ 4 % 256
                                + 2 ^ 8
                                  * (v / 256 ^ 5 % 256
                                      + 2 ^ 8
                                        * (v / 256 ^ 6 % 256 + 2 ^ 8 * (v / 256 ^ 7 % 256)))))))
      ≡ v
join_bytes v h = omega arith

-- The bytes of a write.
write_at : (m : Bytes) (a v i : ℕ) → i < 8 → write64 m a v (a + i) ≡ v / 256 ^ i % 256
write_at m a v i h =
    let e : a + i - a ≡ i = omega arith in
    let f : leb a (a + i) ≡ true = ground arith in
    let g : ltb (a + i) (a + 8) ≡ true = ground arith in rw (f, g, e) refl

write_off : (m : Bytes) (a v b : ℕ) → b < a ⊎ a + 8 ≤ b → write64 m a v b ≡ m b
write_off m a v b h = ground arith

read-write_same : (m : Bytes) (a v : ℕ) → v < 2 ^ 64 → read64 (write64 m a v) a ≡ v
read-write_same m a v h =
    let z : a ≡ a + 0 = omega arith in
    let b₀ = ap (write64 m a v) z ∙ write_at m a v 0 (omega arith) in
    let b₁ = write_at m a v 1 (omega arith) in
    let b₂ = write_at m a v 2 (omega arith) in
    let b₃ = write_at m a v 3 (omega arith) in
    let b₄ = write_at m a v 4 (omega arith) in
    let b₅ = write_at m a v 5 (omega arith) in
    let b₆ = write_at m a v 6 (omega arith) in
    let b₇ = write_at m a v 7 (omega arith) in
    omega (arith, b₀, b₁, b₂, b₃, b₄, b₅, b₆, b₇, join_bytes v h)

-- The address of a table, and a number in it.
pub record IsEntry (page i : ℕ) : Type 0 where
  pub page_aligned : page % 2 ^ 12 ≡ 0
  pub in_page : i < 512

pub tables-write64 :
    (m : Bytes) (p i v q j : ℕ)
    → IsEntry p i
    → IsEntry q j
    → v < 2 ^ 64
    → tables (write64 m (p + 8 * i) v) q j ≡ set_entry (tables m) p i v q j
tables-write64 m p i v q j h k l = elim (ℕ_discrete q p) [
  | yes e ↦ elim (ℕ_discrete j i) [
    | yes d ↦
        let t : set_entry (tables m) p i v q j ≡ v = ground arith in
        ap (λ b. read64 (write64 m (p + 8 * i) v) b) (omega arith)
        ∙ read-write_same m (p + 8 * i) v l
        ∙ sym t
    | no n ↦ apart (omega (arith, h, k)) (ground arith)
  ]
  | no n ↦ apart (omega (arith, h, k)) (ground arith)
]
  where
    apart :
        (q + 8 * j + 8 ≤ p + 8 * i) ⊎ (p + 8 * i + 8 ≤ q + 8 * j)
        → set_entry (tables m) p i v q j ≡ tables m q j
        → tables (write64 m (p + 8 * i) v) q j ≡ set_entry (tables m) p i v q j
    apart h e =
        let off = λ (o : ℕ) (l : o < 8). write_off m (p + 8 * i) v (q + 8 * j + o) (omega arith) in
        let z : q + 8 * j ≡ q + 8 * j + 0 = omega arith in
        let z₀ = ap (write64 m (p + 8 * i) v) z ∙ off 0 (omega arith) ∙ ap m (sym z) in
        rw
          (
            z₀,
            off 1 (omega arith),
            off 2 (omega arith),
            off 3 (omega arith),
            off 4 (omega arith),
            off 5 (omega arith),
            off 6 (omega arith),
            off 7 (omega arith),
          )
          (sym e)
