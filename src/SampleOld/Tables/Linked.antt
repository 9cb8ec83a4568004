-- ===== src/SampleOld/Tables/Linked.antt =====
-- The tables that the samples set up: what they map, whatever pt1 then holds.
use toshokan.Base.{
  ℕ, ◌+◌, ◌*◌, ◌/◌, ◌%◌, ◌^◌, ◌≡◌, ◌≤◌, ◌<◌, Option, none, some, refl, ◌&&◌, ◌==◌, leb, ltb,
  if◌then◌else◌, ap, ◌∙◌, arith,
}
use toshokan.Hakase.PageTables.Walk.{walk, present, table_of}
use toshokan.Hakase.PageTables.Leads.{IsPage, walk_to_page, walk_to_huge}
use toshokan.Tutorial.Cpu.Region.{add_bit}
use toshokan.SampleOld.Machine.{Bytes, tables, phys, write64, with_flags, with_huge_flags}
use toshokan.SampleOld.Common.{set_bytes}
use toshokan.SampleOld.Tables.{pml4t, pdpt, pd1, pd2, pt1, fill_entries}
use toshokan.SampleOld.Tables.Entries.{IsEntry, tables-write64}
use toshokan.SampleOld.Tables.Loops.{tables-clear, tables-fill, clear_below, fill_below}

pub with_flags_lem : (a : ℕ) → IsPage a → with_flags a ≡ a + 7
with_flags_lem a h =
    let b₁ = add_bit a 0 1 h (omega arith) (omega arith) in
    let b₂ = add_bit a 1 2 h (omega arith) (omega arith) in
    let b₄ = add_bit a 3 4 h (omega arith) (omega arith) in
    let e : a ≡ a + 0 = omega arith in ap (λ (t : ℕ). with_flags t) e ∙ rw (b₁, b₂, b₄) refl

pub with_huge_flags_lem : (a : ℕ) → IsPage a → with_huge_flags a ≡ a + 0x87
with_huge_flags_lem a h = rw (with_flags_lem a h) (add_bit a 7 0x80 h (omega arith) (omega arith))

pub pages_small : (k : ℕ) → k < 512 → with_flags (0x8000_0000 + 0x1000 * k) < 2 ^ 64
pages_small k h =
    omega (arith, with_flags_lem (0x8000_0000 + 0x1000 * k) (omega arith, omega arith))

-- The entries that lead through the tables, in memory of which pt1 is left open.
pub record IsLinked (m : Bytes) : Type 0 where
  pub to_pdpt : tables m (phys pml4t) 0 ≡ phys pdpt + 7
  pub to_pd1 : tables m (phys pdpt) 0 ≡ phys pd1 + 7
  pub to_pd2 : tables m (phys pdpt) 3 ≡ phys pd2 + 7
  pub to_pt1 : tables m (phys pd2) 0 ≡ phys pt1 + 7
  pub first_gb : (j : ℕ) → j < 512 → tables m (phys pd1) j ≡ 0x8000_0000 + 0x20_0000 * j + 0x87

-- Under such tables the first GB of addresses lies where the samples take it to lie.
pub walk-first_gb :
    (m : Bytes)
    → IsLinked m
    → (va : ℕ) → va < 2 ^ 30
    → walk (tables m) (phys pml4t) va ≡ some (phys va)
walk-first_gb m l va h =
    let a : va / 2 ^ 39 % 512 ≡ 0 = omega arith in
    let b : va / 2 ^ 30 % 512 ≡ 0 = omega arith in
    let d : va / 2 ^ 21 % 512 < 512 = omega arith in
    let e : 0x8000_0000 + 0x20_0000 * (va / 2 ^ 21 % 512) + va % 2 ^ 21 ≡ phys va = omega arith in
    walk_to_huge (tables m) {pdpt = phys pdpt} {pd = phys pd1}
      {page = 0x8000_0000 + 0x20_0000 * (va / 2 ^ 21 % 512)} va (rw a l.to_pdpt)
      (omega arith, omega arith) (rw b l.to_pd1) (omega arith, omega arith) (l.first_gb _ d)
      (omega arith) (omega arith)
    ∙ ap some e

-- What entry `i` of pt1 says about the byte `o` of its page.
abbrev pub window : Bytes → ℕ → ℕ → Option ℕ
window m i o = let e = tables m (phys pt1) i in if present e then some (table_of e + o) else none

-- From 0xC0000000 on, 2 MB are what pt1 says.
pub walk-window :
    (m : Bytes)
    → IsLinked m
    → (i o : ℕ) → i < 512
    → o < 2 ^ 12
    → walk (tables m) (phys pml4t) (0xC000_0000 + i * 2 ^ 12 + o) ≡ window m i o
walk-window m l i o h k =
    let va = 0xC000_0000 + i * 2 ^ 12 + o in
    let a : va / 2 ^ 39 % 512 ≡ 0 = omega arith in
    let b : va / 2 ^ 30 % 512 ≡ 3 = omega arith in
    let d : va / 2 ^ 21 % 512 ≡ 0 = omega arith in
    let e : va / 2 ^ 12 % 512 ≡ i = omega arith in
    let f : va % 2 ^ 12 ≡ o = omega arith in
    walk_to_page (tables m) {pdpt = phys pdpt} {pd = phys pd2} {pt = phys pt1} va (rw a l.to_pdpt)
      (omega arith, omega arith) (rw b l.to_pd2) (omega arith, omega arith) (rw d l.to_pt1)
      (omega arith, omega arith)
    ∙ rw (e, f) refl

-- An entry of pt1 is none of those.
pub write-IsLinked :
    (m : Bytes) (i v : ℕ)
    → i < 512
    → v < 2 ^ 64
    → IsLinked m
    → IsLinked (write64 m (phys pt1 + 8 * i) v)
write-IsLinked m i v h k l =
    let at = λ (q j : ℕ) (e : IsEntry q j).
      tables-write64 m (phys pt1) i v q j (record { page_aligned = refl; in_page = h }) e k in
    record {
      to_pdpt =
          at (phys pml4t) 0 (record { page_aligned = refl; in_page = omega arith }) ∙ l.to_pdpt;
      to_pd1 = at (phys pdpt) 0 (record { page_aligned = refl; in_page = omega arith }) ∙ l.to_pd1;
      to_pd2 = at (phys pdpt) 3 (record { page_aligned = refl; in_page = omega arith }) ∙ l.to_pd2;
      to_pt1 = at (phys pd2) 0 (record { page_aligned = refl; in_page = omega arith }) ∙ l.to_pt1;
      first_gb =
          λ j p. at (phys pd1) j (record { page_aligned = refl; in_page = p }) ∙ l.first_gb j p;
    }

pub fill-IsLinked :
    (m : Bytes)
    → IsLinked m
    → IsLinked (fill_entries 512 0 (phys pt1) 0x8000_0000 0x1000 with_flags m)
fill-IsLinked m l =
    let at = λ (q j : ℕ) (e : IsEntry q j).
      tables-fill 512 0 (phys pt1) 0x8000_0000 0x1000 with_flags m q j refl (omega arith) e
        pages_small in
    record {
      to_pdpt =
          at (phys pml4t) 0 (record { page_aligned = refl; in_page = omega arith }) ∙ l.to_pdpt;
      to_pd1 = at (phys pdpt) 0 (record { page_aligned = refl; in_page = omega arith }) ∙ l.to_pd1;
      to_pd2 = at (phys pdpt) 3 (record { page_aligned = refl; in_page = omega arith }) ∙ l.to_pd2;
      to_pt1 = at (phys pd2) 0 (record { page_aligned = refl; in_page = omega arith }) ∙ l.to_pt1;
      first_gb =
          λ j p. at (phys pd1) j (record { page_aligned = refl; in_page = p }) ∙ l.first_gb j p;
    }

-- Memory after the part that the samples share.
abbrev pub shared : Bytes → Bytes
shared m =
    let m₀ = set_bytes 0x5000 0 (phys pml4t) 0 m in
    let m₁ = write64 m₀ (phys pml4t) (with_flags (phys pdpt)) in
    let m₂ = write64 m₁ (phys pdpt) (with_flags (phys pd1)) in
    let m₃ = write64 m₂ (phys pdpt + 8 * 3) (with_flags (phys pd2)) in
    let m₄ = write64 m₃ (phys pd2) (with_flags (phys pt1)) in
    fill_entries 512 0 (phys pd1) 0x8000_0000 0x20_0000 with_huge_flags m₄

module _ (m : Bytes) where
  entries :
      (q j : ℕ)
      → IsEntry q j
      → phys pml4t ≤ q
      → q + 2 ^ 12 ≤ phys pml4t + 0x5000
      → tables (shared m) q j ≡ (
          if q == phys pd1 && (leb 0 j && ltb j 512)
          then with_huge_flags (0x8000_0000 + 0x20_0000 * j)
          else if q == phys pd2 && j == 0
          then with_flags (phys pt1)
          else if q == phys pdpt && j == 3
          then with_flags (phys pd2)
          else if q == phys pdpt && j == 0
          then with_flags (phys pd1)
          else if q == phys pml4t && j == 0
          then with_flags (phys pdpt)
          else 0)
  entries q j e h k =
      let m₀ = set_bytes 0x5000 0 (phys pml4t) 0 m in
      let m₁ = write64 m₀ (phys pml4t) (with_flags (phys pdpt)) in
      let m₂ = write64 m₁ (phys pdpt) (with_flags (phys pd1)) in
      let m₃ = write64 m₂ (phys pdpt + 8 * 3) (with_flags (phys pd2)) in
      let at =
        λ (i : ℕ) (l : i < 512) (p : ℕ) (a : p % 2 ^ 12 ≡ 0) (v : ℕ) (w : v < 2 ^ 64) (m : Bytes).
          tables-write64 m p i v q j (record { page_aligned = a; in_page = l }) e w in
      let b₁ = at 0 (omega arith) (phys pml4t) refl (with_flags (phys pdpt)) (omega arith) m₀ in
      let b₂ = at 0 (omega arith) (phys pdpt) refl (with_flags (phys pd1)) (omega arith) m₁ in
      let b₃ = at 3 (omega arith) (phys pdpt) refl (with_flags (phys pd2)) (omega arith) m₂ in
      let b₄ = at 0 (omega arith) (phys pd2) refl (with_flags (phys pt1)) (omega arith) m₃ in
      tables-fill 512 0 (phys pd1) 0x8000_0000 0x20_0000 with_huge_flags _ q j refl (omega arith) e
        huge_small
      ∙ rw (b₄, b₃, b₂, b₁, tables-clear 0x5000 (phys pml4t) m q j h k e.in_page) refl
    where
      huge_small : (k : ℕ) → k < 512 → with_huge_flags (0x8000_0000 + 0x20_0000 * k) < 2 ^ 64
      huge_small k h =
          omega
            (arith, with_huge_flags_lem (0x8000_0000 + 0x20_0000 * k) (omega arith, omega arith))

  pub shared-IsLinked : IsLinked (shared m)
  shared-IsLinked = record {
    to_pdpt =
        entries (phys pml4t) 0 (record { page_aligned = refl; in_page = omega arith }) (omega arith)
          (omega arith);
    to_pd1 =
        entries (phys pdpt) 0 (record { page_aligned = refl; in_page = omega arith }) (omega arith)
          (omega arith);
    to_pd2 =
        entries (phys pdpt) 3 (record { page_aligned = refl; in_page = omega arith }) (omega arith)
          (omega arith);
    to_pt1 =
        entries (phys pd2) 0 (record { page_aligned = refl; in_page = omega arith }) (omega arith)
          (omega arith);
    first_gb = λ j h.
        entries (phys pd1) j (record { page_aligned = refl; in_page = h }) (omega arith)
          (omega arith)
        ∙ ground
            (arith, with_huge_flags_lem (0x8000_0000 + 0x20_0000 * j) (omega arith, omega arith));
  }

  -- And pt1 is empty.
  pub shared-pt1 : (j : ℕ) → j < 512 → tables (shared m) (phys pt1) j ≡ 0
  shared-pt1 j h =
      entries (phys pt1) j (record { page_aligned = refl; in_page = h }) (omega arith) (omega arith)

  pub shared_below : (b : ℕ) → b < phys pml4t → shared m b ≡ m b
  shared_below b h =
      fill_below 512 0 (phys pd1) 0x8000_0000 0x20_0000 with_huge_flags _ b (omega arith)
      ∙ ground (arith, clear_below 0x5000 (phys pml4t) m b h)
