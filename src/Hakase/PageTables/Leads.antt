-- ===== src/Hakase/PageTables/Leads.antt =====
-- Which entries lead a page walk where: to a table, to a page of 2 MB, to a page of 4 KB, or to its
-- end.
use Prim.Native.Nat.{bit_or}
use toshokan.Base.{
  ℕ, ◌+◌, ◌*◌, ◌/◌, ◌%◌, ◌^◌, ◌≡◌, ◌<◌, arith, true, false, Option, none, some, if◌then◌else◌,
}
use toshokan.Base.Words.{bit_or-flags}
use toshokan.Hakase.PageTables.{PhysMem}
use toshokan.Hakase.PageTables.Walk.{walk, present, huge, table_of}

-- The address of a page below 2 ^ 52.
abbrev pub IsPage : ℕ → Type 0
IsPage a = (a % 2 ^ 12 ≡ 0) × (a < 2 ^ 52)

-- An entry that leads to a table, or maps a page of 4 KB.
pub table_entry :
    (a : ℕ) → IsPage a → (present (a + 7) ≡ true) × (huge (a + 7) ≡ false) × (table_of (a + 7) ≡ a)
table_entry a h = ground arith

-- An entry that maps a page of 2 MB.
huge_entry :
    (a : ℕ)
    → a % 2 ^ 21 ≡ 0
    → a < 2 ^ 52
    → (present (a + 0x87) ≡ true)
      × (huge (a + 0x87) ≡ true)
      × ((a + 0x87) / 2 ^ 21 % 2 ^ 31 * 2 ^ 21 ≡ a)
huge_entry a h l = ground arith

pub or_flags : (a : ℕ) → IsPage a → bit_or a 7 ≡ a + 7
or_flags a h =
    let e : a ≡ 2 ^ 12 * (a / 2 ^ 12) = omega arith in
    rw e (bit_or-flags 12 (a / 2 ^ 12) 7 (omega arith))

-- The walk through three tables to a page of 2 MB.
pub walk_to_huge :
    (m : PhysMem) {pml4t pdpt pd page : ℕ} (va : ℕ)
    → m pml4t (va / 2 ^ 39 % 512) ≡ pdpt + 7
    → IsPage pdpt
    → m pdpt (va / 2 ^ 30 % 512) ≡ pd + 7
    → IsPage pd
    → m pd (va / 2 ^ 21 % 512) ≡ page + 0x87
    → page % 2 ^ 21 ≡ 0
    → page < 2 ^ 52
    → walk m pml4t va ≡ some (page + va % 2 ^ 21)
unfolding walk
walk_to_huge m {pdpt = p} {pd = d} {page = g} va a pa b pb c ga gl =
    let (p₁, p₂, p₃) = table_entry p pa in
    let (d₁, d₂, d₃) = table_entry d pb in
    let (g₁, g₂, g₃) = huge_entry g ga gl in rw (a, p₁, p₃, b, d₁, d₂, d₃, c, g₁, g₂, g₃)

-- What the entry of the last table says about an address.
abbrev pub page_at : ℕ → ℕ → Option ℕ
page_at e va = if present e then some (table_of e + va % 2 ^ 12) else none

-- The walk through three tables to an entry of the fourth.
pub walk_to_page :
    (m : PhysMem) {pml4t pdpt pd pt : ℕ} (va : ℕ)
    → m pml4t (va / 2 ^ 39 % 512) ≡ pdpt + 7
    → IsPage pdpt
    → m pdpt (va / 2 ^ 30 % 512) ≡ pd + 7
    → IsPage pd
    → m pd (va / 2 ^ 21 % 512) ≡ pt + 7
    → IsPage pt
    → walk m pml4t va ≡ page_at (m pt (va / 2 ^ 12 % 512)) va
unfolding walk
walk_to_page m {pdpt = p} {pd = d} {pt = t} va a pa b pb c pc =
    let (p₁, p₂, p₃) = table_entry p pa in
    let (d₁, d₂, d₃) = table_entry d pb in
    let (t₁, t₂, t₃) = table_entry t pc in rw (a, p₁, p₃, b, d₁, d₂, d₃, c, t₁, t₂, t₃)

-- An entry that is 0 ends the walk.
pub walk_stops_pdpt :
    (m : PhysMem) {pml4t pdpt : ℕ} (va : ℕ)
    → m pml4t (va / 2 ^ 39 % 512) ≡ pdpt + 7
    → IsPage pdpt
    → m pdpt (va / 2 ^ 30 % 512) ≡ 0
    → walk m pml4t va ≡ none
unfolding walk
walk_stops_pdpt m {pdpt = p} va a pa b = let (p₁, p₂, p₃) = table_entry p pa in rw (a, p₁, p₃, b)

pub walk_stops_pd :
    (m : PhysMem) {pml4t pdpt pd : ℕ} (va : ℕ)
    → m pml4t (va / 2 ^ 39 % 512) ≡ pdpt + 7
    → IsPage pdpt
    → m pdpt (va / 2 ^ 30 % 512) ≡ pd + 7
    → IsPage pd
    → m pd (va / 2 ^ 21 % 512) ≡ 0
    → walk m pml4t va ≡ none
unfolding walk
walk_stops_pd m {pdpt = p} {pd = d} va a pa b pb c =
    let (p₁, p₂, p₃) = table_entry p pa in
    let (d₁, d₂, d₃) = table_entry d pb in rw (a, p₁, p₃, b, d₁, d₂, d₃, c)
