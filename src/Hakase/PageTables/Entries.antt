-- ===== src/Hakase/PageTables/Entries.antt =====
-- The entries that InitPageTables leaves in each table.
use Prim.Native.Nat.{bit_or}
use toshokan.Base.{
  ℕ, zero, suc, ◌+◌, ◌*◌, ◌/◌, ◌%◌, ◌≡◌, ◌<◌, arith, refl, leb, ltb, lt→ltb, ◌&&◌, ◌==◌,
  if◌then◌else◌,
}
use toshokan.Layout.{deploy_phys_addr_start, deploy_phys_addr_end}
use toshokan.Hakase.PageTables.{
  PhysMem, set_entry, Tables, map_huge, map_fuel, upper_entries, init_page_tables, k_1gb, k_2mb,
  huge_page_table_entry_flags,
}

abbrev pub nth_page : ℕ → ℕ
nth_page i = deploy_phys_addr_start + i * k_2mb

-- The loop started at page `i`: it fills the entries from `i` to 511 of `pd2`, and no other.
map_huge-entries :
    (f i rem : ℕ) (pd2 : ℕ) (m : PhysMem) (b k : ℕ)
    → i + rem ≡ 512
    → rem < f
    → map_huge f pd2 (nth_page i) m b k ≡ (
        if b == pd2 && (leb i k && ltb k 512)
        then bit_or (nth_page k) huge_page_table_entry_flags
        else m b k)
unfolding map_huge
map_huge-entries zero i rem pd2 m b k e h = absurd (omega arith)
map_huge-entries (suc f) i zero pd2 m b k e h = ground arith
map_huge-entries (suc f) i (suc rem) pd2 m b k e h =
    rw
      (
        lt→ltb (nth_page i) deploy_phys_addr_end (omega arith),
        next,
        slot,
        map_huge-entries f (i + 1) rem pd2
            (set_entry m pd2 i (bit_or (nth_page i) huge_page_table_entry_flags)) b k (omega arith)
            (omega arith),
      )
      (ground arith)
  where
    next : nth_page i + k_2mb ≡ nth_page (i + 1)
    next = omega arith

    slot : nth_page i % k_1gb / k_2mb ≡ i
    slot = omega arith

-- Every entry of every page after InitPageTables: the four in the upper tables, 512 pages of 2 MB
-- in `pd2`, and all others as they were.
module _ (t : Tables) (m : PhysMem) where
  pub init_entries :
      (b k : ℕ)
      → init_page_tables t m b k ≡ (
          if b == t.pd2 && ltb k 512
          then bit_or (nth_page k) huge_page_table_entry_flags
          else upper_entries t m b k)
  unfolding init_page_tables
  init_entries b k =
      rw (map_huge-entries map_fuel 0 512 t.pd2 (upper_entries t m) b k refl (omega arith))
        (ground arith)
