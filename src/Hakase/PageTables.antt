-- ===== src/Hakase/PageTables.antt =====
-- Loader16::InitPageTables of hakase/loader16.cc. A page table is a page of 512 words, and memory
-- is indexed by the address of a page and an entry's number in it. The addresses of the three
-- tables in the friend binary come from the linker, and are arguments.
pub mod Walk
pub mod Leads
pub mod Entries
pub mod Identity
mod Tests
use Prim.Native.Nat.{bit_or}
use toshokan.Base.{ℕ, zero, suc, ◌+◌, ◌*◌, ◌/◌, ◌%◌, ◌≡◌, Bool, ◌&&◌, ltb, ◌==◌, if◌then◌else◌}
use toshokan.Layout.{deploy_phys_addr_start, deploy_phys_addr_end, trampoline_addr}

abbrev pub k_256tb : ℕ
k_256tb = 0x1_0000_0000_0000

abbrev pub k_512gb : ℕ
k_512gb = 0x80_0000_0000

abbrev pub k_1gb : ℕ
k_1gb = 0x4000_0000

abbrev pub k_2mb : ℕ
k_2mb = 0x20_0000

-- Present, writable, for user mode; and, for a page of 2 MB, bit 7.
abbrev pub page_table_entry_flags : ℕ
page_table_entry_flags = 0x7

abbrev pub huge_page_table_entry_flags : ℕ
huge_page_table_entry_flags = 0x87

-- Entry number, in the page at an address.
abbrev pub PhysMem : Type 0
PhysMem = ℕ → ℕ → ℕ

abbrev pub set_entry : PhysMem → ℕ → ℕ → ℕ → PhysMem
set_entry m page i v b j = if b == page && j == i then v else m b j

-- `__toshokan_pdpt`, `__toshokan_pd1`, `__toshokan_pd2`, and the page behind the trampoline code.
pub record Tables : Type 0 where
  pub pml4t : ℕ
  pub pdpt : ℕ
  pub pd1 : ℕ
  pub pd2 : ℕ

-- The loop over `addr`, with fuel.
pub map_huge : ℕ → ℕ → ℕ → PhysMem → PhysMem
map_huge zero pd2 addr m = m
map_huge (suc f) pd2 addr m =
    let entry = bit_or addr huge_page_table_entry_flags in
    let rest = map_huge f pd2 (addr + k_2mb) (set_entry m pd2 (addr % k_1gb / k_2mb) entry) in
    if ltb addr deploy_phys_addr_end then rest else m

-- One round for each of the 512 pages, and the last test.
abbrev pub map_fuel : ℕ
map_fuel = 513

-- `trampoline_aligned_addr`.
abbrev pub trampoline_aligned_addr : ℕ
trampoline_aligned_addr = trampoline_addr / k_2mb * k_2mb

pub upper_entries : Tables → PhysMem → PhysMem
upper_entries t m =
    let m₁ =
      set_entry m t.pml4t (deploy_phys_addr_start % k_256tb / k_512gb)
        (bit_or t.pdpt page_table_entry_flags) in
    let m₂ =
      set_entry m₁ t.pdpt (trampoline_addr % k_512gb / k_1gb)
        (bit_or t.pd1 page_table_entry_flags) in
    let m₃ =
      set_entry m₂ t.pdpt (deploy_phys_addr_start % k_512gb / k_1gb)
        (bit_or t.pd2 page_table_entry_flags) in
    set_entry m₃ t.pd1 (trampoline_aligned_addr % k_1gb / k_2mb)
      (bit_or trampoline_aligned_addr huge_page_table_entry_flags)

pub init_page_tables : Tables → PhysMem → PhysMem
unfolding upper_entries
init_page_tables t m = map_huge map_fuel t.pd2 deploy_phys_addr_start (upper_entries t m)
