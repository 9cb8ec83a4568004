-- ===== src/SampleOld/Apps/Spaces.antt =====
-- The address spaces of sample_old/paging/041 and 042, one for each of the two binaries, and the
-- functions of 042, which write to a page that the friend lends them.
pub mod Stale
use Prim.Native.Nat.{bit_or}
use toshokan.Base.{
  ℕ, zero, suc, ◌+◌, ◌*◌, ◌/◌, ◌%◌, ◌^◌, Option, none, some, ◌==◌, if◌then◌else◌, update,
}
use toshokan.SampleOld.Machine.{
  System, Step, ◌>>◌, store, phys, invlpg, with_flags, with_huge_flags, locate, keep,
}
use toshokan.SampleOld.Tables.{fill}
use toshokan.SampleOld.Apps.{
  Context, Entry, Link, Body, entry1, entry2, entry3, entry4, app1_entry1, app1_entry2, app2_entry3,
  app2_entry4,
}

abbrev pub page_structures_for_app1 : ℕ
page_structures_for_app1 = 0x31_0000

abbrev pub page_structures_for_app2 : ℕ
page_structures_for_app2 = 0x31_4000

abbrev pub pd_for_baremetal : ℕ
pd_for_baremetal = 0x31_8000

-- The four tables of a space are four pages in a row.
unfoldable pub create_pagetable : ℕ → ℕ → ℕ → Step
create_pagetable page_structures pd_for_baremetal page_for_app = do
  store page_structures 0 (with_flags (phys (page_structures + 0x1000)))
  store (page_structures + 0x1000) 0 (with_flags (phys pd_for_baremetal))
  store (page_structures + 0x1000) 3 (with_flags (phys (page_structures + 0x2000)))
  store (page_structures + 0x2000) 0 (with_flags (phys (page_structures + 0x3000)))
  store (page_structures + 0x3000) 0 (with_flags page_for_app)

-- The entries of the first GB, also with bit 8.
abbrev pub with_global_flags : ℕ → ℕ
with_global_flags a = bit_or (with_huge_flags a) 0x100

abbrev pub fill_baremetal : Step
fill_baremetal = fill 512 pd_for_baremetal 0x8000_0000 0x20_0000 with_global_flags

unfoldable pub map_page : ℕ → Step
map_page page_structures = do
  store (page_structures + 0x3000) 1 (with_flags 0x8070_0000)
  invlpg 0xC000_0000

unfoldable pub unmap_page : ℕ → Step
unmap_page page_structures = do store (page_structures + 0x3000) 1 0; invlpg 0xC000_0000

-- `buf[i] = i`, from `i` on for `n` rounds.
unfoldable pub write_buf : ℕ → ℕ → Step
write_buf zero i s = some s
write_buf (suc n) i s = elim (locate s (0xC000_1000 + i)) [
  | none ↦ none
  | some pa ↦ write_buf n (i + 1) (keep (0xC000_1000 + i) pa (record s { mem = update s.mem pa i }))
]

-- `entry1` and `entry4` of 042 write to the page before they do what those of 041 do.
abbrev pub lent_entry1 : ℕ → Context → System → Option (Context × System)
lent_entry1 entry2_address c s = elim (write_buf 10 0 s) [
  | none ↦ none
  | some s' ↦ some (entry1 entry2_address c, s')
]

abbrev pub lent_entry4 : Context → System → Option (Context × System)
lent_entry4 c s = elim (write_buf 10 0 s) [ none ↦ none | some s' ↦ some (entry4 c, s') ]

abbrev pub lent_body : Link → Body
lent_body l app1_entry1 c s = lent_entry1 l.entry2_address c s
lent_body l app1_entry2 c s = some (entry2 c, s)
lent_body l app2_entry3 c s = some (entry3 l.entry4_address c, s)
lent_body l app2_entry4 c s = lent_entry4 c s
