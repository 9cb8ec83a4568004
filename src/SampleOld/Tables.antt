-- ===== src/SampleOld/Tables.antt =====
-- The samples of sample_old/paging that set up tables of their own and lead the page tables of
-- 0xC0000000 through them: sample_old/paging/001 to 014, 031 to 035 and 100.
pub mod Entries
pub mod Loops
pub mod Linked
pub mod Windows
pub mod Programs
use Prim.Native.Nat.{bit_or}
use toshokan.Base.{
  ℕ, zero, suc, ◌+◌, ◌*◌, ◌/◌, ◌%◌, ◌^◌, List, [], ◌∷◌, Option, none, some, leb, ltb, ◌&&◌, ◌==◌,
  if◌then◌else◌,
}
use toshokan.SampleOld.Machine.{
  System, Step, ◌>>◌, Bytes, Message, put_char, put_value, store, write64, phys, load_cr3,
  with_flags, with_huge_flags, locate, keep,
}
use toshokan.SampleOld.Common.{memset, send_chars}

abbrev pub hello : List ℕ
hello = 104 ∷ 101 ∷ 108 ∷ 108 ∷ 111 ∷ 33 ∷ []

abbrev pub bye : List ℕ
bye = 98 ∷ 121 ∷ 101 ∷ 33 ∷ []

abbrev pub booted : List ℕ
booted = 98 ∷ 111 ∷ 111 ∷ 116 ∷ 101 ∷ 100 ∷ []

abbrev pub pml4t : ℕ
pml4t = 0x31_0000

abbrev pub pdpt : ℕ
pdpt = 0x31_1000

abbrev pub pd1 : ℕ
pd1 = 0x31_2000

abbrev pub pd2 : ℕ
pd2 = 0x31_3000

abbrev pub pt1 : ℕ
pt1 = 0x31_4000

abbrev pub pt2 : ℕ
pt2 = 0x31_5000

-- `table[i] = (start + size * i) | flags`, from `i` on for `n` entries.
pub fill_entries : ℕ → ℕ → ℕ → ℕ → ℕ → (ℕ → ℕ) → Bytes → Bytes
fill_entries zero i table start size flags m = m
fill_entries (suc n) i table start size flags m =
    fill_entries n (i + 1) table start size flags
      (write64 m (table + 8 * i) (flags (start + size * i)))

abbrev pub fill : ℕ → ℕ → ℕ → ℕ → (ℕ → ℕ) → Step
fill n table start size flags s =
    some (record s { mem = fill_entries n 0 (phys table) start size flags s.mem })

-- The four entries that lead to the tables.
unfoldable pub link_tables : Step
link_tables = do
  store pml4t 0 (with_flags (phys pdpt))
  store pdpt 0 (with_flags (phys pd1))
  store pdpt 3 (with_flags (phys pd2))
  store pd2 0 (with_flags (phys pt1))

-- The first GB, by pages of 2 MB.
abbrev pub fill_pd1 : Step
fill_pd1 = fill 512 pd1 0x8000_0000 0x20_0000 with_huge_flags

-- `*((int *)va) = 0`, from 1 GB on: a byte at a time of the 4 that lie in one page.
pub clear_int : ℕ → Step
unfolding locate
clear_int va s = elim (locate s va) [
  | none ↦ none
  | some pa ↦
      some (keep va pa (record s { mem = λ b. if leb pa b && ltb b (pa + 4) then 0 else s.mem b }))
]

-- The samples before 031 have a `puts` of their own, with no lock.
abbrev pub plain_puts : List ℕ → Step
plain_puts str s = some (record s { sent = put_char 10 ∷ send_chars str s.sent })
