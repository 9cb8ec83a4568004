-- ===== src/Hakase/Elf/Deploy.antt =====
-- ElfLoader::CheckMemoryRegion and ElfLoader::Deploy.
pub mod Region
pub mod Listed
pub mod Scan
pub mod Loaded
pub mod Entries
pub mod Contents
pub mod Accepts
mod Tests
use toshokan.Base.{
  ℕ, zero, suc, ◌+◌, ◌-◌, ◌≡◌, Bool, true, false, not, ◌&&◌, ◌||◌, Option, none, some, List, [],
  ◌∷◌, ltb, leb, if◌then◌else◌,
}
use toshokan.Base.Words.{add_u64}
use toshokan.Layout.{deploy_phys_addr_start, deploy_phys_addr_end}
use toshokan.Hakase.Elf.Headers.{
  Image, is_elf, is_elf64, is_osabi_sysv, is_osabi_gnu, is_executable, get_phdr_offset,
  get_shdr_offset, create_hdr, PhdrInfo, get_info_if_load, SectionInfo, get_info_if_bss,
}

-- Bytes by address.
abbrev pub Mem : Type 0
Mem = ℕ → ℕ

pub check_memory_region : ℕ → ℕ → Bool
check_memory_region vaddr size =
    not (ltb vaddr deploy_phys_addr_start || ltb deploy_phys_addr_end (add_u64 vaddr size))

-- What `memcpy` or `memset` is to write: `size` bytes from `vaddr` on, by their distance from it.
pub record Fill : Type 0 where
  pub vaddr : ℕ
  pub size : ℕ
  pub byte : ℕ → ℕ

abbrev pub covers : Fill → ℕ → Bool
covers w a = leb w.vaddr a && ltb a (w.vaddr + w.size)

abbrev pub fill : Fill → Mem → Mem
fill w m a = if covers w a then w.byte (a - w.vaddr) else m a

abbrev pub copy_of : Image → PhdrInfo → Fill
copy_of img i = record { vaddr = i.vaddr; size = i.size; byte = λ k. img (add_u64 i.file_offset k) }

abbrev pub zeros_of : SectionInfo → Fill
zeros_of i = record { vaddr = i.vaddr; size = i.size; byte = λ _. 0 }

-- What one round of the first loop finds: nothing (the loop ends), a header of no interest, or
-- bytes to copy.
unfoldable pub phdr_fill : Image → ℕ → Option (Option Fill)
phdr_fill img i = elim (create_hdr (get_phdr_offset img i)) [
  | none ↦ none
  | some p ↦ elim (get_info_if_load img p) [
    | none ↦ some none
    | some info ↦ some (some (copy_of img info))
  ]
]

-- The same of the second loop, with bytes to clear.
unfoldable pub shdr_fill : Image → ℕ → Option (Option Fill)
shdr_fill img i = elim (create_hdr (get_shdr_offset img i)) [
  | none ↦ none
  | some p ↦ elim (get_info_if_bss img p) [
    | none ↦ some none
    | some info ↦ some (some (zeros_of info))
  ]
]

-- `for (int i = 0;; i++)`, from `i` on, with fuel: whether it came to its end, and the memory.
unfoldable pub scan : (ℕ → Option (Option Fill)) → ℕ → ℕ → Mem → Option (Bool × Mem)
scan entry zero i m = none
scan entry (suc f) i m = elim (entry i) [
  | none ↦ some (true, m)
  | some none ↦ scan entry f (i + 1) m
  | some (some w) ↦ elim (check_memory_region w.vaddr w.size) [
    | true ↦ scan entry f (i + 1) (fill w m)
    | false ↦ some (false, m)
  ]
]

-- More than the number of entries, which is a 16-bit field.
abbrev pub scan_fuel : ℕ
scan_fuel = 0x1_0001

unfoldable pub is_loadable : Image → Bool
is_loadable img =
    is_elf img && is_elf64 img && (is_osabi_sysv img || is_osabi_gnu img) && is_executable img

-- `Deploy`: its result, and the memory of the process.
unfoldable pub deploy : Image → Mem → Option (Bool × Mem)
deploy img m =
    if is_loadable img
    then (elim (scan (phdr_fill img) scan_fuel 0 m) [
      | none ↦ none
      | some (false, m') ↦ some (false, m')
      | some (true, m') ↦ scan (shdr_fill img) scan_fuel 0 m'
    ])
    else some (false, m)
