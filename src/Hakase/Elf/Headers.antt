-- ===== src/Hakase/Elf/Headers.antt =====
-- The wrappers Ehdr, Phdr and Shdr of hakase/elf_loader.h, which read the fields of the ELF
-- headers in place.
use Prim.Native.Nat.{bit_and}
use toshokan.Base.{
  ℕ, ◌+◌, ◌-◌, ◌*◌, ◌%◌, ◌^◌, Bool, ◌&&◌, Option, none, some, not, ltb, ◌==◌, if◌then◌else◌,
}
use toshokan.Base.Words.{add_u64}

abbrev pub Image : Type 0
Image = ℕ → ℕ

-- Little-endian words at an offset.
abbrev pub u16_at : Image → ℕ → ℕ
u16_at img o = img o + 2 ^ 8 * img (o + 1)

abbrev pub u32_at : Image → ℕ → ℕ
u32_at img o = u16_at img o + 2 ^ 16 * u16_at img (o + 2)

abbrev pub u64_at : Image → ℕ → ℕ
u64_at img o = u32_at img o + 2 ^ 32 * u32_at img (o + 4)

-- Elf64_Ehdr.
abbrev pub e_type : Image → ℕ
e_type img = u16_at img 16

abbrev pub e_entry : Image → ℕ
e_entry img = u64_at img 24

abbrev pub e_phoff : Image → ℕ
e_phoff img = u64_at img 32

abbrev pub e_shoff : Image → ℕ
e_shoff img = u64_at img 40

abbrev pub e_phentsize : Image → ℕ
e_phentsize img = u16_at img 54

abbrev pub e_phnum : Image → ℕ
e_phnum img = u16_at img 56

abbrev pub e_shentsize : Image → ℕ
e_shentsize img = u16_at img 58

abbrev pub e_shnum : Image → ℕ
e_shnum img = u16_at img 60

unfoldable pub is_elf : Image → Bool
is_elf img = img 0 == 0x7f && img 1 == b'E' && img 2 == b'L' && img 3 == b'F'

unfoldable pub is_elf64 : Image → Bool
is_elf64 img = img 4 == 2

unfoldable pub is_osabi_sysv : Image → Bool
is_osabi_sysv img = img 7 == 0

unfoldable pub is_osabi_gnu : Image → Bool
is_osabi_gnu img = img 7 == 3

unfoldable pub is_executable : Image → Bool
is_executable img = e_type img == 2

unfoldable pub get_entry : Image → ℕ
get_entry img = e_entry img

-- `int * int`, widened to 64 bits. The overflow, undefined in C, wraps as the compilers have it.
abbrev pub int_product : ℕ → ℕ → ℕ
int_product a b = let w = a * b % 2 ^ 32 in if ltb w (2 ^ 31) then w else w + 2 ^ 64 - 2 ^ 32

unfoldable pub get_phdr_offset : Image → ℕ → ℕ
get_phdr_offset img index =
    if ltb index (e_phnum img)
    then add_u64 (e_phoff img) (int_product (e_phentsize img) index)
    else 0

unfoldable pub get_shdr_offset : Image → ℕ → ℕ
get_shdr_offset img index =
    if ltb index (e_shnum img)
    then add_u64 (e_shoff img) (int_product (e_shentsize img) index)
    else 0

-- `CreatePhdr` and `CreateShdr`: the offset of the header, or a null pointer.
unfoldable pub create_hdr : ℕ → Option ℕ
create_hdr offset = if offset == 0 then none else some offset

pub record PhdrInfo : Type 0 where
  pub vaddr : ℕ
  pub file_offset : ℕ
  pub size : ℕ

-- Elf64_Phdr at `p`: a segment of type PT_LOAD.
unfoldable pub get_info_if_load : Image → ℕ → Option PhdrInfo
get_info_if_load img p =
    if u32_at img p == 1
    then some (record {
      vaddr = u64_at img (p + 16);
      file_offset = u64_at img (p + 8);
      size = u64_at img (p + 32);
    })
    else none

pub record SectionInfo : Type 0 where
  pub vaddr : ℕ
  pub size : ℕ

abbrev section_info : Image → ℕ → SectionInfo
section_info img p = record { vaddr = u64_at img (p + 16); size = u64_at img (p + 32) }

-- Elf64_Shdr at `p`: a section of type SHT_NOBITS with SHF_ALLOC.
unfoldable pub get_info_if_bss : Image → ℕ → Option SectionInfo
get_info_if_bss img p =
    if u32_at img (p + 4) == 8 && not (bit_and (u64_at img (p + 8)) 2 == 0)
    then some (section_info img p)
    else none

-- A section with SHF_EXECINSTR.
unfoldable pub get_info_if_exec : Image → ℕ → Option SectionInfo
get_info_if_exec img p =
    if not (bit_and (u64_at img (p + 8)) 4 == 0) then some (section_info img p) else none
