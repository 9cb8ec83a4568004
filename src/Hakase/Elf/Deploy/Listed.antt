-- ===== src/Hakase/Elf/Deploy/Listed.antt =====
-- The entries of the two header tables as the ELF format has them, and how the loops of Deploy find
-- them.
use Prim.Native.Nat.{bit_and}
use toshokan.Base.{
  ℕ, ◌+◌, ◌*◌, ◌%◌, ◌^◌, ◌≡◌, ◌≤◌, ◌<◌, refl, Bool, true, false, ◌&&◌, none, some, ltb, ◌==◌,
  if◌then◌else◌, arith, not, inl, inr, Bool-cases,
}
use native.Mathlib.Nat.{mul-le-mul_left}
use toshokan.Base.Masks.{bit_and-le}
use toshokan.Base.Words.{add_u64}
use toshokan.Base.Bits.{bit_of, bit_of-and}
use toshokan.Hakase.Elf.Headers.{
  Image, u32_at, u64_at, e_phoff, e_shoff, e_phentsize, e_phnum, e_shentsize, e_shnum, int_product,
  get_phdr_offset, get_shdr_offset, create_hdr, get_info_if_load, get_info_if_bss,
}
use toshokan.Hakase.Elf.Deploy.{Fill, phdr_fill, shdr_fill}

-- The tables do not lie at the start of the file, where the file's own header is, and end below
-- 2 ^ 64; both are smaller than 2 ^ 31 bytes.
pub record HasTables (img : Image) : Type 0 where
  pub are_bytes : (o : ℕ) → img o < 2 ^ 8
  pub phdrs_start : 0 < e_phoff img
  pub phdrs_size : e_phentsize img * e_phnum img < 2 ^ 31
  pub phdrs_end : e_phoff img + e_phentsize img * e_phnum img < 2 ^ 64
  pub shdrs_start : 0 < e_shoff img
  pub shdrs_size : e_shentsize img * e_shnum img < 2 ^ 31
  pub shdrs_end : e_shoff img + e_shentsize img * e_shnum img < 2 ^ 64

-- Segment `i`: Elf64_Phdr.
abbrev pub phdr_at : Image → ℕ → ℕ
phdr_at img i = e_phoff img + e_phentsize img * i

abbrev pub p_offset : Image → ℕ → ℕ
p_offset img i = u64_at img (phdr_at img i + 8)

abbrev pub p_vaddr : Image → ℕ → ℕ
p_vaddr img i = u64_at img (phdr_at img i + 16)

abbrev pub p_filesz : Image → ℕ → ℕ
p_filesz img i = u64_at img (phdr_at img i + 32)

-- It is to be loaded: its type is PT_LOAD.
abbrev pub is_load : Image → ℕ → Bool
is_load img i = u32_at img (phdr_at img i) == 1

-- Section `i`: Elf64_Shdr.
abbrev pub shdr_at : Image → ℕ → ℕ
shdr_at img i = e_shoff img + e_shentsize img * i

abbrev pub sh_addr : Image → ℕ → ℕ
sh_addr img i = u64_at img (shdr_at img i + 16)

abbrev pub sh_size : Image → ℕ → ℕ
sh_size img i = u64_at img (shdr_at img i + 32)

-- It is in memory and not in the file: its type is SHT_NOBITS, and bit 1 of its flags, SHF_ALLOC,
-- is set.
abbrev pub is_bss : Image → ℕ → Bool
is_bss img i = u32_at img (shdr_at img i + 4) == 8 && bit_of 1 (u64_at img (shdr_at img i + 8)) == 1

-- Its bytes, when it is loaded.
abbrev pub segment : Image → ℕ → Fill
segment img i = record {
  vaddr = p_vaddr img i;
  size = p_filesz img i;
  byte = λ k. img ((p_offset img i + k) % 2 ^ 64);
}

abbrev pub section : Image → ℕ → Fill
section img i = record { vaddr = sh_addr img i; size = sh_size img i; byte = λ _. 0 }

-- The arithmetic of GetPhdrOffset and GetShdrOffset does not wrap.
offset_lem :
    (start size n i : ℕ)
    → size * n < 2 ^ 31
    → start + size * n < 2 ^ 64
    → i < n
    → add_u64 start (int_product size i) ≡ start + size * i
offset_lem start size n i small end h =
    let le : size * i ≤ size * n = mul-le-mul_left size (omega arith) in
    let fits : ltb (size * i % 2 ^ 32) (2 ^ 31) ≡ true = ground arith in rw fits (omega arith)

abbrev has_alloc : ℕ → Bool
has_alloc flags = not (bit_and flags 2 == 0)

alloc_lem : (flags : ℕ) → has_alloc flags ≡ (bit_of 1 flags == 1)
alloc_lem flags = ground (arith, bit_of-and 0 flags 2, bit_of-and 1 flags 2, bit_and-le flags 2)

module _ (img : Image) (v : HasTables img) (i : ℕ) where
  phdr_offset : i < e_phnum img → get_phdr_offset img i ≡ phdr_at img i
  unfolding get_phdr_offset
  phdr_offset h =
      let inside : ltb i (e_phnum img) ≡ true = ground arith in
      rw (get_phdr_offset, inside)
        (offset_lem (e_phoff img) (e_phentsize img) (e_phnum img) i v.phdrs_size v.phdrs_end h)

  shdr_offset : i < e_shnum img → get_shdr_offset img i ≡ shdr_at img i
  unfolding get_shdr_offset
  shdr_offset h =
      let inside : ltb i (e_shnum img) ≡ true = ground arith in
      rw (get_shdr_offset, inside)
        (offset_lem (e_shoff img) (e_shentsize img) (e_shnum img) i v.shdrs_size v.shdrs_end h)

  pub phdr_fill_lem :
      i < e_phnum img
      → phdr_fill img i ≡ some (if is_load img i then some (segment img i) else none)
  unfolding phdr_fill create_hdr get_info_if_load
  phdr_fill_lem h =
      let there : (phdr_at img i == 0) ≡ false = ground (arith, v.phdrs_start) in
      rw (phdr_fill, phdr_offset h, there)
        (elim (Bool-cases (is_load img i)) [ inl e ↦ rw e refl | inr e ↦ rw e refl ])

  pub shdr_fill_lem :
      i < e_shnum img → shdr_fill img i ≡ some (if is_bss img i then some (section img i) else none)
  unfolding shdr_fill create_hdr get_info_if_bss
  shdr_fill_lem h =
      let there : (shdr_at img i == 0) ≡ false = ground (arith, v.shdrs_start) in
      let alloc = alloc_lem (u64_at img (shdr_at img i + 8)) in
      rw (shdr_fill, shdr_offset h, there, alloc)
        (elim (Bool-cases (is_bss img i)) [ inl e ↦ rw e refl | inr e ↦ rw e refl ])
