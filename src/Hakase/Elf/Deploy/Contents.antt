-- ===== src/Hakase/Elf/Deploy/Contents.antt =====
-- What Deploy leaves in memory, by the entries of the header tables.
use toshokan.Base.{
  ℕ, ◌+◌, ◌-◌, ◌%◌, ◌^◌, ◌≡◌, ◌≤◌, ◌<◌, ◌⊎◌, true, false, none, some, arith, refl, ap, ◌∙◌,
}
use mathlib.Core.Option.{get_or}
use toshokan.Hakase.Elf.Headers.{Image, e_phnum, e_shnum}
use toshokan.Hakase.Elf.Deploy.{Mem, Fill, covers, phdr_fill, shdr_fill, deploy}
use toshokan.Hakase.Elf.Deploy.Listed.{
  HasTables, p_offset, p_vaddr, p_filesz, is_load, sh_addr, sh_size, is_bss, segment, section,
  phdr_fill_lem, shdr_fill_lem,
}
use toshokan.Hakase.Elf.Deploy.Scan.{segments, sections}
use toshokan.Hakase.Elf.Deploy.Entries.{
  Table, last_byte-append, last_byte-Free, last_byte-at, last_byte-zero,
}
use toshokan.Hakase.Elf.Deploy.Loaded.{or_else, last_byte, deploy-last_byte}

-- The addresses from `start` on, `size` of them.
abbrev pub Within : ℕ → ℕ → ℕ → Type 0
Within start size a = (start ≤ a) × (a < start + size)

-- No segment to be loaded covers the address, or no section to be cleared.
abbrev pub NoSegment : Image → ℕ → ℕ → Type 0
NoSegment img first a =
    (i : ℕ)
    → first ≤ i
    → i < e_phnum img
    → is_load img i ≡ true
    → (a < p_vaddr img i) ⊎ (p_vaddr img i + p_filesz img i ≤ a)

abbrev pub NoSection : Image → ℕ → Type 0
NoSection img a =
    (i : ℕ)
    → i < e_shnum img
    → is_bss img i ≡ true
    → (a < sh_addr img i) ⊎ (sh_addr img i + sh_size img i ≤ a)

-- What a binary leaves of memory `m`.
pub record HoldsBinary (img : Image) (m m' : Mem) : Type 0 where
  pub cleared :
      (i a : ℕ)
      → i < e_shnum img
      → is_bss img i ≡ true
      → Within (sh_addr img i) (sh_size img i) a
      → m' a ≡ 0
  pub copied :
      (i a : ℕ)
      → i < e_phnum img
      → is_load img i ≡ true
      → Within (p_vaddr img i) (p_filesz img i) a
      → NoSegment img (i + 1) a
      → NoSection img a
      → m' a ≡ img ((p_offset img i + (a - p_vaddr img i)) % 2 ^ 64)
  pub kept : (a : ℕ) → NoSegment img 0 a → NoSection img a → m' a ≡ m a

outside : (w : Fill) (a : ℕ) → (a < w.vaddr) ⊎ (w.vaddr + w.size ≤ a) → covers w a ≡ false
outside w a o = ground arith

inside : (w : Fill) (a : ℕ) → Within w.vaddr w.size a → covers w a ≡ true
inside w a (lo, hi) = ground arith

module _ (img : Image) (v : HasTables img) where
  pub phnum_small : e_phnum img < 2 ^ 16
  phnum_small = omega (arith, v.are_bytes 56, v.are_bytes 57)

  pub shnum_small : e_shnum img < 2 ^ 16
  shnum_small = omega (arith, v.are_bytes 60, v.are_bytes 61)

  pub phdrs : (a : ℕ) → Table (phdr_fill img) (is_load img) (segment img) a (e_phnum img) 0
  phdrs a k lo hi = phdr_fill_lem img v k (omega arith)

  pub shdrs : (a : ℕ) → Table (shdr_fill img) (is_bss img) (section img) a (e_shnum img) 0
  shdrs a k lo hi = shdr_fill_lem img v k (omega arith)

  no_section : (a : ℕ) → NoSection img a → last_byte (sections img) a ≡ none
  no_section a h =
      last_byte-Free (shdr_fill img) (is_bss img) (section img) a (e_shnum img) 0 (shdrs a)
        (λ k lo hi l. outside (section img k) a (h k (omega arith) l))

  -- The header tables lie behind the start of the file and end below 2 ^ 64, and both are smaller
  -- than 2 ^ 31 bytes. After a success of Deploy, memory holds 0 in every section of type SHT_NOBITS
  -- with SHF_ALLOC; elsewhere, at an address of a segment of type PT_LOAD, the byte of the file that
  -- the last such segment has for it; and what it held before at any other address.
  pub deploy_loads : (m m' : Mem) → deploy img m ≡ some (true, m') → HoldsBinary img m m'
  deploy_loads m m' e = record {
    cleared = λ i a h l c.
        at_byte a
        ∙ rw
            (last_byte-zero (shdr_fill img) (is_bss img) (section img) a (λ k x. refl) (e_shnum img)
              0 i (shdrs a) (omega arith) (omega arith) l (inside (section img i) a c))
            refl;
    copied = λ i a h l c later s.
        at_byte a
        ∙ rw
            (
              no_section a s,
              last_byte-at (phdr_fill img) (is_load img) (segment img) a (e_phnum img) 0 i (phdrs a)
                  (omega arith) (omega arith) l (inside (segment img i) a c)
                  (λ j p q z. outside (segment img j) a (later j (omega arith) (omega arith) z)),
            )
            refl;
    kept = λ a f s.
        at_byte a
        ∙ rw
            (
              no_section a s,
              last_byte-Free (phdr_fill img) (is_load img) (segment img) a (e_phnum img) 0 (phdrs a)
                  (λ k lo hi z. outside (segment img k) a (f k lo (omega arith) z)),
            )
            refl;
  }
    where
      at_byte :
          (a : ℕ)
          → m' a ≡ get_or (or_else (last_byte (sections img) a) (last_byte (segments img) a)) (m a)
      at_byte a =
          deploy-last_byte img m phnum_small shnum_small m' e a
          ∙ ap (λ o. get_or o (m a)) (last_byte-append (segments img) (sections img) a)
