-- ===== src/Hakase/Trampoline/Flags.antt =====
-- The states between the pieces of the trampoline's code, and their flags.
use Prim.Native.Nat.{bit_and, bit_or}
use toshokan.Base.{ℕ, ◌+◌, ◌-◌, ◌*◌, ◌/◌, ◌%◌, ◌^◌, ◌≡◌, ◌≤◌, ◌<◌, some, true, false, arith}
use toshokan.Base.Bits.{flag, bit_of, bit_of-or, bit_of-and}
use toshokan.Layout.{trampoline_addr, page_size, initial_pml4t}
use toshokan.Hakase.PageTables.{k_2mb}
use toshokan.Hakase.PageTables.Walk.{walk}
use toshokan.Hakase.Trampoline.{Processor, Memory, long_mode}
use toshokan.Hakase.Trampoline.Code.{Labels, addr}
use toshokan.Hakase.Trampoline.Bytes.{read, Holds, data32, data64}

-- Real mode in the segment of the trampoline. A processor has NW with CD only.
pub record IsReal (p : Processor) : Type 0 where
  pub at_cs : p.cs ≡ 0x7000
  pub at_base : p.cs_base ≡ trampoline_addr
  pub not_big : p.cs_big ≡ false
  pub not_long : p.cs_long ≡ false
  pub real : flag 0 p.cr0 ≡ false
  pub unpaged : flag 31 p.cr0 ≡ false
  pub uncached : flag 29 p.cr0 ≡ true → flag 30 p.cr0 ≡ true

-- What a startup IPI with vector 0x70 leaves; all other registers and flags are arbitrary.
pub record IsReset (p : Processor) : Type 0 where
  pub at_rip : p.rip ≡ 0
  pub in_real : IsReal p

-- The assembler puts code and data behind `addr`, the three pieces in their order, into the bytes of
-- a binary that fits the page.
pub record IsLaidOut (l : Labels) (size : ℕ) : Type 0 where
  pub size-le : size ≤ page_size
  pub entry16-ge : 16 ≤ l.entry16
  pub entry32-gt : l.entry16 < l.entry32
  pub start-gt : l.entry32 < l.start
  pub start-lt : l.start < size
  pub gdtr32-ge : 16 ≤ l.gdtr32
  pub gdtr32-le : l.gdtr32 + 6 ≤ size
  pub gdt_desc32-ge : 16 ≤ l.gdt_desc32
  pub gdt_desc32-le : l.gdt_desc32 + 24 ≤ size
  pub gdtr64-ge : 16 ≤ l.gdtr64
  pub gdtr64-le : l.gdtr64 + 10 ≤ size
  pub gdt_desc64-ge : 16 ≤ l.gdt_desc64
  pub gdt_desc64-le : l.gdt_desc64 + 48 ≤ size

-- `movl %cr0, %eax; orl $1, %eax`.
abbrev pub with_pe : ℕ → ℕ
with_pe c = bit_or (c % 2 ^ 32 % 2 ^ 32) 1

abbrev pub after16 : Labels → Processor → Processor
after16 l p = record p {
  interrupts = false;
  rax = with_pe p.cr0;
  ds = 0x7000;
  ds_base = trampoline_addr;
  gdt_limit = 31;
  gdt_base = l.gdt_desc32 + trampoline_addr;
  cr0 = with_pe p.cr0 % 2 ^ 32;
  rip = trampoline_addr + l.entry32;
  cs = 0x08;
  cs_base = 0;
  cs_big = true;
  cs_long = false;
}

-- PE is set, and the flags that the checks of `mov` to `%cr0` read are kept.
pub with_pe_flags :
    (p : Processor)
    → IsReal p
    → let c = with_pe p.cr0 % 2 ^ 32 in
      (bit_of 0 c ≡ 1)
      × (bit_of 16 c ≡ bit_of 16 p.cr0)
      × (bit_of 29 c ≡ bit_of 29 p.cr0)
      × (bit_of 30 c ≡ bit_of 30 p.cr0)
      × (bit_of 31 c ≡ 0)
with_pe_flags p v =
    let c = p.cr0 % 2 ^ 32 % 2 ^ 32 in
    let z : bit_of 31 p.cr0 ≡ 0 = ground (arith, v.unpaged) in
    (
      omega (arith, bit_of-or 0 c 1),
      omega (arith, bit_of-or 16 c 1),
      omega (arith, bit_of-or 29 c 1),
      omega (arith, bit_of-or 30 c 1),
      omega (arith, bit_of-or 31 c 1, z),
    )

-- Memory that holds the trampoline with its data and an entry, and tables that map the first 2 MB to
-- themselves.
pub record IsLoaded (l : Labels) (m : Memory) (entry : ℕ) : Type 0 where
  pub are_bytes : (a : ℕ) → m.bytes a < 2 ^ 8
  pub holds32 : Holds m.bytes trampoline_addr (data32 l)
  pub holds64 : Holds m.bytes trampoline_addr (data64 l)
  pub holds_entry : read m.bytes (trampoline_addr + addr) 8 ≡ entry
  pub maps : (a : ℕ) → a < k_2mb → walk m.tables initial_pml4t a ≡ some a

-- Where `run16` ends.
pub record IsProtected (l : Labels) (p : Processor) : Type 0 where
  pub limit : p.gdt_limit ≡ 31
  pub base : p.gdt_base ≡ l.gdt_desc32 + trampoline_addr
  pub code_not_long : p.cs_long ≡ false
  pub protected : flag 0 p.cr0 ≡ true
  pub not_paged : flag 31 p.cr0 ≡ false

abbrev pub with_pae : ℕ → ℕ
with_pae c = bit_or (c % 2 ^ 32 % 2 ^ 32) (2 ^ 4 + 2 ^ 5 + 2 ^ 7)

abbrev pub with_lme : ℕ → ℕ
with_lme e = bit_or (e % 2 ^ 32 % 2 ^ 32) (2 ^ 8)

abbrev pub with_pg : ℕ → ℕ
with_pg c =
    bit_and (bit_or (c % 2 ^ 32 % 2 ^ 32) (2 ^ 31) % 2 ^ 32) (2 ^ 32 - 1 - (2 ^ 30 + 2 ^ 29))

abbrev pub after32 : Labels → Processor → Processor
after32 l p = record p {
  rax = with_pg p.cr0;
  rcx = 0xC000_0080;
  rdx = p.efer / 2 ^ 32;
  rdi = initial_pml4t;
  ds = 0x10;
  ds_base = 0;
  cr3 = initial_pml4t;
  cr4 = with_pae p.cr4 % 2 ^ 32;
  efer = p.efer / 2 ^ 32 * 2 ^ 32 + with_lme p.efer;
  cr0 = with_pg p.cr0 % 2 ^ 32;
  gdt_limit = 47;
  gdt_base = trampoline_addr + l.gdt_desc64;
  rip = trampoline_addr + l.start;
  cs = 0x10;
  cs_base = 0;
  cs_big = false;
  cs_long = true;
}

-- What the switch to long mode leaves of the flags.
pub with_pg_flags :
    (c : ℕ)
    → let c' = with_pg c % 2 ^ 32 in
      (bit_of 0 c' ≡ bit_of 0 c)
      × (bit_of 16 c' ≡ bit_of 16 c)
      × (bit_of 29 c' ≡ 0)
      × (bit_of 30 c' ≡ 0)
      × (bit_of 31 c' ≡ 1)
with_pg_flags c =
    let a = c % 2 ^ 32 % 2 ^ 32 in
    let o = bit_or a (2 ^ 31) % 2 ^ 32 in
    let mask = 2 ^ 32 - 1 - (2 ^ 30 + 2 ^ 29) in
    (
      omega (arith, bit_of-and 0 o mask, bit_of-or 0 a (2 ^ 31)),
      omega (arith, bit_of-and 16 o mask, bit_of-or 16 a (2 ^ 31)),
      omega (arith, bit_of-and 29 o mask, bit_of-or 29 a (2 ^ 31)),
      omega (arith, bit_of-and 30 o mask, bit_of-or 30 a (2 ^ 31)),
      omega (arith, bit_of-and 31 o mask, bit_of-or 31 a (2 ^ 31)),
    )

pub with_pae_flags :
    (c : ℕ)
    → let c' = with_pae c % 2 ^ 32 in (bit_of 4 c' ≡ 1) × (bit_of 5 c' ≡ 1) × (bit_of 7 c' ≡ 1)
with_pae_flags c =
    let a = c % 2 ^ 32 % 2 ^ 32 in
    (
      omega (arith, bit_of-or 4 a 0xB0),
      omega (arith, bit_of-or 5 a 0xB0),
      omega (arith, bit_of-or 7 a 0xB0),
    )

pub with_lme_flag : (e : ℕ) → bit_of 8 (e / 2 ^ 32 * 2 ^ 32 + with_lme e) ≡ 1
with_lme_flag e = omega (arith, bit_of-or 8 (e % 2 ^ 32 % 2 ^ 32) (2 ^ 8))

-- Where `run32` ends.
pub record IsLong (l : Labels) (p : Processor) : Type 0 where
  pub limit : p.gdt_limit ≡ 47
  pub base : p.gdt_base ≡ trampoline_addr + l.gdt_desc64
  pub protected : flag 0 p.cr0 ≡ true
  pub paged : flag 31 p.cr0 ≡ true
  pub in_long_mode : long_mode p ≡ true
  pub at_cr3 : p.cr3 ≡ initial_pml4t

abbrev pub after64 : ℕ → Processor → Processor
after64 entry p = record p {
  rax = trampoline_addr + addr;
  ds = 0x18;
  ds_base = 0;
  ss = 0x18;
  rip = entry;
}
