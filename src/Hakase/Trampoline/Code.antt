-- ===== src/Hakase/Trampoline/Code.antt =====
-- hakase/friend_boot16.S: its instructions by label, and its data. The assembler lays the labels out
-- (their offsets are arguments) and translates for the width that `.code16`, `.code32` and `.code64`
-- announce; the instructions stand here by label, and that the bytes of the code encode them is left to
-- the assembler. A processor that comes to a label in another width would read other instructions.
use Prim.Native.Nat.{bit_and, bit_or}
use toshokan.Base.{
  ℕ, zero, suc, ◌+◌, ◌-◌, ◌*◌, ◌/◌, ◌%◌, ◌^◌, Bool, true, false, List, [], ◌∷◌, Option, none, some,
  leb, ◌&&◌, ◌==◌, if◌then◌else◌,
}
use toshokan.Base.Options.{◌>>=◌}
use toshokan.Layout.{trampoline_addr, initial_pml4t}
use toshokan.Hakase.Trampoline.{
  Processor, Memory, Width, bits16, bits32, bits64, width, physical, load_bytes, far_jump, to_ds,
  to_ss, to_cr0, to_cr4, read_msr, write_msr,
}

-- Operands are in the names in the order of the source, `movl %cr0, %eax` from `%cr0`.
pub data Instruction : Type 0 where
  cli rdmsr wrmsr : Instruction
  jmp : ℕ → Instruction
  ljmp : ℕ → ℕ → Instruction
  lgdtl : ℕ → Instruction
  movw_cs_ax movw_ax_ds movw_ax_ss : Instruction
  movl_cr0_eax movl_eax_cr0 movl_cr4_eax movl_eax_cr4 movl_edi_cr3 : Instruction
  movw_ax movl_edi movl_ecx movq_rax : ℕ → Instruction
  orl_eax andl_eax : ℕ → Instruction
  jmpq_rax : Instruction

-- A move of 16 bits keeps the rest of the register, one of 32 bits clears it.
abbrev pub with_low16 : ℕ → ℕ → ℕ
with_low16 r v = r / 2 ^ 16 * 2 ^ 16 + v % 2 ^ 16

unfoldable pub step : Instruction → Memory → Processor → Option Processor
unfolding load_bytes far_jump to_ds to_ss to_cr0 to_cr4 read_msr write_msr
step cli m p = some (record p { interrupts = false })
step rdmsr m p = read_msr p
step wrmsr m p = write_msr p
step (jmp offset) m p = some (record p { rip = offset })
step (ljmp sel offset) m p = far_jump sel offset m p
step (lgdtl a) m p = do
  limit ← load_bytes m p (p.ds_base + a) 2
  base ← load_bytes m p (p.ds_base + a + 2) 4
  some (record p { gdt_limit = limit; gdt_base = base })
step movw_cs_ax m p = some (record p { rax = with_low16 p.rax p.cs })
step movw_ax_ds m p = to_ds (p.rax % 2 ^ 16) m p
step movw_ax_ss m p = to_ss (p.rax % 2 ^ 16) m p
step movl_cr0_eax m p = some (record p { rax = p.cr0 % 2 ^ 32 })
step movl_eax_cr0 m p = to_cr0 (p.rax % 2 ^ 32) p
step movl_cr4_eax m p = some (record p { rax = p.cr4 % 2 ^ 32 })
step movl_eax_cr4 m p = to_cr4 (p.rax % 2 ^ 32) p
step movl_edi_cr3 m p = some (record p { cr3 = p.rdi % 2 ^ 32 })
step (movw_ax v) m p = some (record p { rax = with_low16 p.rax v })
step (movl_edi v) m p = some (record p { rdi = v })
step (movl_ecx v) m p = some (record p { rcx = v })
step (movq_rax v) m p = some (record p { rax = v })
step (orl_eax v) m p = some (record p { rax = bit_or (p.rax % 2 ^ 32) v })
step (andl_eax v) m p = some (record p { rax = bit_and (p.rax % 2 ^ 32) v })
step jmpq_rax m p = do target ← load_bytes m p p.rax 8; some (record p { rip = target })

-- The offsets of the labels `_entry16`, `gdtr32`, `gdt_desc32`, `entry32`, `start`, `gdt_desc64` and
-- `gdtr64`. `entry16` is at 0, and `addr`, with its alignment to 8 bytes, at 8.
pub record Labels : Type 0 where
  pub entry16 : ℕ
  pub gdtr32 : ℕ
  pub gdt_desc32 : ℕ
  pub entry32 : ℕ
  pub start : ℕ
  pub gdt_desc64 : ℕ
  pub gdtr64 : ℕ

abbrev pub addr : ℕ
addr = 8

abbrev pub code16 : Labels → List Instruction
code16 l =
    cli
    ∷ movw_cs_ax
    ∷ movw_ax_ds
    ∷ lgdtl l.gdtr32
    ∷ movl_cr0_eax
    ∷ orl_eax (2 ^ 0)
    ∷ movl_eax_cr0
    ∷ ljmp 0x08 (trampoline_addr + l.entry32)
    ∷ []

abbrev pub code32 : Labels → List Instruction
code32 l =
    movw_ax 0x10
    ∷ movw_ax_ds
    ∷ movl_edi initial_pml4t
    ∷ movl_edi_cr3
    ∷ movl_cr4_eax
    ∷ orl_eax (2 ^ 4 + 2 ^ 5 + 2 ^ 7)
    ∷ movl_eax_cr4
    ∷ movl_ecx 0xC000_0080
    ∷ rdmsr
    ∷ orl_eax (2 ^ 8)
    ∷ wrmsr
    ∷ movl_cr0_eax
    ∷ orl_eax (2 ^ 31)
    ∷ andl_eax (2 ^ 32 - 1 - (2 ^ 30 + 2 ^ 29))
    ∷ movl_eax_cr0
    ∷ lgdtl (trampoline_addr + l.gdtr64)
    ∷ ljmp 0x10 (trampoline_addr + l.start)
    ∷ []

abbrev pub code64 : List Instruction
code64 = movw_ax 0x18 ∷ movw_ax_ds ∷ movw_ax_ss ∷ movq_rax (trampoline_addr + addr) ∷ jmpq_rax ∷ []

-- What stands at an offset.
abbrev pub code_at : Labels → ℕ → Option (Width × List Instruction)
code_at l offset =
    if offset == 0
    then some (bits16, jmp l.entry16 ∷ [])
    else if offset == l.entry16
    then some (bits16, code16 l)
    else if offset == l.entry32
    then some (bits32, code32 l)
    else if offset == l.start
    then some (bits64, code64)
    else none

abbrev pub same_width : Width → Width → Bool
same_width bits16 bits16 = true
same_width bits32 bits32 = true
same_width bits64 bits64 = true
same_width _ _ = false

-- All the code is in the page at `trampoline_addr`, which an instruction is fetched from where the
-- page is mapped to itself.
unfoldable pub fetches : Memory → Processor → Bool
unfolding physical
fetches m p = elim (physical m p trampoline_addr) [ none ↦ false | some pa ↦ pa == trampoline_addr ]

unfoldable pub run_all : List Instruction → Memory → Processor → Option Processor
unfolding step fetches
run_all [] m p = some p
run_all (i ∷ is) m p = do q ← if fetches m p then step i m p else none; run_all is m q

-- From label to label, with fuel, until the processor has left the code.
unfoldable pub run_code : ℕ → Labels → Memory → Processor → Option Processor
unfolding run_all
run_code zero l m p = none
run_code (suc f) l m p =
    let linear = p.cs_base + p.rip in
    elim (code_at l (linear - trampoline_addr)) [
      | none ↦ some p
      | some (w, is) ↦ do
        q ← if same_width w (width p) && leb trampoline_addr linear then run_all is m p else none
        run_code f l m q
    ]

-- One round for each of the four pieces, and one that finds the code left.
abbrev pub run_fuel : ℕ
run_fuel = 5
