-- ===== src/Tutorial/Idt.antt =====
-- The interrupt descriptor table that the tutorials set up, and how a processor reads it (Intel SDM,
-- volume 3, 6.14.1): setup_inthandler of the tutorials, which differ in the vector alone. `x & 0xFFFF`
-- is `x % 2 ^ 16`, and `x & 0xFFFF0000` is `x / 2 ^ 16 % 2 ^ 16 * 2 ^ 16`, since what it is assigned
-- to has 32 bits.
pub mod Gates
use Prim.Native.Nat.{bit_or}
use toshokan.Base.{ℕ, ◌+◌, ◌-◌, ◌*◌, ◌/◌, ◌%◌, ◌^◌, Option, none, some, Bool, ◌==◌, if◌then◌else◌}

-- `idt_def[vector].entry`: four words of 32 bits.
pub record Gate : Type 0 where
  pub entry0 : ℕ
  pub entry1 : ℕ
  pub entry2 : ℕ
  pub entry3 : ℕ

-- `_idtr`: five words of 16 bits.
pub record Idtr : Type 0 where
  pub word0 : ℕ
  pub word1 : ℕ
  pub word2 : ℕ
  pub word3 : ℕ
  pub word4 : ℕ

-- Of `handler`, an address.
abbrev pub gate_of : ℕ → Gate
gate_of vaddr = record {
  entry0 = bit_or (vaddr % 2 ^ 16) (0x10 * 2 ^ 16) % 2 ^ 32;
  entry1 = bit_or (bit_or (vaddr / 2 ^ 16 % 2 ^ 16 * 2 ^ 16) (0xE * 2 ^ 8)) (1 * 2 ^ 15) % 2 ^ 32;
  entry2 = vaddr / 2 ^ 32 % 2 ^ 32;
  entry3 = 0;
}

-- Of the address of `idt_def`.
abbrev pub idtr_of : ℕ → Idtr
idtr_of idt_addr = record {
  word0 = 0x10 * 64 - 1;
  word1 = idt_addr % 2 ^ 16;
  word2 = idt_addr / 2 ^ 16 % 2 ^ 16;
  word3 = idt_addr / 2 ^ 32 % 2 ^ 16;
  word4 = idt_addr / 2 ^ 48 % 2 ^ 16;
}

-- The table that `lidt` loads: the gate of one vector, the others as they were before.
pub record Idt : Type 0 where
  pub gates : ℕ → Gate
  pub idtr : Idtr

unfoldable pub setup_inthandler : ℕ → ℕ → ℕ → Idt → Idt
setup_inthandler vector idt_addr handler t = record {
  gates = λ v. if v == vector then gate_of handler else t.gates v;
  idtr = idtr_of idt_addr;
}

-- What the processor takes from a gate, and from the register.
abbrev pub offset : Gate → ℕ
offset g = g.entry0 % 2 ^ 16 + g.entry1 / 2 ^ 16 * 2 ^ 16 + g.entry2 * 2 ^ 32

abbrev pub selector : Gate → ℕ
selector g = g.entry0 / 2 ^ 16

abbrev pub gate_type : Gate → ℕ
gate_type g = g.entry1 / 2 ^ 8 % 2 ^ 4

abbrev pub gate_present : Gate → Bool
gate_present g = g.entry1 / 2 ^ 15 % 2 == 1

abbrev pub base : Idtr → ℕ
base r = r.word1 + r.word2 * 2 ^ 16 + r.word3 * 2 ^ 32 + r.word4 * 2 ^ 48

abbrev pub limit : Idtr → ℕ
limit r = r.word0
