-- ===== src/Tutorial/Faults/PageFault.antt =====
-- tutorial/paging/pagefault: friend.cc and int.S.
pub mod Recovery
use toshokan.Base.{ℕ, ◌+◌, ◌%◌, ◌/◌, List, ◌∷◌, Option, none, some, ◌==◌, if◌then◌else◌}
use toshokan.Tutorial.Cpu
use toshokan.Tutorial.Cpu.{Cpu, with_flags, translate}
use toshokan.Tutorial.Idt.{Idt, setup_inthandler}
use toshokan.Tutorial.Faults.{
  Handling, resumes, Outcome, no_choice, map_outcome, wait_input, retry, deliver,
}
use toshokan.Tutorial.Paging.Console.{System, Line, memdata, k_512gb, k_1gb, k_2mb, k_4kb, v2p}

-- The addresses that the linker gives to the two handlers, to `idt_def` and to the tables.
pub record Places : Type 0 where
  pub handler1 : ℕ
  pub handler2 : ℕ
  pub idt_def : ℕ
  pub pdpt : ℕ
  pub pd : ℕ
  pub pt : ℕ

abbrev pub vaddr : ℕ
vaddr = 0x8000_0000

-- It takes the error code from the stack and returns.
abbrev pub int_handler1 : Cpu → Handling Cpu
int_handler1 c = resumes c

-- It writes the entry that `pt_entry` points to, and invalidates the page.
abbrev pub int_handler2 : ℕ → Cpu → Handling Cpu
int_handler2 pt c = resumes (
    Cpu.invlpg 0x8000_0000
      (Cpu.store_entry pt (vaddr % k_2mb / k_4kb) (with_flags 0x1_0000_0000) c))

-- The tables, before the access.
abbrev pub clear_entry : Places → Cpu → Cpu
clear_entry p c =
    let c₁ = Cpu.store_entry p.pdpt (vaddr % k_512gb / k_1gb) (with_flags (v2p p.pd)) c in
    let c₂ = Cpu.store_entry p.pd (vaddr % k_1gb / k_2mb) (with_flags (v2p p.pt)) c₁ in
    Cpu.store_entry p.pt (vaddr % k_2mb / k_4kb) 0 c₂

-- What is left to do once the access has found an address.
abbrev pub with_word : List ℕ → System → ℕ × Cpu → System
with_word keys s (pa, cpu) = record s {
  cpu = cpu;
  keys = keys;
  output = memdata vaddr (s.words pa) ∷ s.output;
}

-- The access gets fuel for the times that it is tried.
pub friend_main : ℕ → Places → Idt → System → Outcome System
unfolding retry deliver translate
friend_main fuel p t s = elim (wait_input s.keys) [
  | none ↦ no_choice
  | some (input, keys) ↦
      let u = setup_inthandler 14 p.idt_def (if input == 1 then p.handler1 else p.handler2) t in
      map_outcome (with_word keys s) (
        retry (translate vaddr)
          (deliver 14 p.handler1 p.handler2 int_handler1 (int_handler2 p.pt) u) fuel
          (clear_entry p s.cpu))
]
