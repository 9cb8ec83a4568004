-- ===== src/Tutorial/Faults/Division.antt =====
-- tutorial/interrupt/jump and tutorial/interrupt/exception_recovery: friend.cc and int.S.
pub mod Recovery
use toshokan.Base.{
  ℕ, zero, suc, ◌+◌, ◌*◌, ◌%◌, ◌/◌, ◌^◌, List, Option, none, some, ltb, ◌==◌, if◌then◌else◌,
}
use toshokan.Tutorial.Idt.{Idt, setup_inthandler}
use toshokan.Tutorial.Faults.{
  Handling, resumes, stops, halts, Outcome, no_choice, wait_input, retry, deliver,
}

pub record Regs : Type 0 where
  pub eax : ℕ
  pub ebx : ℕ
  pub edx : ℕ

-- `divl %ebx`: the fault is one of a division by 0 or of a quotient that does not fit.
abbrev pub divl : Regs → Option Regs
divl r =
    let n = r.edx * 2 ^ 32 + r.eax in
    elim r.ebx [
      | zero ↦ none
      | suc b ↦
          if ltb (n / suc b) (2 ^ 32)
          then some (record r { eax = n / suc b; edx = n % suc b })
          else none
    ]

-- The handlers of exception_recovery.
abbrev pub int_handler1 : Regs → Handling Regs
int_handler1 r = resumes r

abbrev pub int_handler2 : Regs → Handling Regs
int_handler2 r = resumes (record r { ebx = 1 })

-- The handler of jump halts for ever.
abbrev pub int_handler : Regs → Handling Regs
int_handler r = stops halts

-- friend_main of exception_recovery, at the addresses of the two handlers and of `idt_def`: what the
-- registers are at its end.
pub recovery_main : ℕ → ℕ → ℕ → ℕ → Idt → List ℕ → Outcome Regs
unfolding wait_input retry deliver setup_inthandler
recovery_main fuel handler1 handler2 idt_def t keys = elim (wait_input keys) [
  | none ↦ no_choice
  | some (input, keys') ↦
      let u = setup_inthandler 0 idt_def (if input == 1 then handler1 else handler2) t in
      retry divl (deliver 0 handler1 handler2 int_handler1 int_handler2 u) fuel
        (record { eax = 1; ebx = 0; edx = 0 })
]

-- friend_main of jump.
pub jump_main : ℕ → ℕ → ℕ → Idt → List ℕ → Outcome Regs
unfolding wait_input retry deliver setup_inthandler
jump_main fuel handler idt_def t keys =
    let u = setup_inthandler 0 idt_def handler t in
    elim (wait_input keys) [
      | none ↦ no_choice
      | some (input, keys') ↦
          retry divl (deliver 0 handler handler int_handler int_handler u) fuel
            (record { eax = 1; ebx = if input == 1 then 1 else 0; edx = 0 })
    ]
