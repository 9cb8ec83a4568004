-- ===== src/Tutorial/Faults/Division/Recovery.antt =====
-- How the divisions end.
use toshokan.Base.{
  ℕ, suc, ◌^◌, ◌≡◌, ◌≢◌, ◌<◌, List, some, refl, true, false, ◌==◌, if◌then◌else◌, ℕ_discrete, arith,
}
use toshokan.Tutorial.Idt.{Idt, setup_inthandler, offset}
use toshokan.Tutorial.Idt.Gates.{setup_inthandler-read}
use toshokan.Tutorial.Faults.{
  halts, Outcome, ended, still_faulting, stopped, wait_input, retry, deliver,
}
use toshokan.Tutorial.Faults.Retries.{retry-same, retry-mended, deliver_lem}
use toshokan.Tutorial.Faults.Division.{
  Regs, divl, int_handler1, int_handler2, int_handler, recovery_main, jump_main,
}

-- The handlers stand at two addresses of 64 bits, as does the table of gates, and the reader chooses.
-- With the first choice the division still faults when the fuel is used up, however much it is, and
-- the core does not stop; with the second the handler has it divide by 1, and it ends at its second
-- try with quotient 1 and rest 0.
pub recovery_main-ends :
    (f handler1 handler2 idt_def i : ℕ) (t : Idt) (keys rest : List ℕ)
    → idt_def < 2 ^ 64
    → handler1 < 2 ^ 64
    → handler2 < 2 ^ 64
    → handler1 ≢ handler2
    → wait_input keys ≡ some (i, rest)
    → recovery_main (suc (suc f)) handler1 handler2 idt_def t keys
      ≡ (if i == 1 then still_faulting else ended (record { eax = 1; ebx = 1; edx = 0 }))
unfolding recovery_main
recovery_main-ends f h₁ h₂ d i t keys rest p q r n e =
    rw (recovery_main, e) (split (ℕ_discrete i 1))
  where
    start : Regs
    start = record { eax = 1; ebx = 0; edx = 0 }

    split :
        Dec (i ≡ 1)
        → retry divl
            (deliver 0 h₁ h₂ int_handler1 int_handler2
              (setup_inthandler 0 d (if i == 1 then h₁ else h₂) t))
            (suc (suc f))
            start
          ≡ (if i == 1 then still_faulting else ended (record { eax = 1; ebx = 1; edx = 0 }))
    split (yes x) = rw x (
        retry-same divl (deliver 0 h₁ h₂ int_handler1 int_handler2 (setup_inthandler 0 d h₁ t))
          (suc (suc f)) start refl
          (deliver_lem int_handler1 int_handler2 t 0 d h₁ h₂ (omega arith) p q r n start).0)
    split (no x) =
        let z : (i == 1) ≡ false = ground arith in
        rw z (
          retry-mended divl (deliver 0 h₁ h₂ int_handler1 int_handler2 (setup_inthandler 0 d h₂ t))
            f start (record { eax = 1; ebx = 1; edx = 0 }) (record { eax = 1; ebx = 1; edx = 0 })
            refl (deliver_lem int_handler1 int_handler2 t 0 d h₁ h₂ (omega arith) p q r n start).1
            refl)

-- The other program: a division of 1 by 1 ends with quotient 1 and rest 0, one by 0 goes to a handler
-- that halts for ever.
pub jump_main-ends :
    (f handler idt_def i : ℕ) (t : Idt) (keys rest : List ℕ)
    → idt_def < 2 ^ 64
    → handler < 2 ^ 64
    → wait_input keys ≡ some (i, rest)
    → jump_main (suc f) handler idt_def t keys
      ≡ (if i == 1 then ended (record { eax = 1; ebx = 1; edx = 0 }) else stopped halts)
unfolding jump_main retry deliver
jump_main-ends f h d i t keys rest p q e = rw (jump_main, e) (split (ℕ_discrete i 1))
  where
    runs : ℕ → Outcome Regs
    runs ebx =
        retry divl (deliver 0 h h int_handler int_handler (setup_inthandler 0 d h t)) (suc f)
          (record { eax = 1; ebx = ebx; edx = 0 })

    at_handler : offset ((setup_inthandler 0 d h t).gates 0) ≡ h
    at_handler = (setup_inthandler-read 0 d h t (omega arith) p q).0

    split :
        Dec (i ≡ 1)
        → runs (if i == 1 then 1 else 0)
          ≡ (if i == 1 then ended (record { eax = 1; ebx = 1; edx = 0 }) else stopped halts)
    split (yes x) = rw x refl
    split (no x) =
        let z : (i == 1) ≡ false = ground arith in
        let s : (h == h) ≡ true = ground arith in rw z (rw (deliver, at_handler, s) refl)
