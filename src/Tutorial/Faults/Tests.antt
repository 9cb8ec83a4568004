-- ===== src/Tutorial/Faults/Tests.antt =====
-- Runs of the tutorials on exceptions.
use toshokan.Base.{
  ◌+◌, ◌*◌, ◌≡◌, ◌≤◌, [], ◌∷◌, none, some, true, refl, ◌==◌, ◌&&◌, if◌then◌else◌, arith,
}
use toshokan.Tutorial.Idt.{
  Idt, setup_inthandler, offset, selector, gate_type, gate_present, base, limit,
}
use toshokan.Tutorial.Idt.Gates.{setup_inthandler-read}
use toshokan.Tutorial.Faults.{ended, map_outcome, wait_input}
use toshokan.Tutorial.Faults.Division.{recovery_main}
use toshokan.Tutorial.Faults.Division.Recovery.{recovery_main-ends}
use toshokan.Tutorial.Faults.PageFault.{Places, friend_main}
use toshokan.Tutorial.Faults.PageFault.Recovery.{friend_main-recovers}
use toshokan.Tutorial.Paging.Console.{System, memdata}
use toshokan.Tutorial.Paging.Mapping.Shows.{IsBooted}

abbrev empty_idt : Idt
empty_idt = record {
  gates = λ v. record { entry0 = 0; entry1 = 0; entry2 = 0; entry3 = 0 };
  idtr = record { word0 = 0; word1 = 0; word2 = 0; word3 = 0; word4 = 0 };
}

setup_inthandler-read_example :
    let u = setup_inthandler 14 0x20_1000 0x1_2345_6789 empty_idt in
    let g = u.gates 14 in
    (offset g ≡ 0x1_2345_6789)
    × (selector g ≡ 0x10)
    × (gate_type g ≡ 0xE)
    × (gate_present g ≡ true)
    × (base u.idtr ≡ 0x20_1000)
    × (16 * 14 + 15 ≤ limit u.idtr)
    × (limit u.idtr + 1 ≡ 16 * 64)
setup_inthandler-read_example =
    setup_inthandler-read 14 0x20_1000 0x1_2345_6789 empty_idt (omega arith) (omega arith)
      (omega arith)

-- The reader types 7, an end of line, and 2.
chooses : wait_input (55 ∷ 10 ∷ 50 ∷ []) ≡ some (2, [])
unfolding wait_input
chooses = refl

recovery_main-ends_example :
    recovery_main 5 0x20_0100 0x20_0200 0x20_1000 empty_idt (55 ∷ 10 ∷ 50 ∷ [])
    ≡ ended (record { eax = 1; ebx = 1; edx = 0 })
recovery_main-ends_example =
    recovery_main-ends 3 0x20_0100 0x20_0200 0x20_1000 2 empty_idt (55 ∷ 10 ∷ 50 ∷ []) []
      (omega arith) (omega arith) (omega arith) (λ e. omega (arith, e)) chooses

abbrev places : Places
places = record {
  handler1 = 0x20_0100;
  handler2 = 0x20_0200;
  idt_def = 0x20_1000;
  pdpt = 0x2000;
  pd = 0x3000;
  pt = 0x4000;
}

abbrev choosing : System
choosing = record {
  cpu = record {
    tables = λ p i. if p == 0x1000 && i == 0 then 0x2007 else 0;
    cr3 = 0x1000;
    tlb = λ page. none;
  };
  words = λ a. if a == 0x1_0000_0000 then 11 else 22;
  keys = 55 ∷ 10 ∷ 50 ∷ [];
  output = [];
}

choosing-IsBooted : IsBooted choosing.cpu 0x2000 0x3000 0x4000
choosing-IsBooted = record {
  pdpt_page = (omega arith, omega arith);
  pd_page = (omega arith, omega arith);
  pt_page = (omega arith, omega arith);
  cr3-ne-pdpt = λ e. omega (arith, e);
  cr3-ne-pd = λ e. omega (arith, e);
  cr3-ne-pt = λ e. omega (arith, e);
  pdpt-ne-pd = λ e. omega (arith, e);
  pdpt-ne-pt = λ e. omega (arith, e);
  pd-ne-pt = λ e. omega (arith, e);
  to_pdpt = refl;
}

friend_main-recovers_example :
    map_outcome (λ s. s.output) (friend_main 5 places empty_idt choosing)
    ≡ ended (memdata 0x8000_0000 11 ∷ [])
friend_main-recovers_example =
    friend_main-recovers 3 2 places empty_idt choosing [] choosing-IsBooted refl (omega arith)
      (omega arith) (omega arith) (λ e. omega (arith, e)) chooses
