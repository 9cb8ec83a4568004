-- ===== src/Tutorial/Tests.antt =====
-- Runs of the programs of tutorial/paging.
use toshokan.Base.{◌≡◌, [], ◌∷◌, none, some, refl, ◌==◌, ◌&&◌, if◌then◌else◌, arith}
use mathlib.Core.Option
use toshokan.Hakase.PageTables.Walk.{walk}
use toshokan.Tutorial.Cpu
use toshokan.Tutorial.Cpu.{Cpu, with_flags}
use toshokan.Tutorial.Cpu.Region.{IsLed, store_entry-frames}
use toshokan.Tutorial.Paging.Console.{System, memdata, prompt, skip_line}
use toshokan.Tutorial.Paging.Mapping.{friend_main}
use toshokan.Tutorial.Paging.Mapping.Shows.{IsBooted, friend_main-shows}

-- Tables at 0x2000, 0x3000 and 0x4000, below that at 0x1000.
abbrev booted_cpu : Cpu
booted_cpu = record {
  tables = λ p i. if p == 0x1000 && i == 0 then 0x2007 else 0;
  cr3 = 0x1000;
  tlb = λ page. none;
}

abbrev led_cpu : Cpu
led_cpu = record {
  tables = λ p i.
      if p == 0x1000 && i == 0
      then 0x2007
      else if p == 0x2000 && i == 2
      then 0x3007
      else if p == 0x3000 && i == 0
      then 0x4007
      else 0;
  cr3 = 0x1000;
  tlb = λ page. none;
}

led_cpu-IsLed : IsLed led_cpu 0x2000 0x3000 0x4000
led_cpu-IsLed = record {
  pdpt_page = (omega arith, omega arith);
  pd_page = (omega arith, omega arith);
  pt_page = (omega arith, omega arith);
  cr3-ne-pt = λ e. omega (arith, e);
  pdpt-ne-pt = λ e. omega (arith, e);
  pd-ne-pt = λ e. omega (arith, e);
  to_pdpt = refl;
  to_pd = refl;
  to_pt = refl;
}

store_entry-frames_example :
    let mapped = Cpu.store_entry 0x4000 3 (with_flags 0x1_0000_0000) led_cpu in
    let cleared = Cpu.store_entry 0x4000 3 0 led_cpu in
    (walk mapped.tables 0x1000 0x8000_3010 ≡ some 0x1_0000_0010)
    × (walk cleared.tables 0x1000 0x8000_3010 ≡ none)
store_entry-frames_example =
    store_entry-frames led_cpu led_cpu-IsLed 3 0x1_0000_0000 (omega arith, omega arith) 3 0x10
      (omega arith) (omega arith)

-- Three lines on the console.
abbrev three_lines : System
three_lines = record {
  cpu = booted_cpu;
  words = λ a. if a == 0x1_0000_0000 then 11 else 22;
  keys = 10 ∷ 97 ∷ 10 ∷ 10 ∷ [];
  output = [];
}

skips :
    (skip_line (10 ∷ 97 ∷ 10 ∷ 10 ∷ []) ≡ some (97 ∷ 10 ∷ 10 ∷ []))
    × (skip_line (97 ∷ 10 ∷ 10 ∷ []) ≡ some (10 ∷ []))
    × (skip_line (10 ∷ []) ≡ some [])
unfolding skip_line
skips = (refl, refl, refl)

booted_cpu-IsBooted : IsBooted booted_cpu 0x2000 0x3000 0x4000
booted_cpu-IsBooted = record {
  pdpt_page = (omega arith, omega arith);
  pd_page = (omega arith, omega arith);
  pt_page = (omega arith, omega arith);
  cr3-ne-pdpt = λ e. omega (arith, e);
  cr3-ne-pd = λ e. omega (arith, e);
  cr3-ne-pt = λ e. omega (arith, e);
  pdpt-ne-pd = λ e. omega (arith, e);
  pdpt-ne-pt = λ e. omega (arith, e);
  pd-ne-pt = λ e. omega (arith, e);
  to_pdpt = refl;
}

friend_main-shows_example :
    Option.map (λ s. s.output) (friend_main 0x2000 0x3000 0x4000 three_lines)
    ≡ some (
        prompt 3 3
        ∷ memdata 0x8000_2000 22
        ∷ memdata 0x8000_1000 11
        ∷ prompt 2 3
        ∷ memdata 0x8000_0000 22
        ∷ prompt 1 3
        ∷ memdata 0x8000_0000 11
        ∷ [])
friend_main-shows_example =
    friend_main-shows three_lines 0x2000 0x3000 0x4000 (97 ∷ 10 ∷ 10 ∷ []) (10 ∷ []) []
      booted_cpu-IsBooted refl refl refl skips.0 skips.1 skips.2
