-- ===== src/SampleOld/Tests.antt =====
-- Runs of the samples of sample_old.
use toshokan.Base.{ℕ, ◌≡◌, [], ◌∷◌, Option, none, some, true, refl, ◌==◌, if◌then◌else◌, arith}
use mathlib.Core.Option
use toshokan.SampleOld.Machine.{System, Step, Bytes, and_then, locate, put_value, phys}
use toshokan.SampleOld.Host.{Loaded, arrive, test_main}
use toshokan.SampleOld.Host.Serving.{samples-served, print}
use toshokan.SampleOld.Tables.{hello, bye}
use toshokan.SampleOld.Tables.Windows.{lies, samples-lies}
use toshokan.SampleOld.Intro.{greeting_main, waiting_main}
use toshokan.SampleOld.Tables.Programs.{
  identity_main, halted_main, unmapped_main, shifted_main, adjacent_main, scattered_main,
}
use toshokan.SampleOld.Apps.{
  Entry, app1_entry1, app1_entry2, app2_entry3, app2_entry4, Link, Frame, touch,
}
use toshokan.SampleOld.Apps.Spaces.{unmap_page}
use toshokan.SampleOld.Apps.Spaces.Stale.{entry_and_page, unmap_page-leaves}
use toshokan.SampleOld.Apps.Runs.{digit}
use toshokan.SampleOld.Apps.Programs.{remapped_main}
use toshokan.SampleOld.Apps.Remapping.{IsBuilt}
use toshokan.SampleOld.Apps.Remapping.Returns.{result, lines, remapped_main-returns}

-- Two binaries of two bytes each, of which each byte is the code of a function.
abbrev built_memory : Bytes
built_memory a =
    if a == phys 0x1000
    then 1
    else if a == phys 0x1001
    then 2
    else if a == phys 0x2000
    then 3
    else if a == phys 0x2001
    then 4
    else 0

abbrev decode : ℕ → Option Entry
decode b =
    if b == 1
    then some app1_entry1
    else if b == 2
    then some app1_entry2
    else if b == 3
    then some app2_entry3
    else if b == 4
    then some app2_entry4
    else none

abbrev small_link : Link
small_link = record {
  app1_start = 0x1000;
  app1_size = 2;
  app2_start = 0x2000;
  app2_size = 2;
  entry2_address = 0xC000_0001;
  entry4_address = 0xC000_0001;
  code = λ view a. elim (view a) [ none ↦ none | some b ↦ decode b ];
}

abbrev fresh : System
fresh = record {
  mem = built_memory;
  cr3 = none;
  tlb = λ page. none;
  sent = [];
  print_flag = 0;
  wakes = 1;
}

abbrev fresh_frame : Frame
fresh_frame = record {
  system = fresh;
  c1 = record { next = 0; i = 0 };
  c2 = record { next = 0; i = 0 };
}

small_link-IsBuilt : IsBuilt small_link built_memory
small_link-IsBuilt = record {
  app1_below = omega arith;
  app2_below = omega arith;
  app1_fits = omega arith;
  app2_fits = omega arith;
  entry2_inside = refl;
  entry4_inside = refl;
  app1_code = λ view h. (rw (h 0 (omega arith)) refl, rw (h 1 (omega arith)) refl);
  app2_code = λ view h. (rw (h 0 (omega arith)) refl, rw (h 1 (omega arith)) refl);
}

remapped_main-returns_example :
    result (remapped_main small_link fresh_frame)
    ≡ some (0, put_value 0 ∷ lines (bye ∷ digit 8 ∷ digit 2 ∷ digit 9 ∷ digit 1 ∷ hello ∷ []) [])
remapped_main-returns_example = remapped_main-returns small_link fresh_frame small_link-IsBuilt

samples-lies_example :
    let runs = λ (main : Step) (at : Option ℕ).
      Option.map (lies 0x1234 1 5) (main fresh) ≡ some (some 0x8000_1234, at) in
    runs identity_main (some 0x8000_1005)
    × runs halted_main (some 0x8000_1005)
    × runs unmapped_main none
    × runs shifted_main none
    × runs adjacent_main (some 0x8000_1005)
    × runs scattered_main (some 0x8000_2005)
samples-lies_example =
    samples-lies fresh 0x1234 1 5 0 (omega arith) (omega arith) (omega arith) refl

abbrev loaded : Loaded
loaded = record {
  argc = 2;
  file_loaded = true;
  file_inited = true;
  file_deployed = true;
  file_executed = true;
}

samples-served_example :
    let served = λ (main : Step).
      Option.map (λ (t : System). test_main loaded (arrive t.sent [])) (main fresh)
      ≡ some (some (0, 10 ∷ print bye (10 ∷ print hello []))) in
    served identity_main
    × served halted_main
    × served unmapped_main
    × served shifted_main
    × served adjacent_main
    × served scattered_main
    × served greeting_main
    × served waiting_main
samples-served_example = samples-served loaded fresh 0 (omega arith) refl refl refl refl refl refl

-- A core that keeps the page at 0xC0001000.
abbrev lent : System
lent = record fresh { tlb = λ page. if page == 0xC_0001 then some 0x8070_0000 else none }

unmap_page-leaves_example :
    Option.map
      (entry_and_page 0x31_0000 3)
      (and_then (touch 0xC000_1003 lent) (unmap_page 0x31_0000))
    ≡ some (0, some 0x8070_0003)
unfolding locate
unmap_page-leaves_example = unmap_page-leaves lent 0x31_0000 0x8070_0003 3 refl (omega arith) refl
