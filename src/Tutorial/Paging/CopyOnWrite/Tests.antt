-- ===== src/Tutorial/Paging/CopyOnWrite/Tests.antt =====
-- The program on copy on write where the words of memory are their own numbers.
use toshokan.Base.{
  ℕ, ◌+◌, ◌%◌, ◌≡◌, ◌<◌, none, some, true, false, refl, ◌==◌, ◌&&◌, if◌then◌else◌, arith,
}
use toshokan.Tutorial.Idt.{Idt}
use toshokan.Tutorial.Paging.Mapping.Shows.{IsBooted}
use toshokan.Tutorial.Paging.CopyOnWrite.Program.{State, Places, friend_main}
use toshokan.Tutorial.Paging.CopyOnWrite.Coherent.{frame}
use toshokan.Tutorial.Paging.CopyOnWrite.Phases.{first}
use toshokan.Tutorial.Paging.CopyOnWrite.Stale.{friend_main-stale}

abbrev empty_idt : Idt
empty_idt = record {
  gates = λ v. record { entry0 = 0; entry1 = 0; entry2 = 0; entry3 = 0 };
  idtr = record { word0 = 0; word1 = 0; word2 = 0; word3 = 0; word4 = 0 };
}

abbrev places : Places
places = record {
  int_handler = 0x20_0100;
  idt_def = 0x20_1000;
  pdpt = 0x2000;
  pd = 0x3000;
  pt = 0x4000;
}

abbrev booted : State
booted = record {
  cpu = record {
    tables = λ b k. if b == 0x7_1000 && k == 0 then 0x2007 else 0;
    cr3 = 0x7_1000;
    tlb = λ _. none;
  };
  writes = λ _. false;
  wp = true;
  words = λ k. k;
  lines = 0;
}

is_booted : IsBooted booted.cpu 0x2000 0x3000 0x4000
is_booted = omega arith

friend_main-stale_example :
    (t : State) × (friend_main 1 places empty_idt booted ≡ some t)
    × (t.lines ≡ 0 + 2)
    × ((j : ℕ) → j < 512 → t.cpu.tables 0x4000 j ≡ frame (j % 256) + 5)
    × ((k : ℕ)
        → k < 131072
        → (t.words (first + k) ≡ first + k)
          × (t.words (first + 131072 + k)
              ≡ (if k % 512 == 0 then 0 else if k % 8 == 0 then first + k else first + 131072 + k)))
friend_main-stale_example = friend_main-stale 0 places empty_idt booted is_booted (λ i h. refl)
