-- ===== src/Hakase/Trampoline/Tests.antt =====
-- A core started on a trampoline that is laid out by hand.
use toshokan.Base.{
  ℕ, ◌+◌, ◌-◌, ◌*◌, ◌/◌, ◌%◌, ◌^◌, ◌≡◌, ◌<◌, refl, true, false, List, [], ◌∷◌, ◌++◌, some, none,
  arith, ltb, leb, ◌&&◌, if◌then◌else◌,
}
use toshokan.Base.Int.{pos}
use toshokan.Layout.{trampoline_addr, page_size}
use toshokan.Hakase.Setup.{Process, Setting, loader16_init}
use toshokan.Hakase.PageTables.Identity.{IsPlaced}
use toshokan.Hakase.Trampoline.{Processor, Memory, physical}
use toshokan.Hakase.Trampoline.Code.{Labels, run_code, run_fuel}
use toshokan.Hakase.Trampoline.Bytes.{Directive, read, Holds, data32, data64}
use toshokan.Hakase.Trampoline.Flags.{IsReset, IsLaidOut}
use toshokan.Hakase.Trampoline.Arrival.{IsArrived}
use toshokan.Hakase.Trampoline.Installed.{loader16_init-arrives}

abbrev labels : Labels
labels = record {
  entry16 = 16;
  gdtr32 = 50;
  gdt_desc32 = 56;
  entry32 = 80;
  start = 160;
  gdt_desc64 = 192;
  gdtr64 = 242;
}

-- The bytes of the data; those of the code are left 0.
abbrev assemble : List Directive → ℕ → ℕ
assemble [] a = 0
assemble (d ∷ ds) a =
    if leb d.offset a && ltb a (d.offset + d.size)
    then d.value / 2 ^ (8 * (a - d.offset)) % 2 ^ 8
    else assemble ds a

abbrev binary : ℕ → ℕ
binary = assemble (data32 labels ++ data64 labels)

abbrev setting : Setting
setting = record {
  version = none;
  cmdline = none;
  friend_mem_opens = true;
  friend_mem_maps = true;
  bootmem_opens = true;
  bootmem_maps = true;
  friend_bin = λ _. 0;
  friend16_bin = binary;
  friend16_bin_size = 252;
  places = record {
    pml4t = 0x7_1000;
    pdpt = 0x1_0000_1000;
    pd1 = 0x1_0000_2000;
    pd2 = 0x1_0000_3000;
  };
  export_symbols = [];
}

abbrev process : Process
process = record {
  files = 3;
  memory = λ _. 1;
  trampoline = λ _. 2;
  tables = λ _ _. 0;
  shared = λ _. 0;
}

made : Process
unfolding loader16_init
made = (loader16_init setting 0x1_0000_8000 process).1

abbrev placed_at : (ℕ → ℕ) → ℕ → ℕ
placed_at page a =
    if leb trampoline_addr a && ltb a (trampoline_addr + page_size)
    then page (a - trampoline_addr)
    else 0

placed_at_lem :
    (page : ℕ → ℕ) (a : ℕ) → a < page_size → placed_at page (trampoline_addr + a) ≡ page a
placed_at_lem page a h =
    let back : trampoline_addr + a - trampoline_addr ≡ a = omega arith in rw back (ground arith)

memory : Memory
unfolding made
memory = record { bytes = placed_at made.trampoline; tables = made.tables }

-- CR0 as a processor has it after INIT: CD, NW and ET.
abbrev cpu : Processor
cpu = record {
  rip = 0;
  cs = 0x7000;
  cs_base = 0x7_0000;
  cs_big = false;
  cs_long = false;
  ds = 0;
  ds_base = 0;
  ss = 0;
  gdt_base = 0;
  gdt_limit = 0xFFFF;
  rax = 5;
  rcx = 6;
  rdx = 7;
  rdi = 8;
  cr0 = 0x6000_0010;
  cr3 = 0;
  cr4 = 0;
  efer = 0;
  interrupts = false;
}

is_reset : IsReset cpu
is_reset = record {
  at_rip = refl;
  in_real = record {
    at_cs = refl;
    at_base = refl;
    not_big = refl;
    not_long = refl;
    real = refl;
    unpaged = refl;
    uncached = λ _. refl;
  };
}

holds32 : Holds binary 0 (data32 labels)
unfolding read
holds32 = (refl, (refl, (refl, (refl, refl))))

holds64 : Holds binary 0 (data64 labels)
unfolding read
holds64 = (refl, (refl, (refl, (refl, (refl, (refl, refl))))))

assemble_small : (ds : List Directive) (a : ℕ) → assemble ds a < 2 ^ 8
assemble_small [] a = omega arith
assemble_small (d ∷ ds) a = ground (arith, assemble_small ds a)

are_bytes : (a : ℕ) → memory.bytes a < 2 ^ 8
unfolding memory made loader16_init
are_bytes a = ground (arith, assemble_small (data32 labels ++ data64 labels) (a - trampoline_addr))

is_there : (a : ℕ) → a < page_size → memory.bytes (trampoline_addr + a) ≡ made.trampoline a
unfolding memory made
is_there a h = placed_at_lem made.trampoline a h

laid_out : IsLaidOut labels 252
laid_out = omega arith

placed : IsPlaced setting.places
placed = omega arith

loader16_init-arrives_example :
    ((loader16_init setting 0x1_0000_8000 process).0 ≡ pos 0)
    × ((q : Processor) × (run_code run_fuel labels memory cpu ≡ some q)
        × IsArrived 0x1_0000_8000 cpu q
        × (physical memory q 0x1_0000_8000 ≡ some 0x1_0000_8000))
unfolding memory made
loader16_init-arrives_example =
    loader16_init-arrives setting process 0x1_0000_8000 labels memory cpu laid_out holds32 holds64
      refl refl placed refl (omega arith) (omega arith) are_bytes is_there refl is_reset
