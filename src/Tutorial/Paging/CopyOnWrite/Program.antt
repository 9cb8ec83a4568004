-- ===== src/Tutorial/Paging/CopyOnWrite/Program.antt =====
-- tutorial/paging/copy_on_write: friend.cc and int.S, with my_memcpy on virtual addresses. The times
-- that it prints are left out.
use Prim.Native.Nat.{bit_or}
use toshokan.Base.{
  ℕ, zero, suc, ◌+◌, ◌-◌, ◌*◌, ◌/◌, ◌%◌, ◌^◌, Bool, not, ◌&&◌, ◌||◌, Option, none, some, ltb,
  if◌then◌else◌, update,
}
use toshokan.Base.Options.{◌>>=◌}
use toshokan.Base.Bits.{flag}
use toshokan.Hakase.PageTables.{PhysMem}
use toshokan.Hakase.PageTables.Walk.{huge, table_of}
use toshokan.Tutorial.Cpu
use toshokan.Tutorial.Cpu.{Cpu, with_flags, translate}
use toshokan.Tutorial.Idt.{Idt, setup_inthandler}
use toshokan.Tutorial.Faults.{
  Handling, resumes, stops, double_fault, Outcome, ended, retry, deliver,
}
use toshokan.Tutorial.Paging.Console.{k_512gb, k_1gb, k_2mb, k_4kb, v2p}
use toshokan.Tutorial.Paging.CopyOnWrite.{sizeof_uint64}

-- With each translation that the core keeps, whether it lets the core write; CR0.WP, without which
-- the kernel writes to any page; memory by words of 64 bits, which are numbered by their physical
-- address; and how many lines have been printed.
pub record State : Type 0 where
  pub cpu : Cpu
  pub writes : ℕ → Bool
  pub wp : Bool
  pub words : ℕ → ℕ
  pub lines : ℕ

-- Bit 1 of every entry on the way to a page.
unfoldable pub writable : PhysMem → ℕ → ℕ → Bool
writable m pml4t va =
    let e₄ = m pml4t (va / 2 ^ 39 % 512) in
    let e₃ = m (table_of e₄) (va / 2 ^ 30 % 512) in
    let e₂ = m (table_of e₃) (va / 2 ^ 21 % 512) in
    let e₁ = m (table_of e₂) (va / 2 ^ 12 % 512) in
    flag 1 e₄ && flag 1 e₃ && (huge e₃ || (flag 1 e₂ && (huge e₂ || flag 1 e₁)))

-- An access finds the address and keeps the translation; it has no result where it faults.
unfoldable pub read_access : ℕ → State → Option (ℕ × State)
unfolding translate writable
read_access va s = do
  (pa, cpu) ← translate va s.cpu
  let page = va / 2 ^ 12
  let walked = update s.writes page (writable s.cpu.tables s.cpu.cr3 va)
  some (
    pa,
    record s { cpu = cpu; writes = elim (s.cpu.tlb page) [ none ↦ walked | some _ ↦ s.writes ] },
  )

unfoldable pub write_access : ℕ → State → Option (ℕ × State)
unfolding read_access writable
write_access va s =
    let page = va / 2 ^ 12 in
    let permitted : Bool = elim (s.cpu.tlb page) [
      | none ↦ writable s.cpu.tables s.cpu.cr3 va
      | some _ ↦ s.writes page
    ] in
    let access = read_access va s in if permitted || not s.wp then access else none

unfoldable pub load_word : ℕ → State → Option (ℕ × State)
unfolding read_access
load_word va s = do (pa, t) ← read_access va s; some (t.words (pa / 8), t)

unfoldable pub store_word : ℕ → ℕ → State → Option State
unfolding write_access
store_word va x s = do
  (pa, t) ← write_access va s
  some (record t { words = update t.words (pa / 8) x })

abbrev pub store_entry : ℕ → ℕ → ℕ → State → State
store_entry table i e s = record s { cpu = Cpu.store_entry table i e s.cpu }

-- The loop of my_memcpy on virtual addresses, with fuel; `count` is `n / sizeof(uint64_t)`.
unfoldable pub copy_from : ℕ → ℕ → ℕ → ℕ → ℕ → State → Option State
unfolding load_word store_word
copy_from zero i dst src count s = some s
copy_from (suc f) i dst src count s =
    let round = (do
      (x, t) ← load_word (src + 8 * i) s
      u ← store_word (dst + 8 * i) x t
      copy_from f (i + sizeof_uint64) dst src count u) in
    if ltb i count then round else some s

unfoldable pub my_memcpy : ℕ → ℕ → ℕ → State → Option State
unfolding copy_from
my_memcpy dst src n s = copy_from (n / sizeof_uint64) 0 dst src (n / sizeof_uint64) s

-- An entry that is before the table is no part of the state.
unfoldable pub fault_handler : ℕ → ℕ → State → Option State
fault_handler pt fault_address s =
    let fault_entry = fault_address % k_2mb / k_4kb in
    let src_entry = fault_entry - 256 in
    let s₁ = store_entry pt fault_entry (with_flags (0x5000_0000 + fault_entry * 0x1000)) s in
    let s₂ = store_entry pt src_entry (bit_or (s₁.cpu.tables pt src_entry) 2) s₁ in
    let copied =
      my_memcpy (0x5000_0000 + fault_entry * 0x1000) (0x5000_0000 + src_entry * 0x1000) 0x1000 s₂ in
    if ltb fault_entry 256
    then none
    else (do t ← copied; some (record t { cpu = Cpu.invlpg fault_address t.cpu }))

-- `pt.entry[i]` for `n` values of `i`, from `i` on.
unfoldable pub map_from : ℕ → ℕ → ℕ → State → State
map_from zero i pt s = s
map_from (suc n) i pt s =
    map_from n (i + 1) pt (store_entry pt i (with_flags (0x5000_0000 + i * 0x1000)) s)

unfoldable pub protect_from : ℕ → ℕ → ℕ → State → State
protect_from zero i pt s = s
protect_from (suc n) i pt s =
    protect_from n (i + 1) pt (store_entry pt i (bit_or (bit_or (0x5000_0000 + i * 0x1000) 1) 4) s)

unfoldable pub share_from : ℕ → ℕ → ℕ → State → State
share_from zero i pt s = s
share_from (suc n) i pt s = share_from n (i + 1) pt (store_entry pt i (s.cpu.tables pt (i - 256)) s)

abbrev pub vaddr1 : ℕ
vaddr1 = 0x8000_0000

abbrev pub vaddr2 : ℕ
vaddr2 = 0x8010_0000

-- The addresses that the linker gives to `int_handler`, to `idt_def` and to the tables.
pub record Places : Type 0 where
  pub int_handler : ℕ
  pub idt_def : ℕ
  pub pdpt : ℕ
  pub pd : ℕ
  pub pt : ℕ

-- fault_handler as the handler of the gate: where it has no result it has faulted itself, or the
-- fault is not one of the program.
abbrev handle : ℕ → ℕ → State → Handling State
unfolding fault_handler
handle pt va s = elim (fault_handler pt va s) [ some t ↦ resumes t | none ↦ stops double_fault ]

abbrev result : Outcome State → Option State
result (ended s) = some s
result _ = none

-- A store that may fault, with fuel for the times that it is tried.
unfoldable pub store_or_fault : ℕ → Places → Idt → ℕ → ℕ → State → Option State
unfolding retry deliver store_word handle
store_or_fault fuel p t va x s = result (
    retry (store_word va x)
      (deliver 14 p.int_handler p.int_handler (handle p.pt va) (handle p.pt va) t) fuel s)

-- `*((uint64_t *)(0x80100000 + i * 0x1000)) = 0` for `n` values of `i`, from `i` on.
unfoldable pub clear_pages : ℕ → Places → Idt → ℕ → ℕ → State → Option State
unfolding store_or_fault
clear_pages fuel p t zero i s = some s
clear_pages fuel p t (suc n) i s = do
  u ← store_or_fault fuel p t (0x8010_0000 + i * 0x1000) 0 s
  clear_pages fuel p t n (i + 1) u

-- `OFFLOAD({ printf("%d\n", t2 - t1); })`.
abbrev pub print : State → State
print s = record s { lines = s.lines + 1 }

unfoldable pub set_up : Places → State → State
set_up p s =
    let s₁ = store_entry p.pdpt (vaddr1 % k_512gb / k_1gb) (with_flags (v2p p.pd)) s in
    store_entry p.pd (vaddr1 % k_1gb / k_2mb) (with_flags (v2p p.pt)) s₁

-- The two parts: a copy, and a copy on write.
unfoldable pub copied_part : ℕ → Places → Idt → State → Option State
unfolding map_from my_memcpy clear_pages
copied_part fuel p t s = do
  u ← my_memcpy vaddr2 vaddr1 0x10_0000 (map_from 256 256 p.pt s)
  v ← clear_pages fuel p t 256 0 u
  some (print v)

unfoldable pub shared_part : ℕ → Places → Idt → State → Option State
unfolding protect_from share_from clear_pages
shared_part fuel p t s = do
  v ← clear_pages fuel p t 256 0 (share_from 256 256 p.pt (protect_from 256 0 p.pt s))
  some (print v)

unfoldable pub friend_main : ℕ → Places → Idt → State → Option State
unfolding map_from set_up copied_part shared_part
friend_main fuel p idt s = do
  let t = setup_inthandler 14 p.idt_def p.int_handler idt
  u ← copied_part fuel p t (map_from 256 0 p.pt (set_up p s))
  shared_part fuel p t u
