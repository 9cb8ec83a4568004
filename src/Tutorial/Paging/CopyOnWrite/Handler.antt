-- ===== src/Tutorial/Paging/CopyOnWrite/Handler.antt =====
-- The handler of the program on copy on write, on the page tables of the boot.
use Prim.Native.Nat.{bit_or}
use toshokan.Base.{
  ℕ, suc, ◌+◌, ◌-◌, ◌*◌, ◌/◌, ◌%◌, ◌^◌, ◌≡◌, ◌≢◌, ◌≤◌, ◌<◌, refl, ap, sym, ◌∙◌, true, false, none,
  ltb, arith,
}
use toshokan.Hakase.PageTables.Leads.{IsPage, walk_stops_pdpt}
use toshokan.Hakase.PageTables.Walk.{walk}
use toshokan.Tutorial.Cpu.{with_flags, translate}
use toshokan.Tutorial.Paging.CopyOnWrite.Program.{
  State, read_access, load_word, copy_from, my_memcpy, store_entry, fault_handler,
}

-- Nothing of the 2 MB from 0x50000000 on is mapped or kept.
pub record Unmapped (pdpt pt : ℕ) (s : State) : Type 0 where
  pub pdpt_page : IsPage pdpt
  pub cr3-ne-pt : s.cpu.cr3 ≢ pt
  pub pdpt-ne-pt : pdpt ≢ pt
  pub to_pdpt : s.cpu.tables s.cpu.cr3 0 ≡ pdpt + 7
  pub to_nothing : s.cpu.tables pdpt 1 ≡ 0
  pub forgotten : (a : ℕ) → 0x5_0000 ≤ a → a < 0x5_0200 → s.cpu.tlb a ≡ none

store_entry-Unmapped :
    (pdpt pt i e : ℕ) (s : State) → Unmapped pdpt pt s → Unmapped pdpt pt (store_entry pt i e s)
store_entry-Unmapped pdpt pt i e s v = record {
  pdpt_page = v.pdpt_page;
  cr3-ne-pt = v.cr3-ne-pt;
  pdpt-ne-pt = v.pdpt-ne-pt;
  to_pdpt = ground (arith, v.to_pdpt, v.cr3-ne-pt);
  to_nothing = ground (arith, v.to_nothing, v.pdpt-ne-pt);
  forgotten = v.forgotten;
}

load_word-fails :
    (pdpt pt va : ℕ) (s : State)
    → Unmapped pdpt pt s
    → 0x5000_0000 ≤ va
    → va < 0x5020_0000
    → load_word va s ≡ none
unfolding load_word read_access translate
load_word-fails pdpt pt va s v lo hi =
    let a : va / 2 ^ 39 % 512 ≡ 0 = omega arith in
    let b : va / 2 ^ 30 % 512 ≡ 1 = omega arith in
    let w : walk s.cpu.tables s.cpu.cr3 va ≡ none =
      walk_stops_pdpt s.cpu.tables va (rw a v.to_pdpt) v.pdpt_page (rw b v.to_nothing) in
    let t = v.forgotten (va / 2 ^ 12) (omega arith) (omega arith) in
    rw (load_word, read_access, translate, t, w) refl

copy_from-fails :
    (f i dst src count : ℕ) (s : State)
    → i < count
    → load_word (src + 8 * i) s ≡ none
    → copy_from (suc f) i dst src count s ≡ none
unfolding copy_from
copy_from-fails f i dst src count s h e =
    let more : ltb i count ≡ true = ground arith in rw (copy_from, more, e) refl

my_memcpy-fails :
    (dst src : ℕ) (s : State) → load_word src s ≡ none → my_memcpy dst src 0x1000 s ≡ none
unfolding my_memcpy
my_memcpy-fails dst src s e =
    let at : src ≡ src + 8 * 0 = omega arith in
    copy_from-fails 511 0 dst src 512 s (omega arith) (ap (λ a. load_word a s) (sym at) ∙ e)

-- Where `%cr3` leads to a table that maps nothing at 1 GB, as after the boot, and the core keeps no
-- translation there, a fault in the second half of the region is not handled: the handler writes
-- both entries, and then faults itself as it reads the page at 0x50000000, which it takes for mapped.
pub fault_handler-fails :
    (pdpt pt i o : ℕ) (s : State)
    → Unmapped pdpt pt s
    → 256 ≤ i
    → i < 512
    → o < 2 ^ 12
    → fault_handler pt (0x8000_0000 + i * 2 ^ 12 + o) s ≡ none
unfolding fault_handler
fault_handler-fails pdpt pt i o s v lo hi small =
    let entry : (0x8000_0000 + i * 2 ^ 12 + o) % (2 * 1024 * 1024) / (4 * 1024) ≡ i = omega arith in
    let high : ltb i 256 ≡ false = ground arith in
    let s₁ = store_entry pt i (with_flags (0x5000_0000 + i * 0x1000)) s in
    let e = bit_or (s₁.cpu.tables pt (i - 256)) 2 in
    let v₂ =
      store_entry-Unmapped pdpt pt (i - 256) e s₁
        (store_entry-Unmapped pdpt pt i (with_flags (0x5000_0000 + i * 0x1000)) s v) in
    let copied = my_memcpy-fails (0x5000_0000 + i * 0x1000) (0x5000_0000 + (i - 256) * 0x1000) _ (
      load_word-fails pdpt pt (0x5000_0000 + (i - 256) * 0x1000) _ v₂ (omega arith)
        (omega arith)) in
    rw (fault_handler, entry, high, copied) refl
