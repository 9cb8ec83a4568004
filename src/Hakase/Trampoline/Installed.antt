-- ===== src/Hakase/Trampoline/Installed.antt =====
-- Loader16::Init (hakase/loader16.cc) and then the start of a core.
use toshokan.Base.{
  ℕ, zero, suc, ◌+◌, ◌^◌, ◌≡◌, ◌≤◌, ◌<◌, refl, ap, sym, ◌∙◌, true, false, ltb, List, [], ◌∷◌, some,
  arith,
}
use toshokan.Base.Int.{ℤ, pos}
use toshokan.Layout.{
  trampoline_addr, page_size, initial_pml4t, deploy_phys_addr_start, deploy_phys_addr_end,
}
use toshokan.Hakase.PageTables.{init_page_tables}
use toshokan.Hakase.PageTables.Identity.{IsPlaced, friend_identity, trampoline_identity}
use toshokan.Hakase.PageTables.Walk.{walk}
use toshokan.Base.Bits.{bit_of}
use toshokan.Hakase.Setup.{Process, Setting, with_entry, loader16_init}
use toshokan.Hakase.Trampoline.{Processor, Memory, physical}
use toshokan.Hakase.Trampoline.Code.{addr, Labels, run_code, run_fuel}
use toshokan.Hakase.Trampoline.Bytes.{Directive, read, moved, Holds, data32, data64}
use toshokan.Hakase.Trampoline.Flags.{IsReset, IsLaidOut, IsLoaded}
use toshokan.Hakase.Trampoline.Arrival.{IsArrived, run_code-arrives}

-- All of them behind the 16 bytes of `entry16` and `addr`, and in the binary.
abbrev Inside : ℕ → List Directive → Type 0
Inside size [] = size ≡ size
Inside size (d ∷ ds) = (16 ≤ d.offset) × (d.offset + d.size ≤ size) × Inside size ds

-- The bytes that Loader16::Init has put into the page of the trampoline.
module _ (bytes code before : ℕ → ℕ) (size entry : ℕ)
    (there : (a : ℕ)
      → a < page_size
      → bytes (trampoline_addr + a) ≡ with_entry code size before entry a) where
  copied :
      (a n : ℕ)
      → 16 ≤ a
      → a + n ≤ size
      → size ≤ page_size
      → read bytes (trampoline_addr + a) n ≡ read code a n
  unfolding read
  copied a zero lo hi fits = refl
  copied a (suc n) lo hi fits =
      let byte : bytes (trampoline_addr + a) ≡ code a = there a (omega arith) ∙ ground arith in
      let rest : read bytes (trampoline_addr + a + 1) n ≡ read code (a + 1) n =
        moved bytes n (copied (a + 1) n (omega arith) (omega arith) fits) (omega arith) in
      omega (arith, byte, rest)

  entry_read : entry < 2 ^ 64 → read bytes (trampoline_addr + addr) 8 ≡ entry
  unfolding read
  entry_read h = omega (
    arith,
    there 8 (omega arith),
    there 9 (omega arith),
    there 10 (omega arith),
    there 11 (omega arith),
    there 12 (omega arith),
    there 13 (omega arith),
    there 14 (omega arith),
    there 15 (omega arith),
  )

  Holds-copied :
      (ds : List Directive)
      → size ≤ page_size
      → Inside size ds
      → Holds code 0 ds
      → Holds bytes trampoline_addr ds
  Holds-copied [] fits ins h = refl
  Holds-copied (d ∷ ds) fits (lo, hi, ins) (h, hs) = (
    copied d.offset d.size lo hi fits ∙ moved code d.size h (omega arith),
    Holds-copied ds fits ins hs,
  )

inside32 : (l : Labels) (size : ℕ) → IsLaidOut l size → Inside size (data32 l)
inside32 l size w = ground (arith, w)

inside64 : (l : Labels) (size : ℕ) → IsLaidOut l size → Inside size (data64 l)
inside64 l size w = ground (arith, w)

module _ (t : Setting) (p : Process) (entry : ℕ) (w : t.friend16_bin_size ≤ page_size) where
  init_lem :
      t.bootmem_opens ≡ true
      → t.bootmem_maps ≡ true
      → loader16_init t entry p ≡ (
        pos 0,
        record p {
          trampoline = with_entry t.friend16_bin t.friend16_bin_size p.trampoline entry;
          tables = init_page_tables t.places p.tables;
        },
      )
  unfolding loader16_init
  init_lem opens maps =
      let fits : ltb page_size t.friend16_bin_size ≡ false = ground arith in
      rw (loader16_init, fits, opens, maps) refl

physical_paged :
    (m : Memory) (p : Processor) (a : ℕ)
    → bit_of 31 p.cr0 ≡ 1
    → bit_of 8 p.efer ≡ 1
    → physical m p a ≡ walk m.tables p.cr3 a
unfolding physical
physical_paged m p a pg lme = rw (physical, pg, lme) refl

-- Loader16::Init returns 0 if the file of the boot memory can be opened and mapped and the binary of
-- the trampoline fits its page. If that binary holds the data of friend_boot16.S, its code being
-- what a core runs at the labels, the first of the page tables is at INITIAL_PML4T and the others on pages of their own, then a core that gets
-- a startup IPI for memory with what Init has written comes without a fault to `entry`, an address of
-- the memory of the friend cores, in 64-bit mode; and there the next instruction is fetched from
-- physical address `entry`.
pub loader16_init-arrives :
    (t : Setting) (p : Process) (entry : ℕ) (l : Labels) (m : Memory) (cpu : Processor)
    → IsLaidOut l t.friend16_bin_size
    → Holds t.friend16_bin 0 (data32 l)
    → Holds t.friend16_bin 0 (data64 l)
    → t.bootmem_opens ≡ true
    → t.bootmem_maps ≡ true
    → IsPlaced t.places
    → t.places.pml4t ≡ initial_pml4t
    → deploy_phys_addr_start ≤ entry
    → entry < deploy_phys_addr_end
    → ((a : ℕ) → m.bytes a < 2 ^ 8)
    → ((a : ℕ)
        → a < page_size
        → m.bytes (trampoline_addr + a) ≡ (loader16_init t entry p).1.trampoline a)
    → m.tables ≡ (loader16_init t entry p).1.tables
    → IsReset cpu
    → ((loader16_init t entry p).0 ≡ pos 0)
      × ((q : Processor) × (run_code run_fuel l m cpu ≡ some q)
          × IsArrived entry cpu q
          × (physical m q entry ≡ some entry))
loader16_init-arrives t p entry l m cpu w h₃₂ h₆₄ opens maps placed first lo hi small there led v =
    let e = init_lem t p entry w.size-le opens maps in
    let (q, runs, arrived) =
      run_code-arrives l m entry t.friend16_bin_size cpu v w loaded (omega arith) in
    (ap (λ (r : ℤ × Process). r.0) e, (q, runs, arrived, fetch q arrived))
  where
    there' :
        (a : ℕ)
        → a < page_size
        → m.bytes (trampoline_addr + a)
          ≡ with_entry t.friend16_bin t.friend16_bin_size p.trampoline entry a
    there' a h =
        there a h
        ∙ ap (λ (r : ℤ × Process). r.1.trampoline a) (init_lem t p entry w.size-le opens maps)

    led' : m.tables ≡ init_page_tables t.places p.tables
    led' = led ∙ ap (λ (r : ℤ × Process). r.1.tables) (init_lem t p entry w.size-le opens maps)

    loaded : IsLoaded l m entry
    loaded = record {
      are_bytes = small;
      holds32 =
          Holds-copied m.bytes t.friend16_bin p.trampoline t.friend16_bin_size entry there'
            (data32 l) w.size-le (inside32 l _ w) h₃₂;
      holds64 =
          Holds-copied m.bytes t.friend16_bin p.trampoline t.friend16_bin_size entry there'
            (data64 l) w.size-le (inside64 l _ w) h₆₄;
      holds_entry =
          entry_read m.bytes t.friend16_bin p.trampoline t.friend16_bin_size entry there'
            (omega arith);
      maps = λ a k. rw (led', sym first) (trampoline_identity t.places p.tables placed a k);
    }

    fetch : (q : Processor) → IsArrived entry cpu q → physical m q entry ≡ some entry
    fetch q v =
        physical_paged m q entry v.paged v.long_enabled
        ∙ rw (v.at_cr3, led', sym first) (friend_identity t.places p.tables placed entry lo hi)
