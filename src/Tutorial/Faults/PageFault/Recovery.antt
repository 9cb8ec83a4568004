-- ===== src/Tutorial/Faults/PageFault/Recovery.antt =====
-- How the access to the page that is not mapped ends.
use toshokan.Base.{
  ℕ, suc, ◌^◌, ◌≡◌, ◌≢◌, ◌<◌, List, ◌∷◌, none, some, refl, ap, ◌∙◌, false, ◌==◌, if◌then◌else◌,
  ℕ_discrete, arith,
}
use toshokan.Hakase.PageTables.Walk.{walk}
use toshokan.Tutorial.Cpu
use toshokan.Tutorial.Cpu.{Cpu, translate, with_flags}
use toshokan.Tutorial.Cpu.Region.{IsLed, walk-region, with_flags_lem}
use toshokan.Tutorial.Idt.{Idt, setup_inthandler}
use toshokan.Tutorial.Faults.{
  Handling, Outcome, ended, still_faulting, map_outcome, wait_input, retry, deliver,
}
use toshokan.Tutorial.Faults.Retries.{retry-same, retry-mended, deliver_lem}
use toshokan.Tutorial.Faults.PageFault.{
  Places, vaddr, with_word, clear_entry, int_handler1, int_handler2, friend_main,
}
use toshokan.Tutorial.Paging.Console.{System, Line, memdata}
use toshokan.Tutorial.Paging.Console.Steps.{walk-frame, keeping, translate-walk}
use toshokan.Tutorial.Paging.Mapping.Shows.{IsBooted}

translate-fault :
    (c : Cpu) → c.tlb 0x8_0000 ≡ none → walk c.tables c.cr3 vaddr ≡ none → translate vaddr c ≡ none
unfolding translate
translate-fault c t w = rw (translate, t, w) refl

-- Before the access the page is led to, and not mapped.
cleared :
    (p : Places) (c : Cpu)
    → IsBooted c p.pdpt p.pd p.pt
    → c.tlb 0x8_0000 ≡ none
    → IsLed (clear_entry p c) p.pdpt p.pd p.pt × (translate vaddr (clear_entry p c) ≡ none)
cleared p c b t =
    let v : IsLed (clear_entry p c) p.pdpt p.pd p.pt =
      ground (arith, with_flags_lem p.pd b.pd_page, with_flags_lem p.pt b.pt_page) in
    let z : (clear_entry p c).tables p.pt 0 ≡ 0 = ground arith in
    (
      v,
      translate-fault (clear_entry p c) t
          (walk-region (clear_entry p c) v 0 0 (omega arith) (omega arith) ∙ rw z refl),
    )

-- After the second handler it lies at 0x100000000.
mended :
    (c : Cpu) {pdpt pd pt : ℕ}
    → IsLed c pdpt pd pt
    → let m = Cpu.invlpg vaddr (Cpu.store_entry pt 0 (with_flags 0x1_0000_0000) c) in
      translate vaddr m ≡ some (0x1_0000_0000, keeping vaddr 0x1_0000_0000 m)
mended c {pdpt = q} {pd = d} {pt = pt} v =
    let m = Cpu.invlpg vaddr (Cpu.store_entry pt 0 (with_flags 0x1_0000_0000) c) in
    let w : IsLed m q d pt = ground arith in
    translate-walk m vaddr 0x1_0000_0000 refl
      (walk-frame m w 0 0x1_0000_0000 0 (omega arith) (omega arith) (omega arith, omega arith)
        (ground arith))
      (omega arith, omega arith) refl

-- The tables are pages apart, and `%cr3` leads to the first; the two handlers stand at two addresses
-- of 64 bits, as does the table of gates, and the core keeps no translation of the page. With the
-- first choice the access still faults when the fuel is used up, however much it is, and the core
-- does not stop; with the second the handler maps the page, the access ends at its second try, and
-- the program shows the word at 0x100000000.
pub friend_main-recovers :
    (f i : ℕ) (p : Places) (t : Idt) (s : System) (keys : List ℕ)
    → IsBooted s.cpu p.pdpt p.pd p.pt
    → s.cpu.tlb 0x8_0000 ≡ none
    → p.idt_def < 2 ^ 64
    → p.handler1 < 2 ^ 64
    → p.handler2 < 2 ^ 64
    → p.handler1 ≢ p.handler2
    → wait_input s.keys ≡ some (i, keys)
    → map_outcome (λ s. s.output) (friend_main (suc (suc f)) p t s) ≡ (
        if i == 1 then still_faulting else ended (memdata vaddr (s.words 0x1_0000_0000) ∷ s.output))
unfolding friend_main
friend_main-recovers f i p t s keys b u d h₁ h₂ n e = rw (friend_main, e) (split (ℕ_discrete i 1))
  where
    start : Cpu
    start = clear_entry p s.cpu

    delivers : ℕ → Cpu → Handling Cpu
    delivers at =
        deliver 14 p.handler1 p.handler2 int_handler1 (int_handler2 p.pt)
          (setup_inthandler 14 p.idt_def at t)

    show : Outcome (ℕ × Cpu) → Outcome (List Line)
    show o = map_outcome (λ s. s.output) (map_outcome (with_word keys s) o)

    at_handler :
        (delivers p.handler1 start ≡ int_handler1 start)
        × (delivers p.handler2 start ≡ int_handler2 p.pt start)
    at_handler =
        deliver_lem int_handler1 (int_handler2 p.pt) t 14 p.idt_def p.handler1 p.handler2
          (omega arith) d h₁ h₂ n start

    split :
        Dec (i ≡ 1)
        → show (
            retry
              (translate vaddr)
              (delivers (if i == 1 then p.handler1 else p.handler2))
              (suc (suc f))
              start)
          ≡ (if i == 1
              then still_faulting
              else ended (memdata vaddr (s.words 0x1_0000_0000) ∷ s.output))
    split (yes x) = rw x (
        ap show (
          retry-same (translate vaddr) (delivers p.handler1) (suc (suc f)) start
            (cleared p s.cpu b u).1 at_handler.0))
    split (no x) =
        let z : (i == 1) ≡ false = ground arith in
        rw z (
          ap show (
            retry-mended (translate vaddr) (delivers p.handler2) f start _ _ (cleared p s.cpu b u).1
              at_handler.1 (mended start (cleared p s.cpu b u).0)))
