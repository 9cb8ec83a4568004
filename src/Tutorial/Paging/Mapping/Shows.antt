-- ===== src/Tutorial/Paging/Mapping/Shows.antt =====
-- What the program shows on the console, where it starts with the tables that Loader16 has set up.
use toshokan.Base.{ℕ, ◌+◌, ◌≡◌, ◌≢◌, List, ◌∷◌, none, some, refl, arith}
use mathlib.Core.Option
use toshokan.Hakase.PageTables.Leads.{IsPage}
use toshokan.Tutorial.Cpu
use toshokan.Tutorial.Cpu.{Cpu, with_flags}
use toshokan.Tutorial.Cpu.Region.{IsLed, with_flags_lem}
use toshokan.Tutorial.Paging.Console.{System, memdata, prompt, skip_line, wait_input}
use toshokan.Tutorial.Paging.Console.Steps.{keeping, after, shown, show_memdata_lem, wait_input_lem}
use toshokan.Tutorial.Paging.Mapping.{
  vaddr1, vaddr2, vaddr3, map_first, remap, map_others, friend_main,
}

-- Before the program runs: its pages are apart, and `%cr3` leads to `__toshokan_pdpt`.
pub record IsBooted (c : Cpu) (pdpt pd pt : ℕ) : Type 0 where
  pub pdpt_page : IsPage pdpt
  pub pd_page : IsPage pd
  pub pt_page : IsPage pt
  pub cr3-ne-pdpt : c.cr3 ≢ pdpt
  pub cr3-ne-pd : c.cr3 ≢ pd
  pub cr3-ne-pt : c.cr3 ≢ pt
  pub pdpt-ne-pd : pdpt ≢ pd
  pub pdpt-ne-pt : pdpt ≢ pt
  pub pd-ne-pt : pd ≢ pt
  pub to_pdpt : c.tables c.cr3 0 ≡ pdpt + 7

map_first_lem :
    (s : System) (pdpt pd pt : ℕ) (keys : List ℕ)
    → IsBooted s.cpu pdpt pd pt
    → s.cpu.tlb 0x8_0000 ≡ none
    → skip_line s.keys ≡ some keys
    → let led =
        Cpu.store_entry pt 0
          (with_flags 0x1_0000_0000)
          (Cpu.store_entry pd 0 (with_flags pt) (Cpu.store_entry pdpt 2 (with_flags pd) s.cpu)) in
      IsLed led pdpt pd pt
      × (map_first pdpt pd pt s
          ≡ some (record s {
            cpu = keeping vaddr1 0x1_0000_0000 led;
            keys = keys;
            output = prompt 1 3 ∷ memdata vaddr1 (s.words 0x1_0000_0000) ∷ s.output;
          }))
unfolding map_first
map_first_lem s pdpt pd pt keys b t k =
    let led =
      Cpu.store_entry pt 0 (with_flags 0x1_0000_0000)
        (Cpu.store_entry pd 0 (with_flags pt) (Cpu.store_entry pdpt 2 (with_flags pd) s.cpu)) in
    let v : IsLed led pdpt pd pt =
      ground (arith, with_flags_lem pd b.pd_page, with_flags_lem pt b.pt_page) in
    (
      v,
      after _
          (show_memdata_lem (record s { cpu = led }) v 0 0x1_0000_0000 (omega arith)
            (omega arith, omega arith) (ground arith) t)
          (wait_input_lem _ 3 1 keys k),
    )

remap_lem :
    (s : System) (pdpt pd pt : ℕ) (keys : List ℕ)
    → IsLed s.cpu pdpt pd pt
    → skip_line s.keys ≡ some keys
    → let led = Cpu.invlpg vaddr1 (Cpu.store_entry pt 0 (with_flags 0x1_0000_1000) s.cpu) in
      IsLed led pdpt pd pt
      × (remap pt s
          ≡ some (record s {
            cpu = keeping vaddr1 0x1_0000_1000 led;
            keys = keys;
            output = prompt 2 3 ∷ memdata vaddr1 (s.words 0x1_0000_1000) ∷ s.output;
          }))
unfolding remap
remap_lem s pdpt pd pt keys h k =
    let led = Cpu.invlpg vaddr1 (Cpu.store_entry pt 0 (with_flags 0x1_0000_1000) s.cpu) in
    let v : IsLed led pdpt pd pt = ground arith in
    (
      v,
      after _
          (show_memdata_lem (record s { cpu = led }) v 0 0x1_0000_1000 (omega arith)
            (omega arith, omega arith) (ground arith) refl)
          (wait_input_lem _ 3 2 keys k),
    )

map_others_lem :
    (s : System) (pdpt pd pt : ℕ) (keys : List ℕ)
    → IsLed s.cpu pdpt pd pt
    → s.cpu.tlb 0x8_0001 ≡ none
    → s.cpu.tlb 0x8_0002 ≡ none
    → skip_line s.keys ≡ some keys
    → let led =
        Cpu.store_entry pt 2
          (with_flags 0x1_0000_1000)
          (Cpu.store_entry pt 1 (with_flags 0x1_0000_0000) s.cpu) in
      map_others pt s
      ≡ some (record s {
        cpu = keeping vaddr3 0x1_0000_1000 (keeping vaddr2 0x1_0000_0000 led);
        keys = keys;
        output =
            prompt 3 3
            ∷ memdata vaddr3 (s.words 0x1_0000_1000)
            ∷ memdata vaddr2 (s.words 0x1_0000_0000)
            ∷ s.output;
      })
unfolding map_others
map_others_lem s pdpt pd pt keys h t₁ t₂ k =
    let led =
      Cpu.store_entry pt 2 (with_flags 0x1_0000_1000)
        (Cpu.store_entry pt 1 (with_flags 0x1_0000_0000) s.cpu) in
    let v : IsLed led pdpt pd pt = ground arith in
    let w : IsLed (keeping vaddr2 0x1_0000_0000 led) pdpt pd pt = ground arith in
    let s₁ = record s {
      cpu = keeping vaddr2 0x1_0000_0000 led;
      output = memdata vaddr2 (s.words 0x1_0000_0000) ∷ s.output;
    } in
    let a =
      show_memdata_lem (record s { cpu = led }) v 1 0x1_0000_0000 (omega arith)
        (omega arith, omega arith) (ground arith) t₁ in
    let b =
      show_memdata_lem s₁ w 2 0x1_0000_1000 (omega arith) (omega arith, omega arith) (ground arith)
        t₂ in
    after _ a (after (wait_input 3 3) b (wait_input_lem _ 3 3 keys k))

-- The program ends, where its tables are pages apart from each other and from that of `%cr3`, which
-- leads to the first, the input has three lines, and no translation of its three pages is kept before.
-- It shows the first of the two pages, the second at the same address, which it has mapped to the
-- other page and invalidated, and then each of the two at an address of its own.
pub friend_main-shows :
    (s : System) (pdpt pd pt : ℕ) (keys₁ keys₂ keys₃ : List ℕ)
    → IsBooted s.cpu pdpt pd pt
    → s.cpu.tlb 0x8_0000 ≡ none
    → s.cpu.tlb 0x8_0001 ≡ none
    → s.cpu.tlb 0x8_0002 ≡ none
    → skip_line s.keys ≡ some keys₁
    → skip_line keys₁ ≡ some keys₂
    → skip_line keys₂ ≡ some keys₃
    → Option.map (λ s'. s'.output) (friend_main pdpt pd pt s)
      ≡ some (
          prompt 3 3
          ∷ memdata vaddr3 (s.words 0x1_0000_1000)
          ∷ memdata vaddr2 (s.words 0x1_0000_0000)
          ∷ prompt 2 3
          ∷ memdata vaddr1 (s.words 0x1_0000_1000)
          ∷ prompt 1 3
          ∷ memdata vaddr1 (s.words 0x1_0000_0000)
          ∷ s.output)
unfolding friend_main
friend_main-shows s pdpt pd pt keys₁ keys₂ keys₃ b t₀ t₁ t₂ k₁ k₂ k₃ =
    let (v, e) = map_first_lem s pdpt pd pt keys₁ b t₀ k₁ in
    let (w, d) = remap_lem _ pdpt pd pt keys₂ (ground arith) k₂ in
    let f = map_others_lem _ pdpt pd pt keys₃ (ground arith) t₁ t₂ k₃ in
    shown (friend_main pdpt pd pt s) (after _ e (after (map_others pt) d f))
