-- ===== src/Tutorial/Paging/AddressSpace/Shows.antt =====
-- What the program has mapped and shown when it halts.
use toshokan.Base.{
  ℕ, ◌+◌, ◌/◌, ◌%◌, ◌^◌, ◌≡◌, ◌≢◌, ◌<◌, List, ◌∷◌, Option, none, some, refl, ap, ◌∙◌, arith,
}
use mathlib.Core.Option
use toshokan.Hakase.PageTables.Walk.{walk}
use toshokan.Hakase.PageTables.Leads.{IsPage, walk_to_huge}
use toshokan.Tutorial.Cpu
use toshokan.Tutorial.Cpu.{Cpu, with_flags, translate}
use toshokan.Tutorial.Cpu.Region.{with_flags_lem}
use toshokan.Tutorial.Paging.Console.{Line, System, memdata, ready}
use toshokan.Tutorial.Paging.Console.Steps.{after, show_walk}
use toshokan.Tutorial.Paging.AddressSpace.{vaddr, with_huge_flags, friend_main}

abbrev mapped : ℕ → ℕ → Cpu → Cpu
mapped pdpt pd c =
    Cpu.store_entry pd 0 (with_huge_flags 0x1_0000_0000) (Cpu.store_entry pdpt 2 (with_flags pd) c)

walk-mapped :
    (c : Cpu) (pdpt pd o : ℕ)
    → IsPage pdpt
    → IsPage pd
    → c.cr3 ≢ pdpt
    → c.cr3 ≢ pd
    → pdpt ≢ pd
    → c.tables c.cr3 0 ≡ pdpt + 7
    → o < 2 ^ 21
    → walk (mapped pdpt pd c).tables c.cr3 (0x8000_0000 + o) ≡ some (0x1_0000_0000 + o)
walk-mapped c pdpt pd o p q n₁ n₂ n₃ t h =
    let va = 0x8000_0000 + o in
    let m = (mapped pdpt pd c).tables in
    let i₀ : va / 2 ^ 39 % 512 ≡ 0 = omega arith in
    let i₁ : va / 2 ^ 30 % 512 ≡ 2 = omega arith in
    let i₂ : va / 2 ^ 21 % 512 ≡ 0 = omega arith in
    let r : va % 2 ^ 21 ≡ o = omega arith in
    let e₀ : m c.cr3 0 ≡ pdpt + 7 = ground arith in
    let e₁ : m pdpt 2 ≡ pd + 7 = ground (arith, with_flags_lem pd q) in
    let e₂ : m pd 0 ≡ 0x1_0000_0000 + 0x87 = ground arith in
    walk_to_huge m {pdpt = pdpt} {pd = pd} {page = 0x1_0000_0000} va (rw i₀ e₀) p (rw i₁ e₁) q
      (rw i₂ e₂) refl (omega arith)
    ∙ rw r refl

-- What is on the console, and where the byte `o` of the 2 MB lies.
abbrev pub shown : ℕ → System → List Line × Option ℕ
shown o s = (s.output, walk s.cpu.tables s.cpu.cr3 (0x8000_0000 + o))

-- The program gets to its end, shows the word at 0x100000000 and "ready", and the 2 MB from 0x80000000
-- on lie from 0x100000000 on. Its two tables are pages apart from each other and from that of `%cr3`,
-- which leads to the first, and the core keeps no translation of the page.
pub friend_main-maps :
    (s : System) (pdpt pd o : ℕ)
    → IsPage pdpt
    → IsPage pd
    → s.cpu.cr3 ≢ pdpt
    → s.cpu.cr3 ≢ pd
    → pdpt ≢ pd
    → s.cpu.tables s.cpu.cr3 0 ≡ pdpt + 7
    → s.cpu.tlb 0x8_0000 ≡ none
    → o < 2 ^ 21
    → Option.map (shown o) (friend_main pdpt pd s)
      ≡ some (ready ∷ memdata vaddr (s.words 0x1_0000_0000) ∷ s.output, some (0x1_0000_0000 + o))
unfolding friend_main
friend_main-maps s pdpt pd o p q n₁ n₂ n₃ t u h =
    let w₀ = walk-mapped s.cpu pdpt pd 0 p q n₁ n₂ n₃ t (omega arith) in
    let w = walk-mapped s.cpu pdpt pd o p q n₁ n₂ n₃ t h in
    let a =
      show_walk (record s { cpu = mapped pdpt pd s.cpu }) vaddr 0x1_0000_0000 u w₀
        (omega arith, omega arith) refl in
    ap (Option.map (shown o)) (after _ a refl)
    ∙ ap (λ at. some (ready ∷ memdata vaddr (s.words 0x1_0000_0000) ∷ s.output, at)) w
