-- ===== src/Tutorial/Paging/Hierarchy/Aliases.antt =====
-- The two addresses of one page.
use toshokan.Base.{
  ℕ, ◌+◌, ◌*◌, ◌/◌, ◌%◌, ◌^◌, ◌≡◌, ◌≢◌, ◌<◌, List, Option, some, refl, ap, ◌∙◌, arith,
}
use mathlib.Core.Option
use toshokan.Hakase.PageTables.{PhysMem}
use toshokan.Hakase.PageTables.Walk.{walk}
use toshokan.Hakase.PageTables.Leads.{IsPage, table_entry, walk_to_page}
use toshokan.Tutorial.Cpu
use toshokan.Tutorial.Cpu.{Cpu, with_flags}
use toshokan.Tutorial.Cpu.Region.{with_flags_lem}
use toshokan.Tutorial.Paging.Console.{System, skip_line}
use toshokan.Tutorial.Paging.Console.Steps.{after, wait_input_lem}
use toshokan.Tutorial.Paging.Mapping.Shows.{IsBooted}
use toshokan.Tutorial.Paging.Hierarchy.{friend_main}

-- The core after the first part, and after both.
abbrev first : ℕ → ℕ → ℕ → Cpu → Cpu
first pdpt pd pt1 c =
    Cpu.store_entry pt1 0 (with_flags 0x1_0000_0000)
      (Cpu.store_entry pd 0 (with_flags pt1) (Cpu.store_entry pdpt 2 (with_flags pd) c))

abbrev both : ℕ → ℕ → ℕ → ℕ → Cpu → Cpu
both pdpt pd pt1 pt2 c =
    Cpu.store_entry pt2 0 (with_flags 0x1_0000_0000)
      (Cpu.store_entry pd 1 (with_flags pt2) (first pdpt pd pt1 c))

abbrev pub walks : ℕ → System → Option ℕ × Option ℕ
walks o s =
    (walk s.cpu.tables s.cpu.cr3 (0x8000_0000 + o), walk s.cpu.tables s.cpu.cr3 (0x8020_0000 + o))

leads_to_page :
    (m : PhysMem) {pml4t pdpt pd pt f : ℕ} (j o : ℕ)
    → j < 512
    → o < 2 ^ 12
    → m pml4t 0 ≡ pdpt + 7
    → IsPage pdpt
    → m pdpt 2 ≡ pd + 7
    → IsPage pd
    → m pd j ≡ pt + 7
    → IsPage pt
    → m pt 0 ≡ f + 7
    → IsPage f
    → walk m pml4t (0x8000_0000 + j * 2 ^ 21 + o) ≡ some (f + o)
leads_to_page m {pdpt = p} {pd = d} {pt = t} {f = f} j o h k a pa b pb c pc e pe =
    let va = 0x8000_0000 + j * 2 ^ 21 + o in
    let i₀ : va / 2 ^ 39 % 512 ≡ 0 = omega arith in
    let i₁ : va / 2 ^ 30 % 512 ≡ 2 = omega arith in
    let i₂ : va / 2 ^ 21 % 512 ≡ j = omega arith in
    let i₃ : va / 2 ^ 12 % 512 ≡ 0 = omega arith in
    let r : va % 2 ^ 12 ≡ o = omega arith in
    let (t₁, t₂, t₃) = table_entry f pe in
    walk_to_page m {pdpt = p} {pd = d} {pt = t} va (rw i₀ a) pa (rw i₁ b) pb (rw i₂ c) pc
    ∙ rw (i₃, e, t₁, t₃, r) refl

-- The program ends, where the input has two lines, and then every byte of the page at 0x100000000 has
-- an address from 0x80000000 on and one from 0x80200000 on. pt2 is a page apart from the others.
pub friend_main-aliases :
    (s : System) (pdpt pd pt1 pt2 o : ℕ) (keys₁ keys₂ : List ℕ)
    → IsBooted s.cpu pdpt pd pt1
    → IsBooted s.cpu pdpt pd pt2
    → pt1 ≢ pt2
    → o < 2 ^ 12
    → skip_line s.keys ≡ some keys₁
    → skip_line keys₁ ≡ some keys₂
    → Option.map (walks o) (friend_main pdpt pd pt1 pt2 s)
      ≡ some (some (0x1_0000_0000 + o), some (0x1_0000_0000 + o))
unfolding friend_main
friend_main-aliases s pdpt pd pt1 pt2 o keys₁ keys₂ b b₂ n h k₁ k₂ =
    let ends : friend_main pdpt pd pt1 pt2 s ≡ _ =
      after _ (wait_input_lem (record s { cpu = first pdpt pd pt1 s.cpu }) 2 1 keys₁ k₁)
        (wait_input_lem _ 2 2 keys₂ k₂) in
    ap (Option.map (walks o)) ends ∙ ap some mapped
  where
    c : Cpu
    c = both pdpt pd pt1 pt2 s.cpu

    page : IsPage 0x1_0000_0000
    page = (omega arith, omega arith)

    to_pdpt : c.tables c.cr3 0 ≡ pdpt + 7
    to_pdpt = ground arith

    to_pd : c.tables pdpt 2 ≡ pd + 7
    to_pd = ground (arith, with_flags_lem pd b.pd_page)

    to_pt1 : c.tables pd 0 ≡ pt1 + 7
    to_pt1 = ground (arith, with_flags_lem pt1 b.pt_page)

    to_pt2 : c.tables pd 1 ≡ pt2 + 7
    to_pt2 = ground (arith, with_flags_lem pt2 b₂.pt_page)

    frame1 : c.tables pt1 0 ≡ 0x1_0000_0000 + 7
    frame1 = ground arith

    frame2 : c.tables pt2 0 ≡ 0x1_0000_0000 + 7
    frame2 = ground arith

    mapped : walks o (record s { cpu = c }) ≡ (some (0x1_0000_0000 + o), some (0x1_0000_0000 + o))
    mapped =
        rw
          (
            leads_to_page c.tables 0 o (omega arith) h to_pdpt b.pdpt_page to_pd b.pd_page to_pt1
                b.pt_page frame1 page,
            leads_to_page c.tables 1 o (omega arith) h to_pdpt b.pdpt_page to_pd b.pd_page to_pt2
                b₂.pt_page frame2 page,
          )
          refl
