-- ===== src/Tutorial/Paging/Console/Steps.antt =====
-- What the steps do in the region that a program has led through its own tables.
use toshokan.Base.{
  ℕ, ◌+◌, ◌*◌, ◌/◌, ◌%◌, ◌^◌, ◌≡◌, ◌<◌, List, ◌∷◌, Option, none, some, refl, ap, sym, ◌∙◌, update,
  arith,
}
use mathlib.Core.Option
use toshokan.Hakase.PageTables.Walk.{walk}
use toshokan.Hakase.PageTables.Leads.{IsPage, table_entry}
use toshokan.Tutorial.Cpu.{Cpu, translate}
use toshokan.Tutorial.Cpu.Region.{IsLed, walk-region}
use toshokan.Tutorial.Paging.Console.{
  System, Step, and_then, memdata, prompt, show_memdata, skip_line, wait_input,
}

-- One step after another.
pub after : {o r : Option System} {t : System} (g : Step) → o ≡ some t → g t ≡ r → and_then o g ≡ r
after g p q = rw p q

pub shown :
    (o : Option System) {t : System} → o ≡ some t → Option.map (λ s. s.output) o ≡ some t.output
shown o p = ap (Option.map (λ s. s.output)) p

-- A page whose frame is `f`, and whose translation the core does not keep.
pub walk-frame :
    (c : Cpu) {pdpt pd pt : ℕ}
    → IsLed c pdpt pd pt
    → (i f o : ℕ) → i < 512
    → o < 2 ^ 12
    → IsPage f
    → c.tables pt i ≡ f + 7
    → walk c.tables c.cr3 (0x8000_0000 + i * 2 ^ 12 + o) ≡ some (f + o)
walk-frame c v i f o h k p e =
    let (t₁, t₂, t₃) = table_entry f p in
    let off : (0x8000_0000 + i * 2 ^ 12 + o) % 2 ^ 12 ≡ o = omega arith in
    walk-region c v i o h k ∙ rw (e, t₁, t₃, off) refl

-- The core after an access to `va`, in a page whose frame is `f`.
abbrev pub keeping : ℕ → ℕ → Cpu → Cpu
keeping va f c = record c { tlb = update c.tlb (va / 2 ^ 12) (some f) }

-- An access to the start of a page whose translation the core does not keep.
pub translate-walk :
    (c : Cpu) (va f : ℕ)
    → c.tlb (va / 2 ^ 12) ≡ none
    → walk c.tables c.cr3 va ≡ some f
    → IsPage f
    → va % 2 ^ 12 ≡ 0
    → translate va c ≡ some (f, keeping va f c)
unfolding translate
translate-walk c va f t w p a =
    let b : f / 2 ^ 12 * 2 ^ 12 ≡ f = omega arith in rw (translate, t, w, b) refl

pub show_walk :
    (s : System) (va f : ℕ)
    → s.cpu.tlb (va / 2 ^ 12) ≡ none
    → walk s.cpu.tables s.cpu.cr3 va ≡ some f
    → IsPage f
    → va % 2 ^ 12 ≡ 0
    → show_memdata va s
      ≡ some (record s { cpu = keeping va f s.cpu; output = memdata va (s.words f) ∷ s.output })
unfolding show_memdata
show_walk s va f t w p a = rw (show_memdata, translate-walk s.cpu va f t w p a) refl

pub show_memdata_lem :
    (s : System) {pdpt pd pt : ℕ}
    → IsLed s.cpu pdpt pd pt
    → (i f : ℕ) → i < 512
    → IsPage f
    → s.cpu.tables pt i ≡ f + 7
    → s.cpu.tlb ((0x8000_0000 + i * 2 ^ 12) / 2 ^ 12) ≡ none
    → let va = 0x8000_0000 + i * 2 ^ 12 in
      show_memdata va s
      ≡ some (record s { cpu = keeping va f s.cpu; output = memdata va (s.words f) ∷ s.output })
show_memdata_lem s v i f h p e t =
    let a : 0x8000_0000 + i * 2 ^ 12 + 0 ≡ 0x8000_0000 + i * 2 ^ 12 = omega arith in
    let b : f + 0 ≡ f = omega arith in
    let w =
      ap (λ t. walk s.cpu.tables s.cpu.cr3 t) (sym a)
      ∙ walk-frame s.cpu v i f 0 h (omega arith) p e
      ∙ ap some b in
    show_walk s (0x8000_0000 + i * 2 ^ 12) f t w p (omega arith)

pub wait_input_lem :
    (s : System) (n i : ℕ) (keys : List ℕ)
    → skip_line s.keys ≡ some keys
    → wait_input n i s ≡ some (record s { keys = keys; output = prompt i n ∷ s.output })
unfolding wait_input
wait_input_lem s n i keys e = rw (wait_input, e) refl
