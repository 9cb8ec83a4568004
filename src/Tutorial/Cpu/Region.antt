-- ===== src/Tutorial/Cpu/Region.antt =====
-- The 2 MB from 0x80000000 on, which each of the programs has led through tables of its own.
use Prim.Native.Nat.{bit_or}
use toshokan.Base.{
  ℕ, ◌+◌, ◌*◌, ◌/◌, ◌%◌, ◌^◌, ◌≡◌, ◌≢◌, ◌<◌, Bool, Option, none, some, true, false, refl, ap, ◌∙◌,
  update, if◌then◌else◌, arith,
}
use mathlib.Core.Option
use toshokan.Base.Words.{bit_or_low}
use toshokan.Hakase.PageTables.Walk.{walk, present, table_of}
use toshokan.Hakase.PageTables.Leads.{IsPage, page_at, table_entry, walk_to_page}
use toshokan.Tutorial.Cpu.{Cpu, with_flags, store_entry}

-- Flags in the low bits of an entry.
pub add_bit : (a r m : ℕ) → IsPage a → r < 2 ^ 12 → m < 2 ^ 12 → bit_or (a + r) m ≡ a + bit_or r m
add_bit a r m h p q =
    let e : a ≡ 2 ^ 12 * (a / 2 ^ 12) = omega arith in rw e (bit_or_low 12 (a / 2 ^ 12) r m p q)

pub with_flags_lem : (a : ℕ) → IsPage a → with_flags a ≡ a + 7
with_flags_lem a h =
    let b₁ = add_bit a 0 1 h (omega arith) (omega arith) in
    let b₂ = add_bit a 1 2 h (omega arith) (omega arith) in
    let b₄ = add_bit a 3 4 h (omega arith) (omega arith) in
    let e : a ≡ a + 0 = omega arith in ap (λ (t : ℕ). with_flags t) e ∙ rw (b₁, b₂, b₄) refl

-- `pdpt`, `pd` and `pt` are what three tables below that of `%cr3` lead through.
pub record IsLed (c : Cpu) (pdpt pd pt : ℕ) : Type 0 where
  pub pdpt_page : IsPage pdpt
  pub pd_page : IsPage pd
  pub pt_page : IsPage pt
  pub cr3-ne-pt : c.cr3 ≢ pt
  pub pdpt-ne-pt : pdpt ≢ pt
  pub pd-ne-pt : pd ≢ pt
  pub to_pdpt : c.tables c.cr3 0 ≡ pdpt + 7
  pub to_pd : c.tables pdpt 2 ≡ pd + 7
  pub to_pt : c.tables pd 0 ≡ pt + 7

pub walk-region :
    (c : Cpu) {pdpt pd pt : ℕ}
    → IsLed c pdpt pd pt
    → (i o : ℕ) → i < 512
    → o < 2 ^ 12
    → walk c.tables c.cr3 (0x8000_0000 + i * 2 ^ 12 + o)
      ≡ page_at (c.tables pt i) (0x8000_0000 + i * 2 ^ 12 + o)
walk-region c {pt = pt} v i o h k =
    let va = 0x8000_0000 + i * 2 ^ 12 + o in
    let a : va / 2 ^ 39 % 512 ≡ 0 = omega arith in
    let b : va / 2 ^ 30 % 512 ≡ 2 = omega arith in
    let d : va / 2 ^ 21 % 512 ≡ 0 = omega arith in
    let e : va / 2 ^ 12 % 512 ≡ i = omega arith in
    walk_to_page c.tables va (rw a v.to_pdpt) v.pdpt_page (rw b v.to_pd) v.pd_page (rw d v.to_pt)
      v.pt_page
    ∙ ap (λ n. page_at (c.tables pt n) va) e

pub store_entry-IsLed :
    (c : Cpu) {pdpt pd pt : ℕ} (i e : ℕ)
    → IsLed c pdpt pd pt
    → IsLed (store_entry pt i e c) pdpt pd pt
store_entry-IsLed c i e v = ground arith

-- The specification: the region is a partial map of pages to frames.
abbrev pub frames : Cpu → ℕ → ℕ → Option ℕ
frames c pt i = if present (c.tables pt i) then some (table_of (c.tables pt i)) else none

-- In the region, the address that a walk comes to is the frame of the page and the offset in it.
pub walk-frames :
    (c : Cpu) {pdpt pd pt : ℕ}
    → IsLed c pdpt pd pt
    → (i o : ℕ) → i < 512
    → o < 2 ^ 12
    → walk c.tables c.cr3 (0x8000_0000 + i * 2 ^ 12 + o) ≡ Option.map (λ f. f + o) (frames c pt i)
walk-frames c {pt = pt} v i o h k =
    let e : (0x8000_0000 + i * 2 ^ 12 + o) % 2 ^ 12 ≡ o = omega arith in
    walk-region c v i o h k ∙ rw e (split (present (c.tables pt i)) (table_of (c.tables pt i)))
  where
    split :
        (b : Bool) (f : ℕ)
        → (if b then some (f + o) else none) ≡ Option.map (λ g. g + o) (if b then some f else none)
    split true f = refl
    split false f = refl

-- In the 2 MB from 0x80000000 on, where `%cr3` leads through tables apart from the last of them: to
-- store an entry for a frame, or 0, in the last table does to the region what an update of the
-- partial map at that page does, and nothing else.
pub store_entry-frames :
    (c : Cpu) {pdpt pd pt : ℕ}
    → IsLed c pdpt pd pt
    → (i f : ℕ) → IsPage f
    → (j o : ℕ) → j < 512
    → o < 2 ^ 12
    → let va = 0x8000_0000 + j * 2 ^ 12 + o in
      let mapped = store_entry pt i (with_flags f) c in
      let cleared = store_entry pt i 0 c in
      (walk mapped.tables mapped.cr3 va
        ≡ Option.map (λ g. g + o) (update (frames c pt) i (some f) j))
      × (walk cleared.tables cleared.cr3 va
          ≡ Option.map (λ g. g + o) (update (frames c pt) i none j))
store_entry-frames c {pt = pt} v i f p j o h k =
    let (t₁, t₂, t₃) = table_entry f p in
    (
      walk-frames _ (store_entry-IsLed c i (with_flags f) v) j o h k
          ∙ ap (Option.map (λ g. g + o)) (ground (arith, with_flags_lem f p)),
      walk-frames _ (store_entry-IsLed c i 0 v) j o h k
          ∙ ap (Option.map (λ g. g + o)) (ground arith),
    )
