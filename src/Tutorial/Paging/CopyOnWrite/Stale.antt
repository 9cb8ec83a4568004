-- ===== src/Tutorial/Paging/CopyOnWrite/Stale.antt =====
-- What the program on copy on write does where the core keeps the translations that it has made.
use toshokan.Base.{
  ℕ, suc, ◌+◌, ◌-◌, ◌/◌, ◌%◌, ◌≡◌, ◌<◌, inr, refl, ap, ◌∙◌, ◌&&◌, none, some, ◌==◌, if◌then◌else◌,
  dec_lt, arith,
}
use toshokan.Tutorial.Idt.{Idt, setup_inthandler}
use toshokan.Tutorial.Paging.Mapping.Shows.{IsBooted}
use toshokan.Tutorial.Paging.CopyOnWrite
use toshokan.Tutorial.Paging.CopyOnWrite.{copy_words}
use toshokan.Tutorial.Paging.CopyOnWrite.Words.{my_memcpy-words}
use toshokan.Tutorial.Paging.CopyOnWrite.Program.{
  State, Places, map_from, protect_from, share_from, clear_pages, set_up, copied_part, shared_part,
  friend_main, print,
}
use toshokan.Tutorial.Paging.CopyOnWrite.Coherent.{frame, page, Held}
use toshokan.Tutorial.Paging.CopyOnWrite.Phases.{first, clear_words}
use toshokan.Tutorial.Paging.CopyOnWrite.Shares.{
  OnlyTable, OnlyTable-then, within, protect_from_lem, share_from_lem, clear_words_lem,
  clear_words-below, copy_words-below,
}
use toshokan.Base.Options.{bind-some}
use toshokan.Tutorial.Paging.CopyOnWrite.Outcome.{clear_pages-Held, copied_part_lem}

-- The second part, from any state where the core keeps the pages that are written.
Held-OnlyTable : (pt i : ℕ) (s t : State) → OnlyTable pt s t → Held s i → Held t i
Held-OnlyTable pt i s t o v = record {
  at_frame = ap (λ m. m (page i)) o.same_tlb ∙ v.at_frame;
  may_write = ap (λ m. m (page i)) o.same_writes ∙ v.may_write;
}

shared_entry :
    (j : ℕ) (g : ℕ → ℕ)
    → j < 512
    → ((i : ℕ) → i < 256 → g i ≡ frame i + 5)
    → (if within 256 256 j then g (j - 256) else g j) ≡ frame (j % 256) + 5
shared_entry j g h e = elim (dec_lt j 256) [
  | yes l ↦ let a : j % 256 ≡ j = omega arith in let z = e j l in rw a (ground (arith, z))
  | no l ↦
      let a : j % 256 ≡ j - 256 = omega arith in
      let z = e (j - 256) (omega arith) in rw a (ground (arith, z))
]

shared_part_lem :
    (f : ℕ) (p : Places) (idt : Idt) (s : State)
    → ((i : ℕ) → i < 256 → Held s (256 + i))
    → (t : State) × (shared_part (suc f) p idt s ≡ some t)
      × (t.words ≡ clear_words 256 0 s.words)
      × (t.lines ≡ s.lines + 1)
      × ((j : ℕ) → j < 512 → t.cpu.tables p.pt j ≡ frame (j % 256) + 5)
unfolding shared_part
shared_part_lem f p idt s held =
    let protected = protect_from 256 0 p.pt s in
    let (o₁, e₁) = protect_from_lem p.pt 256 0 s (omega arith) in
    let shared = share_from 256 256 p.pt protected in
    let (o₂, e₂) = share_from_lem p.pt 256 256 protected (omega arith) (omega arith) in
    let o = OnlyTable-then o₁ o₂ in
    let cleared =
      clear_pages-Held f p idt 256 0 shared
        (λ j a b. Held-OnlyTable p.pt (256 + j) s shared o (held j (omega arith))) (omega arith) in
    (
      print (record shared { words = clear_words 256 0 shared.words }),
      bind-some (clear_pages (suc f) p idt 256 0 shared) (λ v. some (print v)) cleared refl,
      ap (λ (m : ℕ → ℕ). clear_words 256 0 m) o.same_words,
      omega (arith, o.same_lines),
      λ j h. e₂ j ∙ shared_entry j (protected.cpu.tables p.pt) h (λ i l. e₁ i ∙ read_only i _ l),
    )
  where
    read_only : (i x : ℕ) → i < 256 → (if within 256 0 i then frame i + 5 else x) ≡ frame i + 5
    read_only i x h = ground arith

-- What both parts leave of the words.
abbrev written : (ℕ → ℕ) → ℕ → ℕ
written m =
    clear_words 256 0 (clear_words 256 0 (CopyOnWrite.my_memcpy (first + 131072) first 0x10_0000 m))

words-below : (m : ℕ → ℕ) (k : ℕ) → k < 131072 → written m (first + k) ≡ m (first + k)
unfolding CopyOnWrite.my_memcpy
words-below m k h =
    let low : first + k < first + 131072 = omega arith in
    clear_words-below 256 0 (first + k) _ low
    ∙ clear_words-below 256 0 (first + k) _ low
    ∙ copy_words-below 131072 0 (first + 131072) first 131072 (first + k) m low

chosen :
    (k a b x y z : ℕ)
    → k < 131072
    → x ≡ (if k % 8 == 0 then a else b)
    → y ≡ (if k % 512 == 0 && within 256 0 (k / 512) then 0 else x)
    → z ≡ (if k % 512 == 0 && within 256 0 (k / 512) then 0 else y)
    → z ≡ (if k % 512 == 0 then 0 else if k % 8 == 0 then a else b)
chosen k a b x y z h p q r = ground arith

words-above :
    (m : ℕ → ℕ) (k : ℕ)
    → k < 131072
    → written m (first + 131072 + k)
      ≡ (if k % 512 == 0 then 0 else if k % 8 == 0 then m (first + k) else m (first + 131072 + k))
words-above m k h =
    chosen k (m (first + k)) (m (first + 131072 + k)) _ _ _ h
      (my_memcpy-words (first + 131072) first 0x10_0000 k m (inr (omega arith)) (omega arith))
      (clear_words_lem 256 0 k (CopyOnWrite.my_memcpy (first + 131072) first 0x10_0000 m))
      (clear_words_lem 256 0 k _)

-- The tables are pages apart, `%cr3` leads to the first, the core keeps no translation of the 2 MB
-- from 0x80000000 on, and keeps those that it makes. Whatever CR0.WP is and whatever the handler
-- would do, the program ends, with two lines printed; its second part writes through the
-- translations that the first has made: all 512 entries stay read-only and lead to the same 256
-- pages, none is copied, and the words of those pages are as they were. In the 1 MB behind, the first
-- word of each page is 0, of the others those that my_memcpy copies are those of the first 1 MB, and
-- the rest are as they were.
pub friend_main-stale :
    (f : ℕ) (p : Places) (idt : Idt) (s : State)
    → IsBooted s.cpu p.pdpt p.pd p.pt
    → ((i : ℕ) → i < 512 → s.cpu.tlb (page i) ≡ none)
    → (t : State) × (friend_main (suc f) p idt s ≡ some t)
      × (t.lines ≡ s.lines + 2)
      × ((j : ℕ) → j < 512 → t.cpu.tables p.pt j ≡ frame (j % 256) + 5)
      × ((k : ℕ)
          → k < 131072
          → (t.words (first + k) ≡ s.words (first + k))
            × (t.words (first + 131072 + k) ≡ (
                if k % 512 == 0
                then 0
                else if k % 8 == 0
                then s.words (first + k)
                else s.words (first + 131072 + k))))
unfolding friend_main
friend_main-stale f p idt s b free =
    let idt' = setup_inthandler 14 p.idt_def p.int_handler idt in
    let (u, e, w, l, held) = copied_part_lem p idt s b free f in
    let (t, r, x, m, entries) = shared_part_lem f p idt' u held in
    let words : t.words ≡ written s.words = x ∙ ap (λ (m : ℕ → ℕ). clear_words 256 0 m) w in
    (
      t,
      bind-some (copied_part (suc f) p idt' (map_from 256 0 p.pt (set_up p s)))
          (shared_part (suc f) p idt') e r,
      omega (arith, l, m),
      entries,
      λ k h. (
        ap (λ (w : ℕ → ℕ). w (first + k)) words ∙ words-below s.words k h,
        ap (λ (w : ℕ → ℕ). w (first + 131072 + k)) words ∙ words-above s.words k h,
      ),
    )
