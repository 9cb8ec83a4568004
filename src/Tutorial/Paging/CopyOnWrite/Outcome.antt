-- ===== src/Tutorial/Paging/CopyOnWrite/Outcome.antt =====
-- The first part of the program on copy on write, and stores through translations that are kept.
use toshokan.Base.{
  ℕ, zero, suc, ◌+◌, ◌*◌, ◌/◌, ◌%◌, ◌^◌, ◌≡◌, ◌≤◌, ◌<◌, inl, refl, ap, ◌∙◌, true, none, some,
  if◌then◌else◌, update, arith,
}
use toshokan.Tutorial.Cpu.{translate}
use toshokan.Tutorial.Cpu.Region.{IsLed, with_flags_lem}
use toshokan.Tutorial.Idt.{Idt, setup_inthandler}
use toshokan.Tutorial.Paging.Mapping.Shows.{IsBooted}
use toshokan.Tutorial.Paging.CopyOnWrite
use toshokan.Tutorial.Paging.CopyOnWrite.{copy_words}
use toshokan.Tutorial.Paging.CopyOnWrite.Program.{
  State, Places, read_access, write_access, store_word, map_from, clear_pages, my_memcpy, set_up,
  copied_part, print,
}
use toshokan.Tutorial.Paging.CopyOnWrite.Coherent.{frame, page, Held, Coherent}
use toshokan.Tutorial.Paging.CopyOnWrite.Phases.{
  first, clear_words, copy_from_lem, clear_pages_lem, store_or_fault_lem,
}
use toshokan.Tutorial.Paging.CopyOnWrite.Shares.{
  OnlyTable, OnlyTable-then, OnlyTable-IsLed, within, map_from_lem,
}

-- A store through a translation that the core keeps, whatever the tables say.
store_word-Held :
    (s : State) (j x : ℕ)
    → Held s (256 + j)
    → j < 256
    → store_word (0x8010_0000 + j * 0x1000) x s
      ≡ some (record s { words = update s.words (first + 131072 + 512 * j) x })
unfolding store_word write_access read_access translate
store_word-Held s j x v h =
    let va = 0x8010_0000 + j * 0x1000 in
    let number : va / 2 ^ 12 ≡ page (256 + j) = omega arith in
    let offset : va % 2 ^ 12 ≡ 0 = omega arith in
    let kept : s.cpu.tlb (va / 2 ^ 12) ≡ some (frame (256 + j)) =
      ap s.cpu.tlb number ∙ v.at_frame in
    let may : s.writes (va / 2 ^ 12) ≡ true = ap s.writes number ∙ v.may_write in
    let there : (frame (256 + j) + 0) / 8 ≡ first + 131072 + 512 * j = omega arith in
    rw (store_word, write_access, read_access, translate, kept, may, offset, there) refl

pub clear_pages-Held :
    (f : ℕ) (p : Places) (idt : Idt) (n i : ℕ) (s : State)
    → ((j : ℕ) → i ≤ j → j < i + n → Held s (256 + j))
    → i + n ≤ 256
    → clear_pages (suc f) p idt n i s ≡ some (record s { words = clear_words n i s.words })
unfolding clear_pages clear_words
clear_pages-Held f p idt zero i s v h = refl
clear_pages-Held f p idt (suc n) i s v h =
    let e =
      store_or_fault_lem 0 0 0 f p idt (0x8010_0000 + i * 0x1000) 0 s _
        (store_word-Held s i 0 (v i (omega arith) (omega arith)) (omega arith)) in
    rw e (
      clear_pages-Held f p idt n (i + 1)
        (record s { words = update s.words (first + 131072 + 512 * i) 0 })
        (λ j a b.
          let z = v j (omega arith) (omega arith) in
          record { at_frame = z.at_frame; may_write = z.may_write })
        (omega arith))

two_halves :
    (j x y : ℕ)
    → j < 512
    → y ≡ (if within 256 0 j then frame j + 7 else x)
    → (if within 256 256 j then frame j + 7 else y) ≡ frame j + 7
two_halves j x y h e = ground arith

module _ (p : Places) (idt : Idt) (s : State) (b : IsBooted s.cpu p.pdpt p.pd p.pt)
    (free : (i : ℕ) → i < 512 → s.cpu.tlb (page i) ≡ none) where
  abbrev pub led : State
  unfolding set_up
  led = set_up p s

  -- All pages of the region mapped to their frames.
  mapped : State
  unfolding led map_from set_up
  mapped = map_from 256 256 p.pt (map_from 256 0 p.pt led)

  led-IsLed : IsLed led.cpu p.pdpt p.pd p.pt
  unfolding led set_up
  led-IsLed = ground (arith, with_flags_lem p.pd b.pd_page, with_flags_lem p.pt b.pt_page)

  mapped-only : OnlyTable p.pt led mapped
  unfolding mapped
  mapped-only =
      OnlyTable-then (map_from_lem p.pt 256 0 led (omega arith)).0
        (map_from_lem p.pt 256 256 (map_from 256 0 p.pt led) (omega arith)).0

  mapped-entries : (j : ℕ) → j < 512 → mapped.cpu.tables p.pt j ≡ frame j + 7
  unfolding mapped
  mapped-entries j h =
      (map_from_lem p.pt 256 256 (map_from 256 0 p.pt led) (omega arith)).1 j
      ∙ two_halves j _ _ h ((map_from_lem p.pt 256 0 led (omega arith)).1 j)

  mapped-Coherent : Coherent p.pdpt p.pd p.pt mapped
  unfolding led set_up
  mapped-Coherent = record {
    led = OnlyTable-IsLed p.pdpt p.pd p.pt led mapped mapped-only led-IsLed;
    mapped = mapped-entries;
    kept = λ i h. inl (ap (λ t. t (page i)) mapped-only.same_tlb ∙ free i h);
  }

  -- After the first part: the copy, and the first word of each page cleared.
  abbrev pub copied_words : ℕ → ℕ
  copied_words = clear_words 256 0 (CopyOnWrite.my_memcpy (first + 131072) first 0x10_0000 s.words)

  pub copied_part_lem :
      (f : ℕ)
      → (t : State) × (copied_part
            (suc f)
            p
            (setup_inthandler 14 p.idt_def p.int_handler idt)
            (map_from 256 0 p.pt led)
          ≡ some t)
        × (t.words ≡ copied_words)
        × (t.lines ≡ s.lines + 1)
        × ((i : ℕ) → i < 256 → Held t (256 + i))
  unfolding mapped copied_part my_memcpy CopyOnWrite.my_memcpy led set_up
  copied_part_lem f =
      let idt' = setup_inthandler 14 p.idt_def p.int_handler idt in
      let (t, e, l) = copy_from_lem p.pdpt p.pd p.pt 131072 0 mapped mapped-Coherent in
      let (u, r, lu, held) =
        clear_pages_lem p.pdpt p.pd p.pt f p idt' 256 0 t l.coherent (omega arith) in
      (
        print u,
        rw (copied_part, e, r) refl,
        lu.words_are
            ∙ ap (λ (m : ℕ → ℕ). clear_words 256 0 m)
                (l.words_are
                  ∙ ap (λ m. copy_words 131072 0 (first + 131072) first 131072 m)
                      mapped-only.same_words),
        omega (arith, lu.same_lines, l.same_lines, mapped-only.same_lines),
        λ i h.
            let z = held i (omega arith) (omega arith) in
            record { at_frame = z.at_frame; may_write = z.may_write },
      )
