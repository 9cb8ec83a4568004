-- ===== src/Tutorial/Paging/CopyOnWrite/Phases.antt =====
-- The loops of the program where all pages of the region are mapped and writable.
use toshokan.Base.{
  ℕ, zero, suc, ◌+◌, ◌*◌, ◌/◌, ◌%◌, ◌^◌, ◌≡◌, ◌≤◌, ◌<◌, inl, inr, refl, ap, sym, ◌∙◌, Bool-cases,
  some, ltb, update, ℕ_discrete, arith,
}
use toshokan.Tutorial.Idt.{Idt}
use toshokan.Tutorial.Faults.{retry}
use toshokan.Tutorial.Paging.CopyOnWrite.{copy_words}
use toshokan.Tutorial.Paging.CopyOnWrite.Program.{
  State, Places, read_access, write_access, load_word, store_word, copy_from, vaddr1, vaddr2,
  store_or_fault, clear_pages,
}
use toshokan.Tutorial.Paging.CopyOnWrite.Coherent.{frame, Held, Coherent, access_lem}

-- The number of the first word of the region, where it is mapped to.
abbrev pub first : ℕ
first = 0xA00_0000

-- The words that the stores to `n` pages from page `256 + i` on leave.
unfoldable pub clear_words : ℕ → ℕ → (ℕ → ℕ) → ℕ → ℕ
clear_words zero i m = m
clear_words (suc n) i m = clear_words n (i + 1) (update m (first + 131072 + 512 * i) 0)

module _ (pdpt pd pt : ℕ) where
  -- What a piece of the program does that leaves `words` in memory.
  pub record Leaves (s t : State) (words : ℕ → ℕ) : Type 0 where
    pub coherent : Coherent pdpt pd pt t
    pub words_are : t.words ≡ words
    pub same_lines : t.lines ≡ s.lines
    pub still_held : (i : ℕ) → i < 512 → Held s i → Held t i

  pub load_lem :
      (s : State) (k : ℕ)
      → Coherent pdpt pd pt s
      → k < 2 ^ 18
      → (t : State) × (load_word (0x8000_0000 + 8 * k) s ≡ some (s.words (first + k), t))
        × Leaves s t s.words
  unfolding load_word
  load_lem s k v h =
      let (t, e, _, g, _) =
        access_lem pdpt pd pt s v (k / 512) (8 * (k % 512)) (omega arith) (omega arith) in
      let at : 0x8000_0000 + k / 512 * 2 ^ 12 + 8 * (k % 512) ≡ 0x8000_0000 + 8 * k = omega arith in
      let there : (frame (k / 512) + 8 * (k % 512)) / 8 ≡ first + k = omega arith in
      let found : read_access (0x8000_0000 + 8 * k) s ≡ some (frame (k / 512) + 8 * (k % 512), t) =
        ap (λ a. read_access a s) (sym at) ∙ e in
      (
        t,
        rw (load_word, found, there, g.same_words) refl,
        record {
          coherent = g.coherent;
          words_are = g.same_words;
          same_lines = g.same_lines;
          still_held = g.still_held;
        },
      )

  pub store_lem :
      (s : State) (k x : ℕ)
      → Coherent pdpt pd pt s
      → k < 2 ^ 18
      → (t : State) × (store_word (0x8000_0000 + 8 * k) x s ≡ some t)
        × Leaves s t (update s.words (first + k) x)
        × Held t (k / 512)
  unfolding store_word
  store_lem s k x v h =
      let (t, _, e, g, held) =
        access_lem pdpt pd pt s v (k / 512) (8 * (k % 512)) (omega arith) (omega arith) in
      let at : 0x8000_0000 + k / 512 * 2 ^ 12 + 8 * (k % 512) ≡ 0x8000_0000 + 8 * k = omega arith in
      let there : (frame (k / 512) + 8 * (k % 512)) / 8 ≡ first + k = omega arith in
      let found : write_access (0x8000_0000 + 8 * k) s ≡ some (frame (k / 512) + 8 * (k % 512), t) =
        ap (λ a. write_access a s) (sym at) ∙ e in
      let u : State = record t { words = update t.words (first + k) x } in
      (
        u,
        rw (store_word, found, there) refl,
        record {
          coherent = record {
            led = g.coherent.led;
            mapped = g.coherent.mapped;
            kept = λ i l. elim (g.coherent.kept i l) [
              | inl z ↦ inl z
              | inr z ↦ inr (record { at_frame = z.at_frame; may_write = z.may_write })
            ];
          };
          words_are = ap (λ w. update w (first + k) x) g.same_words;
          same_lines = g.same_lines;
          still_held = λ i l z.
              let y = g.still_held i l z in
              record { at_frame = y.at_frame; may_write = y.may_write };
        },
        record { at_frame = held.at_frame; may_write = held.may_write },
      )

  -- The copy through the region does to memory what the copy of words does.
  pub copy_from_lem :
      (f i : ℕ) (s : State)
      → Coherent pdpt pd pt s
      → (t : State) × (copy_from f i vaddr2 vaddr1 131072 s ≡ some t)
        × Leaves s t (copy_words f i (first + 131072) first 131072 s.words)
  unfolding copy_from copy_words
  copy_from_lem zero i s v = (
    s,
    refl,
    record { coherent = v; words_are = refl; same_lines = refl; still_held = λ _ _ z. z },
  )
  copy_from_lem (suc f) i s v = elim (Bool-cases (ltb i 131072)) [
    | inr e ↦ rw e (
      s,
      refl,
      record { coherent = v; words_are = refl; same_lines = refl; still_held = λ _ _ z. z },
    )
    | inl e ↦
        let small : i < 131072 = ground arith in
        let (t, p, lt) = load_lem s i v (omega arith) in
        let x = s.words (first + i) in
        let (u, q, lu, _) = store_lem t (131072 + i) x lt.coherent (omega arith) in
        let (w, r, lw) = copy_from_lem f (i + 8) u lu.coherent in
        let at : 0x8000_0000 + 8 * (131072 + i) ≡ vaddr2 + 8 * i = omega arith in
        let q' = ap (λ a. store_word a x t) (sym at) ∙ q in
        let there : first + (131072 + i) ≡ first + 131072 + i = omega arith in
        let wrote : u.words ≡ update s.words (first + 131072 + i) x =
          lu.words_are
          ∙ ap (λ (m : ℕ → ℕ). update m (first + (131072 + i)) x) lt.words_are
          ∙ ap (λ (n : ℕ). update s.words n x) there in
        rw e (
          w,
          rw (p, q') r,
          record {
            coherent = lw.coherent;
            words_are =
                lw.words_are ∙ ap (λ m. copy_words f (i + 8) (first + 131072) first 131072 m) wrote;
            same_lines = lw.same_lines ∙ lu.same_lines ∙ lt.same_lines;
            still_held = λ j l z. lw.still_held j l (lu.still_held j l (lt.still_held j l z));
          },
        )
  ]

  -- A store that does not fault ends at its first try.
  pub store_or_fault_lem :
      (f : ℕ) (p : Places) (idt : Idt) (va x : ℕ) (s t : State)
      → store_word va x s ≡ some t
      → store_or_fault (suc f) p idt va x s ≡ some t
  unfolding store_or_fault retry
  store_or_fault_lem f p idt va x s t e = rw (store_or_fault, retry, e) refl

  pub clear_pages_lem :
      (f : ℕ) (p : Places) (idt : Idt) (n i : ℕ) (s : State)
      → Coherent pdpt pd pt s
      → i + n ≤ 256
      → (t : State) × (clear_pages (suc f) p idt n i s ≡ some t)
        × Leaves s t (clear_words n i s.words)
        × ((j : ℕ) → i ≤ j → j < i + n → Held t (256 + j))
  unfolding clear_pages clear_words
  clear_pages_lem f p idt zero i s v h = (
    s,
    refl,
    record { coherent = v; words_are = refl; same_lines = refl; still_held = λ _ _ z. z },
    λ j a b. absurd (omega arith),
  )
  clear_pages_lem f p idt (suc n) i s v h =
      let (t, e, l, held) = store_lem s (131072 + 512 * i) 0 v (omega arith) in
      let (u, r, lu, rest) = clear_pages_lem f p idt n (i + 1) t l.coherent (omega arith) in
      let at : 0x8000_0000 + 8 * (131072 + 512 * i) ≡ 0x8010_0000 + i * 0x1000 = omega arith in
      let there : first + (131072 + 512 * i) ≡ first + 131072 + 512 * i = omega arith in
      let e' =
        store_or_fault_lem f p idt (0x8010_0000 + i * 0x1000) 0 s t
          (ap (λ a. store_word a 0 s) (sym at) ∙ e) in
      let wrote : t.words ≡ update s.words (first + 131072 + 512 * i) 0 =
        l.words_are ∙ ap (λ (n : ℕ). update s.words n 0) there in
      let number : (131072 + 512 * i) / 512 ≡ 256 + i = omega arith in
      (
        u,
        rw e' r,
        record {
          coherent = lu.coherent;
          words_are = lu.words_are ∙ ap (λ (m : ℕ → ℕ). clear_words n (i + 1) m) wrote;
          same_lines = lu.same_lines ∙ l.same_lines;
          still_held = λ j k z. lu.still_held j k (l.still_held j k z);
        },
        λ j a b. elim (ℕ_discrete i j) [
          | yes x ↦ rw (← x, ← number) (lu.still_held _ (omega arith) held)
          | no x ↦ rest j (omega arith) (omega arith)
        ],
      )
