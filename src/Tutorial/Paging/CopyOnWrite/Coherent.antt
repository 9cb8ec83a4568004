-- ===== src/Tutorial/Paging/CopyOnWrite/Coherent.antt =====
-- Accesses where all pages of the region are mapped and writable, and the core has kept nothing else.
use toshokan.Base.{
  ℕ, ◌+◌, ◌*◌, ◌/◌, ◌%◌, ◌^◌, ◌≡◌, ◌<◌, ◌⊎◌, inl, inr, refl, ap, ◌∙◌, true, none, some, update,
  update_self, update_ne, ℕ_discrete, arith,
}
use toshokan.Hakase.PageTables.Leads.{table_entry}
use toshokan.Hakase.PageTables.Walk.{walk}
use toshokan.Tutorial.Cpu.{translate}
use toshokan.Tutorial.Cpu.Region.{IsLed}
use toshokan.Tutorial.Paging.Console.Steps.{walk-frame}
use toshokan.Tutorial.Paging.CopyOnWrite.Program.{State, writable, read_access, write_access}

-- The frame of page `i` of the region, and the number of the page.
abbrev pub frame : ℕ → ℕ
frame i = 0x5000_0000 + i * 0x1000

abbrev pub page : ℕ → ℕ
page i = 0x8_0000 + i

-- The core keeps the frame of page `i`, and may write to it.
pub record Held (s : State) (i : ℕ) : Type 0 where
  pub at_frame : s.cpu.tlb (page i) ≡ some (frame i)
  pub may_write : s.writes (page i) ≡ true

pub record Coherent (pdpt pd pt : ℕ) (s : State) : Type 0 where
  pub led : IsLed s.cpu pdpt pd pt
  pub mapped : (i : ℕ) → i < 512 → s.cpu.tables pt i ≡ frame i + 7
  pub kept : (i : ℕ) → i < 512 → (s.cpu.tlb (page i) ≡ none) ⊎ Held s i

pub writable_lem :
    (pdpt pd pt : ℕ) (s : State)
    → Coherent pdpt pd pt s
    → (i o : ℕ) → i < 512
    → o < 2 ^ 12
    → writable s.cpu.tables s.cpu.cr3 (0x8000_0000 + i * 2 ^ 12 + o) ≡ true
unfolding writable
writable_lem q d t s v i o h k =
    let va = 0x8000_0000 + i * 2 ^ 12 + o in
    let a : va / 2 ^ 39 % 512 ≡ 0 = omega arith in
    let b : va / 2 ^ 30 % 512 ≡ 2 = omega arith in
    let c : va / 2 ^ 21 % 512 ≡ 0 = omega arith in
    let e : va / 2 ^ 12 % 512 ≡ i = omega arith in
    let (_, _, tq) = table_entry q v.led.pdpt_page in
    let (_, _, td) = table_entry d v.led.pd_page in
    let (_, _, tt) = table_entry t v.led.pt_page in
    let at_page = v.mapped i h in
    rw (writable, a, b, c, e, v.led.to_pdpt, tq, v.led.to_pd, td, v.led.to_pt, tt, at_page)
      (ground (arith, v.led.pdpt_page, v.led.pd_page, v.led.pt_page))

-- What an access leaves: the memory and the tables as they were, and every translation kept.
pub record Goes (pdpt pd pt : ℕ) (s t : State) : Type 0 where
  pub coherent : Coherent pdpt pd pt t
  pub same_words : t.words ≡ s.words
  pub same_lines : t.lines ≡ s.lines
  pub same_wp : t.wp ≡ s.wp
  pub still_held : (i : ℕ) → i < 512 → Held s i → Held t i

-- The core after it has kept the translation of page `i`.
abbrev keep : ℕ → State → State
keep i s = record s {
  cpu = record s.cpu { tlb = update s.cpu.tlb (page i) (some (frame i)) };
  writes = update s.writes (page i) true;
}

keep_self : (i : ℕ) (s : State) → Held (keep i s) i
keep_self i s = record {
  at_frame = update_self s.cpu.tlb (page i) (some (frame i));
  may_write = update_self s.writes (page i) true;
}

keep-Held : (i j : ℕ) (s : State) → Held s j → Held (keep i s) j
keep-Held i j s v = elim (ℕ_discrete i j) [
  | yes e ↦ rw (← e) (keep_self i s)
  | no d ↦ record {
    at_frame = update_ne s.cpu.tlb (page i) (page j) _ (λ e. d (omega arith)) ∙ v.at_frame;
    may_write = update_ne s.writes (page i) (page j) true (λ e. d (omega arith)) ∙ v.may_write;
  }
]

keep-Goes : (pdpt pd pt i : ℕ) (s : State) → Coherent pdpt pd pt s → Goes pdpt pd pt s (keep i s)
keep-Goes pdpt pd pt i s v = record {
  coherent = record {
    led = ground (arith, v.led);
    mapped = v.mapped;
    kept = λ j h. elim (ℕ_discrete i j) [
      | yes e ↦ inr (rw (← e) (keep_self i s))
      | no d ↦ elim (v.kept j h) [
        | inl z ↦ inl (update_ne s.cpu.tlb (page i) (page j) _ (λ e. d (omega arith)) ∙ z)
        | inr z ↦ inr (keep-Held i j s z)
      ]
    ];
  };
  same_words = refl;
  same_lines = refl;
  same_wp = refl;
  still_held = λ j _ z. keep-Held i j s z;
}

-- Any access to page `i` goes to its frame, which is kept.
pub access_lem :
    (pdpt pd pt : ℕ) (s : State)
    → Coherent pdpt pd pt s
    → (i o : ℕ) → i < 512
    → o < 2 ^ 12
    → (t : State) × (read_access (0x8000_0000 + i * 2 ^ 12 + o) s ≡ some (frame i + o, t))
      × (write_access (0x8000_0000 + i * 2 ^ 12 + o) s ≡ some (frame i + o, t))
      × Goes pdpt pd pt s t
      × Held t i
unfolding read_access write_access translate
access_lem q d p s v i o h k = elim (v.kept i h) [
  | inl free ↦
      let none_at : s.cpu.tlb (va / 2 ^ 12) ≡ none = ap s.cpu.tlb number ∙ free in
      let walked : walk s.cpu.tables s.cpu.cr3 va ≡ some (frame i + o) =
        walk-frame s.cpu v.led i (frame i) o h k (omega arith, omega arith) (v.mapped i h) in
      let w = writable_lem q d p s v i o h k in
      let base : (frame i + o) / 2 ^ 12 * 2 ^ 12 ≡ frame i = omega arith in
      (
        keep i s,
        rw (read_access, translate, none_at, walked, base, w, number) refl,
        rw (write_access, read_access, translate, none_at, w, walked, base, number) refl,
        keep-Goes q d p i s v,
        keep_self i s,
      )
  | inr held ↦
      let kept : s.cpu.tlb (va / 2 ^ 12) ≡ some (frame i) = ap s.cpu.tlb number ∙ held.at_frame in
      let may : s.writes (va / 2 ^ 12) ≡ true = ap s.writes number ∙ held.may_write in
      (
        s,
        rw (read_access, translate, kept, offset) refl,
        rw (write_access, read_access, translate, kept, may, offset) refl,
        record {
          coherent = v;
          same_words = refl;
          same_lines = refl;
          same_wp = refl;
          still_held = λ _ _ x. x;
        },
        held,
      )
]
  where
    va : ℕ
    va = 0x8000_0000 + i * 2 ^ 12 + o

    number : va / 2 ^ 12 ≡ page i
    number = omega arith

    offset : va % 2 ^ 12 ≡ o
    offset = omega arith
