-- ===== src/Tutorial/Paging/CopyOnWrite/Shares.antt =====
-- What the loops over the entries of the last table leave, and the words that are written.
use Prim.Native.Nat.{bit_or}
use toshokan.Base.{
  ℕ, zero, suc, ◌+◌, ◌-◌, ◌*◌, ◌/◌, ◌%◌, ◌≡◌, ◌≢◌, ◌≤◌, ◌<◌, inl, inr, refl, ap, sym, ◌∙◌, Bool,
  ◌&&◌, Bool-cases, ltb, leb, ◌==◌, if◌then◌else◌, update, ℕ_discrete, arith,
}
use toshokan.Hakase.PageTables.Leads.{IsPage}
use toshokan.Tutorial.Cpu.{with_flags}
use toshokan.Tutorial.Cpu.Region.{IsLed, with_flags_lem, add_bit}
use toshokan.Tutorial.Paging.CopyOnWrite.{copy_words}
use toshokan.Tutorial.Paging.CopyOnWrite.Program.{
  State, store_entry, map_from, protect_from, share_from,
}
use toshokan.Tutorial.Paging.CopyOnWrite.Coherent.{frame}
use toshokan.Tutorial.Paging.CopyOnWrite.Phases.{first, clear_words}

-- Nothing but the last table has changed.
pub record OnlyTable (pt : ℕ) (s t : State) : Type 0 where
  pub same_tlb : t.cpu.tlb ≡ s.cpu.tlb
  pub same_cr3 : t.cpu.cr3 ≡ s.cpu.cr3
  pub same_writes : t.writes ≡ s.writes
  pub same_words : t.words ≡ s.words
  pub same_lines : t.lines ≡ s.lines
  pub same_tables : (b k : ℕ) → b ≢ pt → t.cpu.tables b k ≡ s.cpu.tables b k

OnlyTable-self : (pt : ℕ) (s : State) → OnlyTable pt s s
OnlyTable-self pt s = record {
  same_tlb = refl;
  same_cr3 = refl;
  same_writes = refl;
  same_words = refl;
  same_lines = refl;
  same_tables = λ b k ne. refl;
}

OnlyTable-store : (pt i e : ℕ) (s : State) → OnlyTable pt s (store_entry pt i e s)
OnlyTable-store pt i e s = record {
  same_tlb = refl;
  same_cr3 = refl;
  same_writes = refl;
  same_words = refl;
  same_lines = refl;
  same_tables = λ b k ne. ground arith;
}

pub OnlyTable-then :
    {pt : ℕ} {s t u : State} → OnlyTable pt s t → OnlyTable pt t u → OnlyTable pt s u
OnlyTable-then v w = record {
  same_tlb = w.same_tlb ∙ v.same_tlb;
  same_cr3 = w.same_cr3 ∙ v.same_cr3;
  same_writes = w.same_writes ∙ v.same_writes;
  same_words = w.same_words ∙ v.same_words;
  same_lines = w.same_lines ∙ v.same_lines;
  same_tables = λ b k ne. w.same_tables b k ne ∙ v.same_tables b k ne;
}

pub OnlyTable-IsLed :
    (pdpt pd pt : ℕ) (s t : State)
    → OnlyTable pt s t
    → IsLed s.cpu pdpt pd pt
    → IsLed t.cpu pdpt pd pt
OnlyTable-IsLed pdpt pd pt s t o v = record {
  pdpt_page = v.pdpt_page;
  pd_page = v.pd_page;
  pt_page = v.pt_page;
  cr3-ne-pt = λ e. v.cr3-ne-pt (sym o.same_cr3 ∙ e);
  pdpt-ne-pt = v.pdpt-ne-pt;
  pd-ne-pt = v.pd-ne-pt;
  to_pdpt =
      ap (λ a. t.cpu.tables a 0) o.same_cr3 ∙ o.same_tables s.cpu.cr3 0 v.cr3-ne-pt ∙ v.to_pdpt;
  to_pd = o.same_tables pdpt 2 v.pdpt-ne-pt ∙ v.to_pd;
  to_pt = o.same_tables pd 0 v.pd-ne-pt ∙ v.to_pt;
}

-- The value of entry `j` after a loop over `n` entries from `i` on.
abbrev pub within : ℕ → ℕ → ℕ → Bool
within n i j = leb i j && ltb j (i + n)

frame_flags : (i : ℕ) → i < 512 → with_flags (0x5000_0000 + i * 0x1000) ≡ frame i + 7
frame_flags i h = with_flags_lem (frame i) (omega arith, omega arith)

pub map_from_lem :
    (pt n i : ℕ) (s : State)
    → i + n ≤ 512
    → OnlyTable pt s (map_from n i pt s)
      × ((j : ℕ)
          → (map_from n i pt s).cpu.tables pt j
            ≡ (if within n i j then frame j + 7 else s.cpu.tables pt j))
unfolding map_from
map_from_lem pt zero i s h = (OnlyTable-self pt s, λ j. ground arith)
map_from_lem pt (suc n) i s h =
    let s' = store_entry pt i (with_flags (0x5000_0000 + i * 0x1000)) s in
    let (o, e) = map_from_lem pt n (i + 1) s' (omega arith) in
    (
      OnlyTable-then (OnlyTable-store pt i (with_flags (0x5000_0000 + i * 0x1000)) s) o,
      λ j. e j ∙ ground (arith, frame_flags i (omega arith)),
    )

read_only_flags : (i : ℕ) → i < 512 → bit_or (bit_or (0x5000_0000 + i * 0x1000) 1) 4 ≡ frame i + 5
read_only_flags i h =
    let p : IsPage (frame i) = (omega arith, omega arith) in
    let e : frame i ≡ frame i + 0 = omega arith in
    let b₁ = add_bit (frame i) 0 1 p (omega arith) (omega arith) in
    let b₄ = add_bit (frame i) 1 4 p (omega arith) (omega arith) in
    ap (λ (t : ℕ). bit_or (bit_or t 1) 4) e ∙ rw (b₁, b₄) refl

pub protect_from_lem :
    (pt n i : ℕ) (s : State)
    → i + n ≤ 512
    → OnlyTable pt s (protect_from n i pt s)
      × ((j : ℕ)
          → (protect_from n i pt s).cpu.tables pt j
            ≡ (if within n i j then frame j + 5 else s.cpu.tables pt j))
unfolding protect_from
protect_from_lem pt zero i s h = (OnlyTable-self pt s, λ j. ground arith)
protect_from_lem pt (suc n) i s h =
    let e = bit_or (bit_or (0x5000_0000 + i * 0x1000) 1) 4 in
    let (o, values) = protect_from_lem pt n (i + 1) (store_entry pt i e s) (omega arith) in
    (
      OnlyTable-then (OnlyTable-store pt i e s) o,
      λ j. values j ∙ ground (arith, read_only_flags i (omega arith)),
    )

pub share_from_lem :
    (pt n i : ℕ) (s : State)
    → 256 ≤ i
    → i + n ≤ 512
    → OnlyTable pt s (share_from n i pt s)
      × ((j : ℕ)
          → (share_from n i pt s).cpu.tables pt j
            ≡ (if within n i j then s.cpu.tables pt (j - 256) else s.cpu.tables pt j))
unfolding share_from
share_from_lem pt zero i s lo h = (OnlyTable-self pt s, λ j. ground arith)
share_from_lem pt (suc n) i s lo h =
    let e = s.cpu.tables pt (i - 256) in
    let (o, values) =
      share_from_lem pt n (i + 1) (store_entry pt i e s) (omega arith) (omega arith) in
    (OnlyTable-then (OnlyTable-store pt i e s) o, λ j. values j ∙ shifted j)
  where
    shifted :
        (j : ℕ)
        → (if within n (i + 1) j
            then (store_entry pt i (s.cpu.tables pt (i - 256)) s).cpu.tables pt (j - 256)
            else (store_entry pt i (s.cpu.tables pt (i - 256)) s).cpu.tables pt j)
          ≡ (if within (suc n) i j then s.cpu.tables pt (j - 256) else s.cpu.tables pt j)
    shifted j = elim (ℕ_discrete i j) [ yes x ↦ rw (← x) (ground arith) | no x ↦ ground arith ]

-- The words that the stores to the pages clear are the first ones of the pages.
pub clear_words_lem :
    (n i k : ℕ) (m : ℕ → ℕ)
    → clear_words n i m (first + 131072 + k)
      ≡ (if k % 512 == 0 && within n i (k / 512) then 0 else m (first + 131072 + k))
unfolding clear_words
clear_words_lem zero i k m = ground arith
clear_words_lem (suc n) i k m =
    clear_words_lem n (i + 1) k (update m (first + 131072 + 512 * i) 0)
    ∙ elim (ℕ_discrete k (512 * i)) [
      | yes x ↦
          let a : k % 512 ≡ 0 = omega arith in
          let b : k / 512 ≡ i = omega arith in ground (arith, a, b)
      | no x ↦ ground arith
    ]

pub clear_words-below : (n i a : ℕ) (m : ℕ → ℕ) → a < first + 131072 → clear_words n i m a ≡ m a
unfolding clear_words
clear_words-below zero i a m h = refl
clear_words-below (suc n) i a m h =
    clear_words-below n (i + 1) a (update m (first + 131072 + 512 * i) 0) h ∙ ground arith

pub copy_words-below :
    (f i dst src count a : ℕ) (m : ℕ → ℕ) → a < dst → copy_words f i dst src count m a ≡ m a
unfolding copy_words
copy_words-below zero i dst src count a m h = refl
copy_words-below (suc f) i dst src count a m h = elim (Bool-cases (ltb i count)) [
  | inl e ↦ rw e (
      copy_words-below f (i + 8) dst src count a (update m (dst + i) (m (src + i))) h
      ∙ ground arith)
  | inr e ↦ rw e refl
]
