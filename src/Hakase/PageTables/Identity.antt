-- ===== src/Hakase/PageTables/Identity.antt =====
-- What the processor sees through the tables that InitPageTables fills.
use Prim.Native.Nat.{bit_or}
use toshokan.Base.{
  ℕ, ◌+◌, ◌*◌, ◌/◌, ◌%◌, ◌^◌, ◌≡◌, ◌≢◌, ◌≤◌, ◌<◌, ◌⊎◌, arith, ap, sym, ◌∙◌, ℕ_discrete, none, some,
}
use toshokan.Base.Words.{bit_or-flags}
use toshokan.Layout.{deploy_phys_addr_start, deploy_phys_addr_end}
use toshokan.Hakase.PageTables.{PhysMem, Tables, upper_entries, init_page_tables, k_2mb, k_512gb}
use toshokan.Hakase.PageTables.Walk.{walk}
use toshokan.Hakase.PageTables.Leads.{
  IsPage, or_flags, walk_to_huge, walk_stops_pdpt, walk_stops_pd,
}
use toshokan.Hakase.PageTables.Entries.{nth_page, init_entries}

or_huge : (k : ℕ) → bit_or (nth_page k) 0x87 ≡ nth_page k + 0x87
or_huge k =
    let e : nth_page k ≡ 2 ^ 21 * (2048 + k) = omega arith in
    rw e (bit_or-flags 21 (2048 + k) 0x87 (omega arith))

-- Where the linker and the trampoline have put the tables: on four different pages.
pub record IsPlaced (t : Tables) : Type 0 where
  pub pdpt_page : IsPage t.pdpt
  pub pd1_page : IsPage t.pd1
  pub pd2_page : IsPage t.pd2
  pub pml4t-ne-pdpt : t.pml4t ≢ t.pdpt
  pub pml4t-ne-pd1 : t.pml4t ≢ t.pd1
  pub pml4t-ne-pd2 : t.pml4t ≢ t.pd2
  pub pdpt-ne-pd1 : t.pdpt ≢ t.pd1
  pub pdpt-ne-pd2 : t.pdpt ≢ t.pd2
  pub pd1-ne-pd2 : t.pd1 ≢ t.pd2

module _ (t : Tables) (m : PhysMem) (v : IsPlaced t) where
  open v use {pdpt_page, pd1_page, pd2_page}

  abbrev filled : PhysMem
  filled = init_page_tables t m

  pml4t_entry : filled t.pml4t 0 ≡ t.pdpt + 7
  unfolding upper_entries
  pml4t_entry = rw (init_entries t m t.pml4t 0) (ground (arith, or_flags t.pdpt pdpt_page))

  pdpt_entry0 : filled t.pdpt 0 ≡ t.pd1 + 7
  unfolding upper_entries
  pdpt_entry0 = rw (init_entries t m t.pdpt 0) (ground (arith, or_flags t.pd1 pd1_page))

  pdpt_entry4 : filled t.pdpt 4 ≡ t.pd2 + 7
  unfolding upper_entries
  pdpt_entry4 = rw (init_entries t m t.pdpt 4) (ground (arith, or_flags t.pd2 pd2_page))

  pd1_entry : filled t.pd1 0 ≡ 0 + 0x87
  unfolding upper_entries
  pd1_entry = rw (init_entries t m t.pd1 0) (ground arith)

  pd2_entry : (k : ℕ) → k < 512 → filled t.pd2 k ≡ nth_page k + 0x87
  pd2_entry k h = rw (init_entries t m t.pd2 k) (ground (arith, or_huge k))

  other_entry :
      (b k : ℕ)
      → m b k ≡ 0
      → (b ≡ t.pdpt → (k ≢ 0) × (k ≢ 4))
      → (b ≡ t.pd1 → k ≢ 0)
      → (b ≢ t.pml4t)
      → (b ≢ t.pd2)
      → filled b k ≡ 0
  unfolding upper_entries
  other_entry b k z h₁ h₂ h₃ h₄ = rw (init_entries t m b k) (ground arith)

  -- Every address of the memory that is left to friend cores is mapped to itself.
  pub friend_identity :
      (va : ℕ)
      → deploy_phys_addr_start ≤ va
      → va < deploy_phys_addr_end
      → walk filled t.pml4t va ≡ some va
  friend_identity va lo hi =
      walk_to_huge filled va (rw top pml4t_entry) pdpt_page (rw middle pdpt_entry4) pd2_page
        (pd2_entry (va / 2 ^ 21 % 512) (omega arith)) (omega arith) (omega arith)
      ∙ ap some (omega arith)
    where
      top : va / 2 ^ 39 % 512 ≡ 0
      top = omega arith

      middle : va / 2 ^ 30 % 512 ≡ 4
      middle = omega arith

  -- So is every address of the first 2 MB, where the trampoline and its tables are.
  pub trampoline_identity : (va : ℕ) → va < k_2mb → walk filled t.pml4t va ≡ some va
  trampoline_identity va hi =
      walk_to_huge filled {page = 0} va (rw top pml4t_entry) pdpt_page (rw middle pdpt_entry0)
        pd1_page (rw bottom pd1_entry) (omega arith) (omega arith)
      ∙ ap some (omega arith)
    where
      top : va / 2 ^ 39 % 512 ≡ 0
      top = omega arith

      middle : va / 2 ^ 30 % 512 ≡ 0
      middle = omega arith

      bottom : va / 2 ^ 21 % 512 ≡ 0
      bottom = omega arith

  -- If the three tables of the friend binary were zero, no other address below 512 GB is mapped.
  pub unmapped :
      ((k : ℕ) → m t.pdpt k ≡ 0)
      → ((k : ℕ) → m t.pd1 k ≡ 0)
      → (va : ℕ) → va < k_512gb
      → k_2mb ≤ va
      → (va < deploy_phys_addr_start) ⊎ (deploy_phys_addr_end ≤ va)
      → walk filled t.pml4t va ≡ none
  unmapped z₃ z₂ va hi lo out = elim (ℕ_discrete (va / 2 ^ 30 % 512) 0) [
    | yes low ↦
        walk_stops_pd filled va (rw top pml4t_entry) pdpt_page (rw low pdpt_entry0) pd1_page
          (pd1_zero (va / 2 ^ 21 % 512) (omega arith))
    | no high ↦
        walk_stops_pdpt filled va (rw top pml4t_entry) pdpt_page
          (pdpt_zero (va / 2 ^ 30 % 512) high (omega arith))
  ]
    where
      top : va / 2 ^ 39 % 512 ≡ 0
      top = omega arith

      pd1_zero : (k : ℕ) → k ≢ 0 → filled t.pd1 k ≡ 0
      pd1_zero k ne =
          other_entry t.pd1 k (z₂ k) (λ e. absurd (v.pdpt-ne-pd1 (sym e))) (λ _. ne)
            (λ e. v.pml4t-ne-pd1 (sym e)) v.pd1-ne-pd2

      pdpt_zero : (k : ℕ) → k ≢ 0 → k ≢ 4 → filled t.pdpt k ≡ 0
      pdpt_zero k n₀ n₄ =
          other_entry t.pdpt k (z₃ k) (λ _. (n₀, n₄)) (λ e. absurd (v.pdpt-ne-pd1 e))
            (λ e. v.pml4t-ne-pdpt (sym e)) v.pdpt-ne-pd2
