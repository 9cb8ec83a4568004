-- ===== src/Hakase/Trampoline/Arrival.antt =====
-- A core from its startup IPI to the entry of the friend binary.
use toshokan.Base.{
  ℕ, suc, ◌+◌, ◌-◌, ◌≡◌, ◌≤◌, refl, true, false, none, List, leb, Option, some, arith,
}
use toshokan.Base.Bits.{bit_of}
use toshokan.Layout.{trampoline_addr, page_size, initial_pml4t}
use toshokan.Hakase.Trampoline.{Processor, Memory, Width, bits16, bits32, bits64, width}
use toshokan.Hakase.Trampoline.Code.{
  Labels, run_code, run_fuel, code_at, step, same_width, Instruction,
}
use toshokan.Hakase.Trampoline.Steps.{Runs, done, next, Runs-run_all, unpaged-IsFlat}
use toshokan.Hakase.Trampoline.Flags.{
  IsReset, IsReal, IsLaidOut, IsLoaded, IsProtected, IsLong, after16, after32, after64,
  with_pe_flags, with_pg_flags, with_pae_flags, with_lme_flag,
}
use toshokan.Hakase.Trampoline.Real.{run16}
use toshokan.Hakase.Trampoline.Protected.{run32, run64}

-- 64-bit mode at the entry, with the first page tables and caches, in the segments of the kernel.
pub record IsArrived (entry : ℕ) (p q : Processor) : Type 0 where
  pub at_rip : q.rip ≡ entry
  pub is_long : width q ≡ bits64
  pub at_cr3 : q.cr3 ≡ initial_pml4t
  pub at_cs : q.cs ≡ 0x10
  pub at_ds : q.ds ≡ 0x18
  pub at_ss : q.ss ≡ 0x18
  pub paged : bit_of 31 q.cr0 ≡ 1
  pub long_enabled : bit_of 8 q.efer ≡ 1
  pub cached : (bit_of 30 q.cr0 ≡ 0) × (bit_of 29 q.cr0 ≡ 0)
  pub extended : (bit_of 4 q.cr4 ≡ 1) × (bit_of 5 q.cr4 ≡ 1) × (bit_of 7 q.cr4 ≡ 1)
  pub same_wp : bit_of 16 q.cr0 ≡ bit_of 16 p.cr0
  pub masked : q.interrupts ≡ false

same_width_self : (w : Width) → same_width w w ≡ true
same_width_self bits16 = refl
same_width_self bits32 = refl
same_width_self bits64 = refl

run_piece :
    (f a : ℕ) (l : Labels) (m : Memory) (p q : Processor) (w : Width) {is : List Instruction}
    {r : Option Processor}
    → p.cs_base + p.rip ≡ trampoline_addr + a
    → code_at l a ≡ some (w, is)
    → width p ≡ w
    → Runs m is p q
    → run_code f l m q ≡ r
    → run_code (suc f) l m p ≡ r
unfolding run_code
run_piece f a l m p q w at here e runs rest =
    let back : p.cs_base + p.rip - trampoline_addr ≡ a = omega arith in
    let above : leb trampoline_addr (p.cs_base + p.rip) ≡ true = ground arith in
    rw (run_code, back, here, e, same_width_self w, above, Runs-run_all runs) rest

run_end :
    (f a : ℕ) (l : Labels) (m : Memory) (p : Processor)
    → p.cs_base + p.rip ≡ trampoline_addr + a
    → code_at l a ≡ none
    → run_code (suc f) l m p ≡ some p
unfolding run_code
run_end f a l m p at here =
    let back : p.cs_base + p.rip - trampoline_addr ≡ a = omega arith in
    rw (run_code, back, here) refl

module _ (l : Labels) (m : Memory) (entry size : ℕ) (p : Processor) where
  abbrev p₁ : Processor
  p₁ = record p { rip = l.entry16 }

  abbrev p₂ : Processor
  p₂ = after16 l p₁

  abbrev p₃ : Processor
  p₃ = after32 l p₂

  -- For every state of the registers and flags that a startup IPI may leave with vector 0x70, and
  -- every layout of the labels, the trampoline runs within its fuel, without a fault, to the entry
  -- that stands at `addr`, outside of its page: in 64-bit mode, with paging through `%cr3`, caches
  -- enabled and interrupts masked; CR0.WP is left as it was.
  pub run_code-arrives :
      IsReset p
      → IsLaidOut l size
      → IsLoaded l m entry
      → trampoline_addr + page_size ≤ entry
      → (q : Processor) × (run_code run_fuel l m p ≡ some q) × IsArrived entry p q
  unfolding step
  run_code-arrives v w x far = (
    after64 entry p₃,
    run_piece 4 0 l m p p₁ bits16 (omega (arith, v.at_rip, r.at_base)) refl real_width
        (next p₁ (unpaged-IsFlat m p r.unpaged) refl (done p₁))
        (run_piece 3 l.entry16 l m p₁ p₂ bits16 (omega (arith, r.at_base))
          (ground (arith, w.entry16-ge)) real_width (run16 l m p₁ size real₁ w x.holds32)
          (run_piece 2 l.entry32 l m p₂ p₃ bits32 (omega arith)
            (ground (arith, w.entry16-ge, w.entry32-gt)) (ground arith)
            (run32 l m entry size w x p₂ protected₂)
            (run_piece 1 l.start l m p₃ (after64 entry p₃) bits64 (omega arith)
              (ground (arith, w.entry16-ge, w.entry32-gt, w.start-gt))
              (ground (arith, with_pg_flags p₂.cr0, with_lme_flag p.efer))
              (run64 l m entry size w x p₃ long₃)
              (run_end 0 (entry - trampoline_addr) l m (after64 entry p₃) (omega arith)
                (ground (arith, w.entry16-ge, w.entry32-gt, w.start-gt, w.start-lt, w.size-le)))))),
    arrived,
  )
    where
      r : IsReal p
      r = v.in_real

      real_width : width p ≡ bits16
      real_width = ground (arith, r.not_long, r.not_big)

      real₁ : IsReal p₁
      real₁ = ground (arith, r)

      protected₂ : IsProtected l p₂
      protected₂ = ground (arith, with_pe_flags p v.in_real)

      long₃ : IsLong l p₃
      long₃ = ground (arith, with_pe_flags p v.in_real, with_pg_flags p₂.cr0, with_lme_flag p.efer)

      arrived : IsArrived entry p (after64 entry p₃)
      arrived = ground (
        arith,
        with_pe_flags p v.in_real,
        with_pg_flags p₂.cr0,
        with_pae_flags p.cr4,
        with_lme_flag p.efer,
      )
