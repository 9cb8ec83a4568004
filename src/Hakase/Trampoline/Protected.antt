-- ===== src/Hakase/Trampoline/Protected.antt =====
-- The pieces of the trampoline that run in protected mode and in 64-bit mode.
use Prim.Native.Nat.{bit_or}
use toshokan.Base.{ℕ, ◌+◌, ◌*◌, ◌/◌, ◌%◌, ◌^◌, ◌≡◌, refl, ap, ◌∙◌, some, true, arith}
use toshokan.Base.Bits.{flag}
use toshokan.Layout.{trampoline_addr, initial_pml4t}
use toshokan.Hakase.Trampoline.{Processor, Memory, physical, long_mode, write_msr, read_msr}
use toshokan.Hakase.Trampoline.Code.{
  Labels, addr, wrmsr, movl_eax_cr4, lgdtl, ljmp, step, with_low16, code32, code64, movw_ax_ds,
  movw_ax_ss, jmpq_rax, movl_eax_cr0,
}
use toshokan.Hakase.Trampoline.Bytes.{IsFlat, load_bytes-read, moved, read_lower}
use toshokan.Hakase.Trampoline.Steps.{
  Runs, done, next, unpaged-IsFlat, lgdtl_step, ljmp64_step, to_ds_step, to_ss_step, to_cr0_step,
  to_cr4_step,
}
use toshokan.Hakase.Trampoline.Flags.{
  IsLaidOut, IsLoaded, IsProtected, IsLong, after32, after64, with_pg, with_lme, with_pae,
  with_pg_flags, with_pae_flags, with_lme_flag,
}

module _ (l : Labels) (m : Memory) (entry size : ℕ) (w : IsLaidOut l size)
    (x : IsLoaded l m entry) where
  paged-IsFlat :
      (p : Processor)
      → p.cr3 ≡ initial_pml4t
      → long_mode p ≡ true
      → flag 31 p.cr0 ≡ true
      → IsFlat m p
  unfolding physical
  paged-IsFlat p c lm pg a k = rw (physical, lm, pg, c, x.maps a k) refl

  module _ (p : Processor) (v : IsProtected l p) where
    abbrev p₁ : Processor
    p₁ = record p { rax = with_low16 p.rax 0x10 }

    abbrev p₂ : Processor
    p₂ = record p₁ { ds = 0x10; ds_base = 0 }

    abbrev p₃ : Processor
    p₃ = record p₂ { rdi = initial_pml4t }

    abbrev p₄ : Processor
    p₄ = record p₃ { cr3 = initial_pml4t }

    abbrev p₅ : Processor
    p₅ = record p₄ { rax = p.cr4 % 2 ^ 32 }

    abbrev p₆ : Processor
    p₆ = record p₅ { rax = with_pae p.cr4 }

    abbrev p₇ : Processor
    p₇ = record p₆ { cr4 = with_pae p.cr4 % 2 ^ 32 }

    abbrev p₈ : Processor
    p₈ = record p₇ { rcx = 0xC000_0080 }

    abbrev p₉ : Processor
    p₉ = record p₈ { rax = p.efer % 2 ^ 32; rdx = p.efer / 2 ^ 32 }

    abbrev p₁₀ : Processor
    p₁₀ = record p₉ { rax = with_lme p.efer }

    abbrev p₁₁ : Processor
    p₁₁ = record p₁₀ { efer = p.efer / 2 ^ 32 * 2 ^ 32 + with_lme p.efer }

    abbrev p₁₂ : Processor
    p₁₂ = record p₁₁ { rax = p.cr0 % 2 ^ 32 }

    abbrev p₁₃ : Processor
    p₁₃ = record p₁₂ { rax = bit_or (p.cr0 % 2 ^ 32 % 2 ^ 32) (2 ^ 31) }

    abbrev p₁₄ : Processor
    p₁₄ = record p₁₃ { rax = with_pg p.cr0 }

    abbrev p₁₅ : Processor
    p₁₅ = record p₁₄ { cr0 = with_pg p.cr0 % 2 ^ 32 }

    abbrev p₁₆ : Processor
    p₁₆ = record p₁₅ { gdt_limit = 47; gdt_base = trampoline_addr + l.gdt_desc64 }

    flat : (q : Processor) → q.cr0 ≡ p.cr0 → IsFlat m q
    flat q e = unpaged-IsFlat m q (ap (flag 31) e ∙ v.not_paged)

    paged : (q : Processor) → q.cr0 ≡ p₁₅.cr0 → q.cr3 ≡ p₁₅.cr3 → q.efer ≡ p₁₅.efer → IsFlat m q
    paged q c d e =
        paged-IsFlat q d (ground (arith, with_pg_flags p.cr0, with_lme_flag p.efer))
          (ground (arith, with_pg_flags p.cr0))

    low : with_low16 p.rax 0x10 % 2 ^ 16 ≡ 0x10
    low = omega arith

    ds_step : step movw_ax_ds m p₁ ≡ some p₂
    unfolding step
    ds_step =
        rw (step, low)
          (to_ds_step m p₁ (flat p₁ refl) 0x10 0x00CF_9200_0000_FFFF (omega (arith, v.limit))
            (omega arith) (omega (arith, v.base, w.size-le, w.gdt_desc32-le))
            (moved m.bytes 8 x.holds32.1.1.1.0 (omega (arith, v.base))) v.protected refl)

    cr4_step : step movl_eax_cr4 m p₆ ≡ some p₇
    unfolding step
    cr4_step = to_cr4_step _ p₆ (ground (arith, with_pae_flags p.cr4))

    msr_step : step wrmsr m p₁₀ ≡ some p₁₁
    unfolding step write_msr
    msr_step = rw (step, write_msr, v.not_paged) refl

    cr0_step : step movl_eax_cr0 m p₁₄ ≡ some p₁₅
    unfolding step
    cr0_step =
        (to_cr0_step _ p₁₄
          (ground (arith, with_pg_flags p.cr0, with_pae_flags p.cr4, v.protected, v.code_not_long)))

    gdt_step : step (lgdtl (trampoline_addr + l.gdtr64)) m p₁₅ ≡ some p₁₆
    gdt_step =
        lgdtl_step m p₁₅ (paged p₁₅ refl refl refl) (trampoline_addr + l.gdtr64) 47 _
          (omega (arith, w.size-le, w.gdtr64-le))
          (moved m.bytes 2 x.holds64.1.1.1.1.0 (omega arith))
          (read_lower m.bytes x.are_bytes _ _ (moved m.bytes 8 x.holds64.1.1.1.1.1.0 (omega arith))
            (omega (arith, w.size-le, w.gdt_desc64-le)))

    jump_step : step (ljmp 0x10 (trampoline_addr + l.start)) m p₁₆ ≡ some (after32 l p)
    jump_step =
        ljmp64_step m p₁₆ (paged p₁₆ refl refl refl) 0x10 _ (omega arith) (omega arith)
          (omega (arith, w.size-le, w.gdt_desc64-le)) (moved m.bytes 8 x.holds64.0 (omega arith))
          (ground (arith, with_pg_flags p.cr0, with_lme_flag p.efer))

    pub run32 : Runs m (code32 l) p (after32 l p)
    unfolding step read_msr
    run32 = next p₁ (flat p refl) refl (
        next p₂ (flat p₁ refl) ds_step (
          next p₃ (flat p₂ refl) refl (
            next p₄ (flat p₃ refl) refl (
              next p₅ (flat p₄ refl) refl (
                next p₆ (flat p₅ refl) refl (
                  next p₇ (flat p₆ refl) cr4_step (
                    next p₈ (flat p₇ refl) refl (
                      next p₉ (flat p₈ refl) refl (
                        next p₁₀ (flat p₉ refl) refl (
                          next p₁₁ (flat p₁₀ refl) msr_step (
                            next p₁₂ (flat p₁₁ refl) refl (
                              next p₁₃ (flat p₁₂ refl) refl (
                                next p₁₄ (flat p₁₃ refl) refl (
                                  next p₁₅ (flat p₁₄ refl) cr0_step (
                                    next p₁₆ (paged p₁₅ refl refl refl) gdt_step (
                                      next (after32 l p) (paged p₁₆ refl refl refl) jump_step
                                        (done _)))))))))))))))))

pub run64 :
    (l : Labels) (m : Memory) (entry size : ℕ)
    → IsLaidOut l size
    → IsLoaded l m entry
    → (p : Processor) → IsLong l p
    → Runs m code64 p (after64 entry p)
unfolding step
run64 l m entry size w x p v = next p₁ (flat p refl refl refl) refl (
    next p₂ (flat p₁ refl refl refl) ds_step (
      next p₃ (flat p₂ refl refl refl) ss_step (
        next p₄ (flat p₃ refl refl refl) refl
          (next (after64 entry p) (flat p₄ refl refl refl) jump_step (done _)))))
  where
    p₁ : Processor
    p₁ = record p { rax = with_low16 p.rax 0x18 }

    p₂ : Processor
    p₂ = record p₁ { ds = 0x18; ds_base = 0 }

    p₃ : Processor
    p₃ = record p₂ { ss = 0x18 }

    p₄ : Processor
    p₄ = record p₃ { rax = trampoline_addr + addr }

    flat : (q : Processor) → q.cr0 ≡ p.cr0 → q.cr3 ≡ p.cr3 → q.efer ≡ p.efer → IsFlat m q
    flat q c d e =
        paged-IsFlat l m entry size w x q (d ∙ v.at_cr3) (ground (arith, v.in_long_mode))
          (ground (arith, v.paged))

    low : with_low16 p.rax 0x18 % 2 ^ 16 ≡ 0x18
    low = omega arith

    ds_step : step movw_ax_ds m p₁ ≡ some p₂
    ds_step =
        rw (step, low)
          (to_ds_step m p₁ (flat p₁ refl refl refl) 0x18 0x0000_9200_0000_0000
            (omega (arith, v.limit)) (omega arith)
            (omega (arith, v.base, w.size-le, w.gdt_desc64-le))
            (moved m.bytes 8 x.holds64.1.0 (omega (arith, v.base))) v.protected refl)

    ss_step : step movw_ax_ss m p₂ ≡ some p₃
    ss_step =
        rw (step, low)
          (to_ss_step m p₂ (flat p₂ refl refl refl) 0x18 0x0000_9200_0000_0000
            (omega (arith, v.limit)) (omega arith)
            (omega (arith, v.base, w.size-le, w.gdt_desc64-le))
            (moved m.bytes 8 x.holds64.1.0 (omega (arith, v.base))) v.protected refl)

    jump_step : step jmpq_rax m p₄ ≡ some (after64 entry p)
    jump_step =
        rw
          (
            step,
            load_bytes-read m p₄ (flat p₄ refl refl refl) (trampoline_addr + addr) 8 (omega arith),
            x.holds_entry,
          )
          refl
