-- ===== src/Hakase/Trampoline/Real.antt =====
-- The piece of the trampoline that runs in real mode.
use toshokan.Base.{ℕ, ◌+◌, ◌%◌, ◌^◌, ◌≡◌, refl, ap, ◌∙◌, some, false, arith}
use toshokan.Base.Bits.{flag}
use toshokan.Layout.{trampoline_addr}
use toshokan.Hakase.Trampoline.{Processor, Memory, long_mode, to_ds}
use toshokan.Hakase.Trampoline.Code.{Labels, step, with_low16, code16, movw_ax_ds, movl_eax_cr0}
use toshokan.Hakase.Trampoline.Bytes.{IsFlat, Holds, data32, moved}
use toshokan.Hakase.Trampoline.Steps.{
  Runs, done, next, unpaged-IsFlat, lgdtl_step, ljmp32_step, to_cr0_step,
}
use toshokan.Hakase.Trampoline.Flags.{IsReal, IsLaidOut, after16, with_pe, with_pe_flags}

pub run16 :
    (l : Labels) (m : Memory) (p : Processor) (size : ℕ)
    → IsReal p
    → IsLaidOut l size
    → Holds m.bytes trampoline_addr (data32 l)
    → Runs m (code16 l) p (after16 l p)
unfolding step to_ds
run16 l m p size v w (h₁, (h₂, (h₃, _))) = next p₁ (flat p refl) refl (
    next p₂ (flat p₁ refl) refl (
      next p₃ (flat p₂ refl) ds_step (
        next p₄ (flat p₃ refl)
          (lgdtl_step m p₃ (flat p₃ refl) l.gdtr32 31 _ (omega (arith, w.size-le, w.gdtr32-le)) h₁
            (moved m.bytes 4 h₂ (omega arith)))
          (next p₅ (flat p₄ refl) refl (
            next p₆ (flat p₅ refl) refl (
              next p₇ (flat p₆ refl) cr0_step (
                next (after16 l p) flat₇
                  (ljmp32_step m p₇ flat₇ _ _ (omega arith) (omega arith)
                    (omega (arith, w.size-le, w.gdt_desc32-le)) (moved m.bytes 8 h₃ (omega arith))
                    lm (omega (arith, w.entry32-gt, w.start-gt, w.size-le, w.start-lt)))
                  (done _))))))))
  where
    p₁ : Processor
    p₁ = record p { interrupts = false }

    p₂ : Processor
    p₂ = record p₁ { rax = with_low16 p.rax p.cs }

    p₃ : Processor
    p₃ = record p₂ { ds = 0x7000; ds_base = trampoline_addr }

    p₄ : Processor
    p₄ = record p₃ { gdt_limit = 31; gdt_base = l.gdt_desc32 + trampoline_addr }

    p₅ : Processor
    p₅ = record p₄ { rax = p.cr0 % 2 ^ 32 }

    p₆ : Processor
    p₆ = record p₅ { rax = with_pe p.cr0 }

    p₇ : Processor
    p₇ = record p₆ { cr0 = with_pe p.cr0 % 2 ^ 32 }

    flat : (q : Processor) → q.cr0 ≡ p.cr0 → IsFlat m q
    flat q e = unpaged-IsFlat m q (ap (flag 31) e ∙ v.unpaged)

    low : with_low16 p.rax p.cs % 2 ^ 16 ≡ 0x7000
    low = omega (arith, v.at_cs)

    ds_step : step movw_ax_ds m p₂ ≡ some p₃
    ds_step = rw (step, to_ds, low, v.real) refl

    cr0_step : step movl_eax_cr0 m p₆ ≡ some p₇
    cr0_step = to_cr0_step _ p₆ (ground (arith, with_pe_flags p v, v.uncached))

    pg : flag 31 (with_pe p.cr0 % 2 ^ 32) ≡ false
    pg = ground (arith, with_pe_flags p v)

    flat₇ : IsFlat m p₇
    flat₇ = unpaged-IsFlat m p₇ pg

    lm : long_mode p₇ ≡ false
    lm = ground (arith, pg)
