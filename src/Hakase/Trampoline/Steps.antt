-- ===== src/Hakase/Trampoline/Steps.antt =====
-- Single instructions of the trampoline.
use toshokan.Base.{
  ℕ, Bool-cases, inl, inr, ◌+◌, ◌^◌, ◌≡◌, ◌≤◌, ◌<◌, refl, List, [], ◌∷◌, some, true, false, arith,
}
use toshokan.Base.Bits.{flag}
use toshokan.Layout.{trampoline_addr}
use toshokan.Hakase.PageTables.{k_2mb}
use toshokan.Hakase.Trampoline.{
  Processor, Memory, physical, descriptor, far_jump, is_readable, base_of, long_mode, to_ds, to_ss,
  is_stack, to_cr0, to_cr4, cr0_allowed,
}
use toshokan.Hakase.Trampoline.Code.{Instruction, step, run_all, fetches, lgdtl, ljmp}
use toshokan.Hakase.Trampoline.Bytes.{IsFlat, read, load_bytes-read}

-- Runs of straight code, each instruction fetched from memory that is mapped to itself.
pub data Runs (m : Memory) : List Instruction → Processor → Processor → Type 0 where
  done : (p : Processor) → Runs m [] p p
  next :
      {i : Instruction} {is : List Instruction} {p r : Processor} (q : Processor)
      → IsFlat m p
      → step i m p ≡ some q
      → Runs m is q r
      → Runs m (i ∷ is) p r

pub Runs-run_all :
    {m : Memory} {is : List Instruction} {p q : Processor} → Runs m is p q → run_all is m p ≡ some q
unfolding run_all fetches
Runs-run_all (done p) = refl
Runs-run_all (next q h s rest) =
    rw (run_all, fetches, h trampoline_addr (omega arith), s) (Runs-run_all rest)

pub unpaged-IsFlat : (m : Memory) (p : Processor) → flag 31 p.cr0 ≡ false → IsFlat m p
unfolding physical
unpaged-IsFlat m p h a k = rw h refl

pub lgdtl_step :
    (m : Memory) (p : Processor)
    → IsFlat m p
    → (a limit base : ℕ) → p.ds_base + a + 6 ≤ k_2mb
    → read m.bytes (p.ds_base + a) 2 ≡ limit
    → read m.bytes (p.ds_base + a + 2) 4 ≡ base
    → step (lgdtl a) m p ≡ some (record p { gdt_limit = limit; gdt_base = base })
unfolding step
lgdtl_step m p h a limit base k e₁ e₂ =
    rw
      (
        step,
        load_bytes-read m p h (p.ds_base + a) 2 (omega arith),
        load_bytes-read m p h (p.ds_base + a + 2) 4 (omega arith),
        e₁,
        e₂,
      )
      refl

descriptor_lem :
    (m : Memory) (p : Processor)
    → IsFlat m p
    → (sel d : ℕ) → sel + 7 ≤ p.gdt_limit
    → 0 < sel
    → p.gdt_base + sel + 8 ≤ k_2mb
    → read m.bytes (p.gdt_base + sel) 8 ≡ d
    → descriptor m p sel ≡ some d
unfolding descriptor
descriptor_lem m p h sel d lim nz k e =
    rw (descriptor, load_bytes-read m p h (p.gdt_base + sel) 8 (omega arith), e) (ground arith)

-- A segment of data that the table has.
pub to_ds_step :
    (m : Memory) (p : Processor)
    → IsFlat m p
    → (sel d : ℕ) → sel + 7 ≤ p.gdt_limit
    → 0 < sel
    → p.gdt_base + sel + 8 ≤ k_2mb
    → read m.bytes (p.gdt_base + sel) 8 ≡ d
    → flag 0 p.cr0 ≡ true
    → is_readable d ≡ true
    → to_ds sel m p ≡ some (record p { ds = sel; ds_base = base_of d })
unfolding to_ds
to_ds_step m p h sel d lim nz k e pe ok =
    rw (to_ds, descriptor_lem m p h sel d lim nz k e, pe, ok) refl

pub to_ss_step :
    (m : Memory) (p : Processor)
    → IsFlat m p
    → (sel d : ℕ) → sel + 7 ≤ p.gdt_limit
    → 0 < sel
    → p.gdt_base + sel + 8 ≤ k_2mb
    → read m.bytes (p.gdt_base + sel) 8 ≡ d
    → flag 0 p.cr0 ≡ true
    → is_stack d ≡ true
    → to_ss sel m p ≡ some (record p { ss = sel })
unfolding to_ss
to_ss_step m p h sel d lim nz k e pe ok =
    rw (to_ss, descriptor_lem m p h sel d lim nz k e, pe, ok) refl

-- A far jump to the segments of 32-bit and of 64-bit code.
pub ljmp32_step :
    (m : Memory) (p : Processor)
    → IsFlat m p
    → (sel offset : ℕ) → sel + 7 ≤ p.gdt_limit
    → 0 < sel
    → p.gdt_base + sel + 8 ≤ k_2mb
    → read m.bytes (p.gdt_base + sel) 8 ≡ 0x00CF_9A00_0000_FFFF
    → long_mode p ≡ false
    → offset < 2 ^ 32
    → step (ljmp sel offset) m p
      ≡ some (record p { rip = offset; cs = sel; cs_base = 0; cs_big = true; cs_long = false })
unfolding step far_jump
ljmp32_step m p h sel offset lim nz k e lm small =
    rw (step, far_jump, descriptor_lem m p h sel 0x00CF_9A00_0000_FFFF lim nz k e, lm)
      (ground arith)

pub ljmp64_step :
    (m : Memory) (p : Processor)
    → IsFlat m p
    → (sel offset : ℕ) → sel + 7 ≤ p.gdt_limit
    → 0 < sel
    → p.gdt_base + sel + 8 ≤ k_2mb
    → read m.bytes (p.gdt_base + sel) 8 ≡ 0x0020_9A00_0000_0000
    → long_mode p ≡ true
    → step (ljmp sel offset) m p
      ≡ some (record p { rip = offset; cs = sel; cs_base = 0; cs_big = false; cs_long = true })
unfolding step far_jump
ljmp64_step m p h sel offset lim nz k e lm =
    rw (step, far_jump, descriptor_lem m p h sel 0x0020_9A00_0000_0000 lim nz k e, lm) refl

pub to_cr0_step :
    (c : ℕ) (p : Processor) → cr0_allowed c p ≡ true → to_cr0 c p ≡ some (record p { cr0 = c })
unfolding to_cr0
to_cr0_step c p h = rw (to_cr0, h) refl

pub to_cr4_step :
    (c : ℕ) (p : Processor) → flag 5 c ≡ true → to_cr4 c p ≡ some (record p { cr4 = c })
unfolding to_cr4
to_cr4_step c p h = elim (Bool-cases (long_mode p)) [
  | inl e ↦ rw (to_cr4, e, h) refl
  | inr e ↦ rw (to_cr4, e) refl
]
