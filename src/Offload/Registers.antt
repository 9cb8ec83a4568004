-- ===== src/Offload/Registers.antt =====
-- common/offload.S on the registers of the machine: `toshokan_setjmp`, `toshokan_longjmp` and
-- `toshokan_setjmp_with_wait`, an instruction after the other.
use toshokan.Base.{ℕ, ◌+◌, ◌-◌, ◌≡◌, ◌<◌, ◌^◌, ◌%◌, refl, arith, update, update_self}

-- The callee-saved registers, the stack pointer, the return value, and the program counter.
pub record Regs : Type 0 where
  pub rbx : ℕ
  pub rbp : ℕ
  pub r12 : ℕ
  pub r13 : ℕ
  pub r14 : ℕ
  pub r15 : ℕ
  pub rsp : ℕ
  pub rax : ℕ
  pub rip : ℕ

-- `toshokan_jmp_buf`, ten words, by the registers that the routines put there.
pub record JmpBuf : Type 0 where
  pub w0 : ℕ  -- %rbx
  pub w1 : ℕ  -- %rbp
  pub w2 : ℕ  -- %r12
  pub w3 : ℕ  -- %r13
  pub w4 : ℕ  -- %r14
  pub w5 : ℕ  -- %r15
  pub w6 : ℕ  -- %rsp of the caller
  pub w7 : ℕ  -- return address
  pub w8 : ℕ  -- set by a friend core that waits
  pub w9 : ℕ  -- set when it may go on

-- 64-bit words of the stack, by address.
abbrev pub Stack : Type 0
Stack = ℕ → ℕ

abbrev down8 : ℕ → ℕ
down8 a = (a + 2 ^ 64 - 8) % 2 ^ 64

abbrev up8 : ℕ → ℕ
up8 a = (a + 8) % 2 ^ 64

-- `ret`: the return address is popped into the program counter.
abbrev ret : Stack → Regs → Regs
ret k r = record r { rip = k r.rsp; rsp = up8 r.rsp }

-- `call`, by which a caller at `next` gets into one of the routines.
abbrev pub call : Stack → Regs → ℕ → Stack × Regs
call k r next = (update k (down8 r.rsp) next, record r { rsp = down8 r.rsp })

-- The first eight stores of both `setjmp` routines.
abbrev save_regs : Stack → Regs → JmpBuf → JmpBuf
save_regs k r b = record b {
  w0 = r.rbx;
  w1 = r.rbp;
  w2 = r.r12;
  w3 = r.r13;
  w4 = r.r14;
  w5 = r.r15;
  w6 = up8 r.rsp;
  w7 = k r.rsp;
}

pub setjmp : Stack → Regs → JmpBuf → JmpBuf × Regs
setjmp k r b = (save_regs k r b, ret k (record r { rax = 0 }))

-- `movq 8(%rdi), %rbp` to `movq 40(%rdi), %r15`, with the push of the return address.
abbrev load_regs : Stack → Regs → JmpBuf → Stack × Regs
load_regs k r b = (
  update k (down8 b.w6) b.w7,
  record r {
    rbx = b.w0;
    rbp = b.w1;
    r12 = b.w2;
    r13 = b.w3;
    r14 = b.w4;
    r15 = b.w5;
    rsp = down8 b.w6;
  },
)

pub longjmp : Stack → Regs → JmpBuf → ℕ → Stack × Regs
longjmp k r b val = let (k', r') = load_regs k (record r { rax = val }) b in (k', ret k' r')

-- `toshokan_setjmp_with_wait` up to the label `1`, and behind the loop.
pub wait_save : Stack → Regs → JmpBuf → JmpBuf
wait_save k r b = record (save_regs k r b) { w8 = 1 }

pub wait_resume : Stack → Regs → JmpBuf → Stack × Regs × JmpBuf
wait_resume k r b =
    let (k', r') = load_regs k r b in (k', ret k' (record r' { rax = 1 }), record b { w9 = 0 })

up8-down8 : (a : ℕ) → a < 2 ^ 64 → up8 (down8 a) ≡ a
up8-down8 a h = omega arith

-- A call of `setjmp` returns 0 to the instruction behind the call, with the registers of the
-- caller. A `longjmp` with the buffer that it filled returns the given value to the same place with
-- the same registers, whatever stack and registers it is called with: another processor may do so.
pub longjmp-setjmp :
    (k k' : Stack) (r r' : Regs) (b : JmpBuf) (next val : ℕ)
    → r.rsp < 2 ^ 64
    → let (k₁, r₁) = call k r next in
      let (b₁, r₂) = setjmp k₁ r₁ b in
      (r₂ ≡ record r { rax = 0; rip = next })
      × ((longjmp k' r' b₁ val).1 ≡ record r { rax = val; rip = next })
unfolding setjmp longjmp
longjmp-setjmp k k' r r' b next val hi =
    let back = up8-down8 r.rsp hi in
    let word = update_self k (down8 r.rsp) next in
    let pushed = update_self k' (down8 r.rsp) next in
    (rw (back, word), rw (back, word, pushed, back))

-- The core that waits is resumed, with 1, from the buffer as it is when word 9 is seen: where a
-- second `setjmp` has filled the buffer anew, at that second call.
pub wait_resume-setjmp :
    (k k' : Stack) (r r' : Regs) (b : JmpBuf) (next : ℕ)
    → r.rsp < 2 ^ 64
    → let (k₁, r₁) = call k r next in
      let (b₁, _) = setjmp k₁ r₁ b in
      let (_, r₂, b₂) = wait_resume k' r' b₁ in
      (r₂ ≡ record r { rax = 1; rip = next }) × (b₂.w9 ≡ 0) × (b₂.w8 ≡ b.w8)
unfolding setjmp wait_resume
wait_resume-setjmp k k' r r' b next hi =
    let back = up8-down8 r.rsp hi in
    let word = update_self k (down8 r.rsp) next in
    let pushed = update_self k' (down8 r.rsp) next in (rw (back, word, pushed, back), refl, refl)
