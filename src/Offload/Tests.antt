-- ===== src/Offload/Tests.antt =====
-- One use of `_OFFLOAD` from beginning to end, and the theorems about it there.
use toshokan.Base.{ℕ, ◌+◌, ◌≡◌, ◌≤◌, ◌<◌, List, [], ◌∷◌, ◌++◌, true, refl, arith}
use toshokan.Offload.{spin, exec, step, run, start}
use toshokan.Offload.Stages.{outside, resting}
use toshokan.Offload.Registers.{Regs, JmpBuf, call, setjmp, longjmp, longjmp-setjmp}
use toshokan.Offload.Safety.{code_runs_once, mutual_exclusion, stacks_apart}
use toshokan.Offload.Progress.{never_stuck}

-- Core 1 takes the lock and waits; the hakase process is about to run the code on its stack.
abbrev requested : List ℕ
requested = 1 ∷ 1 ∷ 1 ∷ 1 ∷ 0 ∷ 0 ∷ 0 ∷ 0 ∷ 0 ∷ 0 ∷ []

-- It runs the code and answers, and the core goes on.
abbrev one_use : List ℕ
one_use = requested ++ 0 ∷ 0 ∷ 0 ∷ 0 ∷ 0 ∷ 0 ∷ 1 ∷ 1 ∷ 1 ∷ 1 ∷ 1 ∷ []

one_use_counts :
    ((run one_use start).mem.hosted 1 ≡ 1)
    × ((run one_use start).mem.ended 1 ≡ 1)
    × ((run one_use start).mem.lock ≡ 0)
unfolding run step exec
one_use_counts = (refl, refl, refl)

code_runs_once_example :
    let s = run requested start in
    (s.mem.strayed 1 ≡ 0)
    × (s.mem.ended 1 ≤ s.mem.hosted 1)
    × (s.mem.hosted 1 ≤ s.mem.ended 1 + 1)
    × (outside (s.cpu 1).loc ≡ true → s.mem.hosted 1 ≡ s.mem.ended 1)
code_runs_once_example = code_runs_once requested 1 (omega arith)

mutual_exclusion_example : ◌≡◌ {A = ℕ} 1 1
unfolding run step exec
mutual_exclusion_example = mutual_exclusion requested 1 1 (omega arith) (omega arith) refl refl

stacks_apart_example :
    let s = run requested start in
    ((s.cpu 1).frame ≡ 1)
    × ((s.cpu 0).frame ≡ 1 → (s.cpu 1).loc ≡ spin)
    × (resting (s.cpu 0).loc ≡ true → (s.cpu 0).frame ≡ 0)
stacks_apart_example = stacks_apart requested 1 (omega arith)

never_stuck_example :
    (qs : List ℕ) × ((run requested start).mem.ended 2 < (run (requested ++ qs) start).mem.ended 2)
never_stuck_example = never_stuck requested 2 (omega arith)

abbrev some_regs : Regs
some_regs = record {
  rbx = 1;
  rbp = 2;
  r12 = 3;
  r13 = 4;
  r14 = 5;
  r15 = 6;
  rsp = 0x1000;
  rax = 7;
  rip = 8;
}

abbrev other_regs : Regs
other_regs = record some_regs { rbx = 11; rsp = 0x2000; rip = 18 }

abbrev no_buf : JmpBuf
no_buf = record { w0 = 0; w1 = 0; w2 = 0; w3 = 0; w4 = 0; w5 = 0; w6 = 0; w7 = 0; w8 = 1; w9 = 1 }

longjmp-setjmp_example :
    let (k₁, r₁) = call (λ _. 0) some_regs 0x400 in
    let (b₁, r₂) = setjmp k₁ r₁ no_buf in
    (r₂ ≡ record some_regs { rax = 0; rip = 0x400 })
    × ((longjmp (λ _. 9) other_regs b₁ 1).1 ≡ record some_regs { rax = 1; rip = 0x400 })
longjmp-setjmp_example =
    longjmp-setjmp (λ _. 0) (λ _. 9) some_regs other_regs no_buf 0x400 1 (omega arith)
