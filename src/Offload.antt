-- ===== src/Offload.antt =====
-- The macro `_OFFLOAD` and `Offloader::TryReceive` of common/offload.h, and the three routines of
-- common/offload.S that they call, as one step function for a processor. Processor 0 is the hakase
-- process, which calls `TryReceive` again and again; every other number is a friend core, which
-- runs `_OFFLOAD` again and again. Memory is sequentially consistent, and the eight stores and
-- loads of the saved registers are one step.
pub mod Stages
pub mod Steps
pub mod Registers
pub mod Safety
pub mod Progress
mod Tests
use toshokan.Base.{ℕ, zero, suc, ◌+◌, List, [], ◌∷◌, Bool, true, false, ◌==◌, if◌then◌else◌, update}

-- The three calls of a `setjmp` routine, to whose return a saved context leads.
pub data Point : Type 0 where
  at_wait : Point  -- `toshokan_setjmp_with_wait(_friend_ctx)` in `_OFFLOAD`
  at_inner : Point  -- `toshokan_setjmp(_friend_ctx)` in `_OFFLOAD`
  at_host : Point  -- `toshokan_setjmp(_hakase_ctx)` in `TryReceive`

-- Where a processor stands.
pub data Loc : Type 0 where
  idle : Loc  -- outside the macro, or at the head of its lock loop
  try_lock : Loc  -- `_lock` was read as 0, before the compare-and-swap
  save : Loc  -- `toshokan_setjmp_with_wait`, before it stores the registers
  publish : Loc  -- before `movq $1, 64(%rdi)`
  spin : Loc  -- `1: cmpq $0, 72(%rdi)`
  reload : Loc  -- the comparison has failed: before the registers are loaded
  ack : Point → Loc  -- before `movq $0, 72(%rdi)`, with the return address loaded
  branch : (r : ℕ) → Loc  -- `toshokan_setjmp_with_wait` has returned `r`
  code : Loc  -- before `code`
  resave : Loc  -- after `code`, before the second `setjmp`
  rebranch : (r : ℕ) → Loc  -- which has returned `r`
  leave : Loc  -- before `toshokan_longjmp(_hakase_ctx, 1)`
  unlock : Loc  -- before `_lock = 0`
  poll : Loc  -- `TryReceive`, before it reads `_friend_ctx[8]`
  claim : Loc  -- before `_friend_ctx[8] = 0`
  host_save : Loc  -- before `toshokan_setjmp(_hakase_ctx)`
  host_branch : (r : ℕ) → Loc  -- which has returned `r`
  enter : Loc  -- before `toshokan_longjmp(_friend_ctx, 1)`
  finish : Loc  -- before `_friend_ctx[9] = 1`
  returned : (b : Bool) → Loc  -- `TryReceive` has returned `b`

-- A processor: the stack that it is on, named by the processor that the stack belongs to, and where
-- in the code it is.
pub record Cpu : Type 0 where
  pub frame : ℕ
  pub loc : Loc

-- The registers in a `toshokan_jmp_buf`: the stack, and the return address.
pub record Ctx : Type 0 where
  pub frame : ℕ
  pub point : Point

-- `Offloader`, with words 8 and 9 of `_friend_ctx` apart. The last three fields are no memory of
-- the program: they count, for each stack, the runs of its `code` by the hakase process, the runs
-- by a friend core, and the uses of the macro that have ended.
pub record Mem : Type 0 where
  pub lock : ℕ
  pub ready : ℕ
  pub done : ℕ
  pub friend_ctx : Ctx
  pub hakase_ctx : Ctx
  pub hosted : ℕ → ℕ
  pub strayed : ℕ → ℕ
  pub ended : ℕ → ℕ

-- The place behind the call, with `r` in `%rax`.
abbrev pub resume : Point → ℕ → Loc
resume at_wait r = branch r
resume at_inner r = rebranch r
resume at_host r = host_branch r

-- The registers as a `setjmp` called at `p` stores them.
abbrev pub here : Cpu → Point → Ctx
here c p = record { frame = c.frame; point = p }

-- `toshokan_longjmp(ctx, val)`.
abbrev pub longjmp : Ctx → ℕ → Cpu
longjmp x val = record { frame = x.frame; loc = resume x.point val }

-- The processor stays on its stack and goes on at `l`.
abbrev pub goto : Cpu → Loc → Cpu
goto c l = record c { loc = l }

-- `code` runs: the counter depends on the processor.
abbrev tally : ℕ → ℕ → Mem → Mem
tally p i m =
    if p == 0
    then record m { hosted = update m.hosted i (m.hosted i + 1) }
    else record m { strayed = update m.strayed i (m.strayed i + 1) }

-- One step of processor `p`.
exec_at : Loc → ℕ → Mem → Cpu → Mem × Cpu
exec_at idle p m c = (m, if m.lock == 0 then goto c try_lock else c)
exec_at try_lock p m c =
    if m.lock == 0 then (record m { lock = 1 }, goto c save) else (m, goto c idle)
exec_at save p m c = (record m { friend_ctx = here c at_wait }, goto c publish)
exec_at publish p m c = (record m { ready = 1 }, goto c spin)
exec_at spin p m c = (m, if m.done == 0 then c else goto c reload)
exec_at reload p m c = (m, record { frame = m.friend_ctx.frame; loc = ack m.friend_ctx.point })
exec_at (ack q) p m c = (record m { done = 0 }, goto c (resume q 1))
exec_at (branch r) p m c = (m, goto c (if r == 0 then unlock else code))
exec_at code p m c = (tally p c.frame m, goto c resave)
exec_at resave p m c = (record m { friend_ctx = here c at_inner }, goto c (rebranch 0))
exec_at (rebranch r) p m c = (m, goto c (if r == 0 then leave else unlock))
exec_at leave p m c = (m, longjmp m.hakase_ctx 1)
exec_at unlock p m c =
    (record m { lock = 0; ended = update m.ended c.frame (m.ended c.frame + 1) }, goto c idle)
exec_at poll p m c = (m, goto c (if m.ready == 0 then returned false else claim))
exec_at claim p m c = (record m { ready = 0 }, goto c host_save)
exec_at host_save p m c = (record m { hakase_ctx = here c at_host }, goto c (host_branch 0))
exec_at (host_branch r) p m c = (m, goto c (if r == 0 then enter else finish))
exec_at enter p m c = (m, longjmp m.friend_ctx 1)
exec_at finish p m c = (record m { done = 1 }, goto c (returned true))
exec_at (returned b) p m c = (m, goto c poll)

pub exec : ℕ → Mem → Cpu → Mem × Cpu
unfolding exec_at
exec p m c = exec_at c.loc p m c

pub record System : Type 0 where
  pub mem : Mem
  pub cpu : ℕ → Cpu

-- Processor `p` takes a step.
pub step : ℕ → System → System
unfolding exec
step p s = let (m, c) = exec p s.mem (s.cpu p) in record { mem = m; cpu = update s.cpu p c }

-- The processors take steps in the order of the list.
pub run : List ℕ → System → System
run [] s = s
run (p ∷ ps) s = run ps (step p s)

-- Zeroed memory, the hakase process before a call of `TryReceive`, every friend core outside the
-- macro.
abbrev pub start_cpu : ℕ → Cpu
start_cpu zero = record { frame = 0; loc = poll }
start_cpu (suc i) = record { frame = suc i; loc = idle }

abbrev pub start : System
start = record {
  mem = record {
    lock = 0;
    ready = 0;
    done = 0;
    friend_ctx = record { frame = 0; point = at_wait };
    hakase_ctx = record { frame = 0; point = at_wait };
    hosted = λ _. 0;
    strayed = λ _. 0;
    ended = λ _. 0;
  };
  cpu = start_cpu;
}
