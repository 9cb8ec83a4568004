-- ===== src/Offload/Stages.antt =====
-- The course of one use of `_OFFLOAD`: what memory holds, where the hakase process is and where the
-- friend core that owns the lock is, from one shared access to the next.
use toshokan.Base.{ℕ, ◌+◌, ◌≡◌, ◌≢◌, Bool, true, false}
use toshokan.Offload.{
  Point, at_wait, at_inner, at_host, Loc, idle, try_lock, save, publish, spin, reload, ack, branch,
  code, resave, rebranch, leave, unlock, poll, claim, host_save, host_branch, enter, finish,
  returned, Cpu, Ctx, Mem, System,
}

pub data Stage : Type 0 where
  free held saved asked claimed host_saving host_saved entering branching running ran : Stage
  resaved leaving back finishing answered reloading acking resumed unlocking : Stage

-- The friend core is outside the macro, or has not got the lock.
abbrev pub outside : Loc → Bool
outside idle = true
outside try_lock = true
outside _ = false

-- The hakase process has found no request in its present call of `TryReceive`.
abbrev pub resting : Loc → Bool
resting poll = true
resting (returned b) = true
resting _ = false

abbrev pub lock_at : Stage → ℕ
lock_at free = 0
lock_at _ = 1

abbrev pub ready_at : Stage → ℕ
ready_at asked = 1
ready_at claimed = 1
ready_at _ = 0

abbrev pub done_at : Stage → ℕ
done_at answered = 1
done_at reloading = 1
done_at acking = 1
done_at _ = 0

-- Whether `code` has run in this use of the macro.
abbrev pub ran_at : Stage → ℕ
ran_at ran = 1
ran_at resaved = 1
ran_at leaving = 1
ran_at back = 1
ran_at finishing = 1
ran_at answered = 1
ran_at reloading = 1
ran_at acking = 1
ran_at resumed = 1
ran_at unlocking = 1
ran_at _ = 0

abbrev Is : Cpu → ℕ → Loc → Type 0
Is c i l = (c.frame ≡ i) × (c.loc ≡ l)

abbrev pub HostAt : Stage → ℕ → Cpu → Type 0
HostAt claimed o h = Is h 0 claim
HostAt host_saving o h = Is h 0 host_save
HostAt host_saved o h = Is h 0 (host_branch 0)
HostAt entering o h = Is h 0 enter
HostAt branching o h = Is h o (branch 1)
HostAt running o h = Is h o code
HostAt ran o h = Is h o resave
HostAt resaved o h = Is h o (rebranch 0)
HostAt leaving o h = Is h o leave
HostAt back o h = Is h 0 (host_branch 1)
HostAt finishing o h = Is h 0 finish
HostAt _ o h = (h.frame ≡ 0) × (resting h.loc ≡ true)

abbrev pub OwnerAt : Stage → ℕ → Cpu → Type 0
OwnerAt free o c = (c.frame ≡ o) × (outside c.loc ≡ true)
OwnerAt held o c = Is c o save
OwnerAt saved o c = Is c o publish
OwnerAt reloading o c = Is c o reload
OwnerAt acking o c = Is c o (ack at_inner)
OwnerAt resumed o c = Is c o (rebranch 1)
OwnerAt unlocking o c = Is c o unlock
OwnerAt _ o c = Is c o spin

abbrev Holds : Ctx → ℕ → Point → Type 0
Holds x i p = (x.frame ≡ i) × (x.point ≡ p)

-- The contexts that a later step jumps to.
abbrev pub CtxAt : Stage → ℕ → Mem → Type 0
CtxAt free o m = Unit {0}
CtxAt held o m = Unit {0}
CtxAt resumed o m = Unit {0}
CtxAt unlocking o m = Unit {0}
CtxAt saved o m = Holds m.friend_ctx o at_wait
CtxAt asked o m = Holds m.friend_ctx o at_wait
CtxAt claimed o m = Holds m.friend_ctx o at_wait
CtxAt host_saving o m = Holds m.friend_ctx o at_wait
CtxAt host_saved o m = Holds m.friend_ctx o at_wait × Holds m.hakase_ctx 0 at_host
CtxAt entering o m = Holds m.friend_ctx o at_wait × Holds m.hakase_ctx 0 at_host
CtxAt branching o m = Holds m.hakase_ctx 0 at_host
CtxAt running o m = Holds m.hakase_ctx 0 at_host
CtxAt ran o m = Holds m.hakase_ctx 0 at_host
CtxAt resaved o m = Holds m.friend_ctx o at_inner × Holds m.hakase_ctx 0 at_host
CtxAt leaving o m = Holds m.friend_ctx o at_inner × Holds m.hakase_ctx 0 at_host
CtxAt _ o m = Holds m.friend_ctx o at_inner

-- Stage `st` of a use by friend core `o`, with `h` the hakase process and `c` the friend core; the
-- counters are those of `o`, and of any stack `j`.
pub record During (st : Stage) (o j : ℕ) (m : Mem) (h c : Cpu) : Type 0 where
  pub locked : m.lock ≡ lock_at st
  pub flagged : m.ready ≡ ready_at st
  pub answer : m.done ≡ done_at st
  pub host : HostAt st o h
  pub owner : OwnerAt st o c
  pub contexts : CtxAt st o m
  pub counted : m.hosted o ≡ m.ended o + ran_at st
  pub others : j ≢ o → m.hosted j ≡ m.ended j
  pub clean : m.strayed j ≡ 0

-- Some use is under way, or none; every friend core but its owner is outside.
pub record Inv (st : Stage) (o : ℕ) (s : System) : Type 0 where
  pub is_friend : o ≢ 0
  pub during : (j : ℕ) → During st o j s.mem (s.cpu 0) (s.cpu o)
  pub apart : (j : ℕ) → j ≢ 0 → j ≢ o → ((s.cpu j).frame ≡ j) × (outside (s.cpu j).loc ≡ true)
