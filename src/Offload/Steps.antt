-- ===== src/Offload/Steps.antt =====
-- A step of any processor leads from a stage to a stage.
use toshokan.Base.{
  ℕ, ◌≡◌, ◌≢◌, true, zero, suc, List, [], ◌∷◌, arith, refl, sym, ℕ_discrete, update_ne, update_self,
}
use toshokan.Offload.{Loc, try_lock, poll, Cpu, Mem, exec, System, step, run, start, start_cpu}
use toshokan.Offload.Stages.{
  Stage, free, held, saved, asked, claimed, host_saving, host_saved, entering, branching, running,
  ran, resaved, leaving, back, finishing, answered, reloading, acking, resumed, unlocking, outside,
  During, Inv,
}

-- Where a step of the hakase process leads.
abbrev pub after_host : Stage → Loc → Stage
after_host asked poll = claimed
after_host claimed l = host_saving
after_host host_saving l = host_saved
after_host host_saved l = entering
after_host entering l = branching
after_host branching l = running
after_host running l = ran
after_host ran l = resaved
after_host resaved l = leaving
after_host leaving l = back
after_host back l = finishing
after_host finishing l = answered
after_host st l = st

-- Where a step of the owner leads.
abbrev pub after_owner : Stage → Loc → Stage
after_owner free try_lock = held
after_owner held l = saved
after_owner saved l = asked
after_owner answered l = reloading
after_owner reloading l = acking
after_owner acking l = resumed
after_owner resumed l = unlocking
after_owner unlocking l = free
after_owner st l = st

host_step :
    (st : Stage) {o j : ℕ} {m : Mem} (h : Cpu) {c : Cpu}
    → During st o j m h c
    → During (after_host st h.loc) o j (exec 0 m h).0 (exec 0 m h).1 c
unfolding exec
host_step claimed h d = ground arith
host_step st h d = ground arith

owner_step :
    (st : Stage) {o j : ℕ} {m : Mem} {h : Cpu} (c : Cpu)
    → o ≢ 0
    → During st o j m h c
    → During (after_owner st c.loc) o j (exec o m c).0 h (exec o m c).1
unfolding exec
owner_step free c ne d = ground arith
owner_step st c ne d = ground arith

-- A friend core outside the macro, while another holds the lock.
shut_out :
    {i : ℕ} {m : Mem} (d : Cpu)
    → m.lock ≡ 1
    → d.frame ≡ i
    → outside d.loc ≡ true
    → ((exec i m d).0 ≡ m) × ((exec i m d).1.frame ≡ i) × (outside (exec i m d).1.loc ≡ true)
unfolding exec
shut_out d l f e = ground arith

-- While nobody holds the lock, any friend core is as good an owner as another.
hand_over :
    {o i j : ℕ} {m : Mem} {h c d : Cpu}
    → During free o j m h c
    → During free o i m h c
    → i ≢ o
    → d.frame ≡ i
    → outside d.loc ≡ true
    → During free i j m h d
hand_over a b ne f e = ground arith

-- Some stage with some owner.
abbrev pub Reached : System → Type 0
Reached s = (st : Stage) × (o : ℕ) × Inv st o s

moved : (s : System) (p j : ℕ) → p ≢ j → (step p s).cpu j ≡ s.cpu j
unfolding step
moved s p j ne = update_ne s.cpu p j (exec p s.mem (s.cpu p)).1 ne

mover : (s : System) (p : ℕ) → (step p s).cpu p ≡ (exec p s.mem (s.cpu p)).1
unfolding step
mover s p = update_self s.cpu p (exec p s.mem (s.cpu p)).1

pub host-Inv :
    {s : System} {st : Stage} {o : ℕ} → Inv st o s → Inv (after_host st (s.cpu 0).loc) o (step 0 s)
unfolding step
host-Inv {s} {st} {o} v = record {
  is_friend = v.is_friend;
  during = λ j. rw (moved s 0 o (λ e. v.is_friend (sym e))) (host_step st (s.cpu 0) (v.during j));
  apart = λ j nz ne. rw (moved s 0 j (λ e. nz (sym e))) (v.apart j nz ne);
}

pub owner-Inv :
    {s : System} {st : Stage} {o : ℕ} → Inv st o s → Inv (after_owner st (s.cpu o).loc) o (step o s)
unfolding step
owner-Inv {s} {st} {o} v = record {
  is_friend = v.is_friend;
  during = λ j.
      rw (moved s o 0 v.is_friend, mover s o) (owner_step st (s.cpu o) v.is_friend (v.during j));
  apart = λ j nz ne. rw (moved s o j (λ e. ne (sym e))) (v.apart j nz ne);
}

-- With the lock free, any friend core counts as its next owner.
pub any-Inv : {s : System} {o i : ℕ} → i ≢ 0 → Inv free o s → Inv free i s
any-Inv {s} {o} {i} nz v = elim (ℕ_discrete i o) [
  | yes e ↦ rw e v
  | no ne ↦ record {
    is_friend = nz;
    during = λ j. hand_over (v.during j) (v.during i) ne (v.apart i nz ne).0 (v.apart i nz ne).1;
    apart = λ j nj ni. elim (ℕ_discrete j o) [
      | yes e ↦ rw e (v.during 0).owner
      | no e ↦ v.apart j nj e
    ];
  }
]

other-Inv :
    (st : Stage) {s : System} {o : ℕ} (i : ℕ) → i ≢ 0 → i ≢ o → Inv st o s → Reached (step i s)
unfolding step
other-Inv free {s} {o} i nz ne v = (after_owner free (s.cpu i).loc, i, owner-Inv (any-Inv nz v))
other-Inv st {s} {o} i nz ne v = (
  st,
  o,
  record {
    is_friend = v.is_friend;
    during = λ j. rw (moved s i 0 nz, moved s i o ne, stays.0) (v.during j);
    apart = λ j nj nk. elim (ℕ_discrete i j) [
      | yes e ↦ rw (← e, mover s i) (stays.1, stays.2)
      | no e ↦ rw (moved s i j e) (v.apart j nj nk)
    ];
  },
)
  where
    stays :
        ((exec i s.mem (s.cpu i)).0 ≡ s.mem)
        × ((exec i s.mem (s.cpu i)).1.frame ≡ i)
        × (outside (exec i s.mem (s.cpu i)).1.loc ≡ true)
    stays = shut_out (s.cpu i) (v.during 0).locked (v.apart i nz ne).0 (v.apart i nz ne).1

-- A step of any processor.
pub step-Inv : (p : ℕ) {s : System} → Reached s → Reached (step p s)
step-Inv p {s} (st, o, v) = elim (ℕ_discrete p 0) [
  | yes e ↦ rw e (after_host st (s.cpu 0).loc, o, host-Inv v)
  | no nz ↦ elim (ℕ_discrete p o) [
    | yes e ↦ rw e (after_owner st (s.cpu o).loc, o, owner-Inv v)
    | no ne ↦ other-Inv st p nz ne v
  ]
]

pub run-Inv : (ps : List ℕ) {s : System} → Reached s → Reached (run ps s)
unfolding run
run-Inv [] r = r
run-Inv (p ∷ ps) r = run-Inv ps (step-Inv p r)

pub start-Inv : Reached start
start-Inv = (free, 1, record { is_friend = omega arith; during = λ j. ground arith; apart = apart })
  where
    apart : (j : ℕ) → j ≢ 0 → j ≢ 1 → ((start_cpu j).frame ≡ j) × (outside (start_cpu j).loc ≡ true)
    apart zero nz ne = absurd (nz refl)
    apart (suc j) nz ne = (refl, refl)
