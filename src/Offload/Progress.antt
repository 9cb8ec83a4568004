-- ===== src/Offload/Progress.antt =====
-- `_OFFLOAD` cannot get stuck: the steps that take a use of the macro to its end.
use toshokan.Base.{ℕ, ◌≡◌, ◌≢◌, ◌≤◌, ◌<◌, List, [], ◌∷◌, ◌++◌, Bool, true, arith, refl, ap}
use toshokan.Offload.{Loc, idle, try_lock, poll, returned, Cpu, Mem, exec, System, step, run, start}
use toshokan.Offload.Stages.{
  Stage, free, held, saved, asked, claimed, host_saving, host_saved, entering, branching, running,
  ran, resaved, leaving, back, finishing, answered, reloading, acking, resumed, unlocking, outside,
  resting, During, Inv,
}
use toshokan.Offload.Steps.{
  after_host, after_owner, host-Inv, owner-Inv, any-Inv, run-Inv, start-Inv,
}

run-append : (ps qs : List ℕ) (s : System) → run (ps ++ qs) s ≡ run qs (run ps s)
unfolding run
run-append [] qs s = refl
run-append (p ∷ ps) qs s = run-append ps qs (step p s)

exec-ended : (p : ℕ) (m : Mem) (c : Cpu) (i : ℕ) → m.ended i ≤ (exec p m c).0.ended i
unfolding exec
exec-ended p m c i = ground arith

step-ended : (p : ℕ) (s : System) (i : ℕ) → s.mem.ended i ≤ (step p s).mem.ended i
unfolding step
step-ended p s i = exec-ended p s.mem (s.cpu p) i

run-ended : (ps : List ℕ) (s : System) (i : ℕ) → s.mem.ended i ≤ (run ps s).mem.ended i
unfolding run
run-ended [] s i = omega arith
run-ended (p ∷ ps) s i = omega (arith, step-ended p s i, run-ended ps (step p s) i)

-- Some steps end a use by `o`, and leave the lock free.
abbrev Ends : ℕ → System → Type 0
Ends o s = (ps : List ℕ) × Inv free o (run ps s) × (s.mem.ended o < (run ps s).mem.ended o)

later : {o : ℕ} (p : ℕ) (s : System) → Ends o (step p s) → Ends o s
unfolding run
later {o} p s (ps, v, h) = (p ∷ ps, v, omega (arith, step-ended p s o))

unlock_ends :
    {o j : ℕ} {m : Mem} {h c : Cpu}
    → During unlocking o j m h c
    → m.ended o < (exec o m c).0.ended o
unfolding exec
unlock_ends d = ground arith

from_unlocking : {o : ℕ} {s : System} → Inv unlocking o s → Ends o s
unfolding run step
from_unlocking {o} v = (o ∷ [], owner-Inv v, unlock_ends (v.during o))

from_acking : {o : ℕ} {s : System} → Inv acking o s → Ends o s
from_acking {o} {s} v = later o s (later o _ (from_unlocking (owner-Inv (owner-Inv v))))

from_answered : {o : ℕ} {s : System} → Inv answered o s → Ends o s
from_answered {o} {s} v = later o s (later o _ (from_acking (owner-Inv (owner-Inv v))))

from_leaving : {o : ℕ} {s : System} → Inv leaving o s → Ends o s
from_leaving {o} {s} v =
    later 0 s (later 0 _ (later 0 _ (from_answered (host-Inv (host-Inv (host-Inv v))))))

from_running : {o : ℕ} {s : System} → Inv running o s → Ends o s
from_running {o} {s} v =
    later 0 s (later 0 _ (later 0 _ (from_leaving (host-Inv (host-Inv (host-Inv v))))))

from_entering : {o : ℕ} {s : System} → Inv entering o s → Ends o s
from_entering {o} {s} v = later 0 s (later 0 _ (from_running (host-Inv (host-Inv v))))

from_claimed : {o : ℕ} {s : System} → Inv claimed o s → Ends o s
from_claimed {o} {s} v =
    later 0 s (later 0 _ (later 0 _ (from_entering (host-Inv (host-Inv (host-Inv v))))))

-- The hakase process polls, or is about to call `TryReceive` once more.
from_asked_poll : {o : ℕ} {s : System} → (s.cpu 0).loc ≡ poll → Inv asked o s → Ends o s
from_asked_poll {o} {s} e v =
    later 0 s (from_claimed (rw (ap (after_host asked) e) at (host-Inv v)))

polls_again : (s : System) {b : Bool} → (s.cpu 0).loc ≡ returned b → ((step 0 s).cpu 0).loc ≡ poll
unfolding step exec
polls_again s e = ground arith

from_asked : {o : ℕ} {s : System} → Inv asked o s → Ends o s
from_asked {o} {s} v = go (s.cpu 0).loc refl (v.during 0).host.1
  where
    go : (l : Loc) → (s.cpu 0).loc ≡ l → resting (s.cpu 0).loc ≡ true → Ends o s
    go poll e r = from_asked_poll e v
    go (returned b) e r =
        later 0 s (from_asked_poll (polls_again s e) (rw (ap (after_host asked) e) at (host-Inv v)))
    go l e r = absurd (ground arith)

from_held : {o : ℕ} {s : System} → Inv held o s → Ends o s
from_held {o} {s} v = later o s (later o _ (from_asked (owner-Inv (owner-Inv v))))

locks :
    {o : ℕ} (s : System) → (s.cpu o).loc ≡ idle → s.mem.lock ≡ 0 → ((step o s).cpu o).loc ≡ try_lock
unfolding step exec
locks s e l = ground arith

from_try_lock : {o : ℕ} {s : System} → (s.cpu o).loc ≡ try_lock → Inv free o s → Ends o s
from_try_lock {o} {s} e v = later o s (from_held (rw (ap (after_owner free) e) at (owner-Inv v)))

from_free : {o : ℕ} {s : System} → Inv free o s → Ends o s
from_free {o} {s} v = go (s.cpu o).loc refl (v.during 0).owner.1
  where
    go : (l : Loc) → (s.cpu o).loc ≡ l → outside (s.cpu o).loc ≡ true → Ends o s
    go try_lock e r = from_try_lock e v
    go idle e r = later o s (
        from_try_lock (locks s e (v.during 0).locked)
          (rw (ap (after_owner free) e) at (owner-Inv v)))
    go l e r = absurd (ground arith)

-- From every stage.
ends : (st : Stage) {o : ℕ} {s : System} → Inv st o s → Ends o s
ends free v = from_free v
ends held v = from_held v
ends saved v = later _ _ (from_asked (owner-Inv v))
ends asked v = from_asked v
ends claimed v = from_claimed v
ends host_saving v = later 0 _ (later 0 _ (from_entering (host-Inv (host-Inv v))))
ends host_saved v = later 0 _ (from_entering (host-Inv v))
ends entering v = from_entering v
ends branching v = later 0 _ (from_running (host-Inv v))
ends running v = from_running v
ends ran v = later 0 _ (later 0 _ (from_leaving (host-Inv (host-Inv v))))
ends resaved v = later 0 _ (from_leaving (host-Inv v))
ends leaving v = from_leaving v
ends back v = later 0 _ (later 0 _ (from_answered (host-Inv (host-Inv v))))
ends finishing v = later 0 _ (from_answered (host-Inv v))
ends answered v = from_answered v
ends reloading v = later _ _ (from_acking (owner-Inv v))
ends acking v = from_acking v
ends resumed v = later _ _ (from_unlocking (owner-Inv v))
ends unlocking v = from_unlocking v

-- Whatever has happened, any friend core can still take a use of `_OFFLOAD` to its end.
pub never_stuck :
    (ps : List ℕ) (i : ℕ)
    → i ≢ 0
    → (qs : List ℕ) × ((run ps start).mem.ended i < (run (ps ++ qs) start).mem.ended i)
never_stuck ps i nz =
    let (st, o, v) = run-Inv ps start-Inv in
    let (qs, w, h) = ends st v in
    let (rs, u, k) = from_free (any-Inv nz w) in
    (
      qs ++ rs,
      rw (run-append ps (qs ++ rs) start, run-append qs rs (run ps start))
          (omega (arith, k, run-ended qs (run ps start) i)),
    )
