-- ===== src/Sample/Following.antt =====
-- The program of sample/ takes the steps of friend_init.
use toshokan.Base.{ℕ, zero, suc, ◌<◌, ◌≡◌, ◌⊎◌, inl, inr, refl, List, [], ◌∷◌, Bool-cases}
use toshokan.Friend.Runtime
use toshokan.Friend.Runtime.{
  Loc, waiting, ctor, main, count_up, compare, dtor, set_sync, done, exec, Reachable, at_start,
  then_step,
}
use toshokan.Sample.{
  Phase, counting, offloading, adding, over, Host, booting, looking, serving, returned, System,
  offload, host_step, main_step, core_step, has_started, step, run, start,
}
use toshokan.Sample.Gone.{Follows, untrue, core_step-gone}
use toshokan.Sample.Counts.{start-Counts, started_lt, core_step-Counts, host_step-Counts}

main_step-runtime :
    (a b n c : ℕ) (s : System) (p : Phase)
    → ((main_step a b n c p s).runtime ≡ s.runtime)
      ⊎ ((main_step a b n c p s).runtime ≡ Runtime.step a b c s.runtime)
unfolding main_step
main_step-runtime a b n c s counting = inl refl
main_step-runtime a b n c s (offloading i) = inl (offloaded s.host)
  where
    offloaded : (x : Host) → (offload a b n c i x s).runtime ≡ s.runtime
    offloaded serving = refl
    offloaded (booting k) = refl
    offloaded looking = refl
    offloaded (returned r) = refl
main_step-runtime a b n c s adding = inl refl
main_step-runtime a b n c s over = inr refl

-- What a step of a core does to the runtime: nothing, or a step of it.
pub core_step-runtime :
    (a b n c : ℕ) (s : System) (l : Loc)
    → ((core_step a b n c l s).runtime ≡ s.runtime)
      ⊎ ((core_step a b n c l s).runtime ≡ Runtime.step a b c s.runtime)
unfolding core_step
core_step-runtime a b n c s main = main_step-runtime a b n c s (s.phase c)
core_step-runtime a b n c s waiting = inr refl
core_step-runtime a b n c s (ctor k) = inr refl
core_step-runtime a b n c s count_up = inr refl
core_step-runtime a b n c s (compare r) = inr refl
core_step-runtime a b n c s (dtor k) = inr refl
core_step-runtime a b n c s set_sync = inr refl
core_step-runtime a b n c s done = inr refl

main_step-host : (a b n c : ℕ) (s : System) (p : Phase) → (main_step a b n c p s).host ≡ s.host
unfolding main_step
main_step-host a b n c s counting = refl
main_step-host a b n c s (offloading i) = offloaded s.host
  where
    offloaded : (x : Host) → (offload a b n c i x s).host ≡ s.host
    offloaded serving = refl
    offloaded (booting k) = refl
    offloaded looking = refl
    offloaded (returned r) = refl
main_step-host a b n c s adding = refl
main_step-host a b n c s over = refl

pub core_step-host : (a b n c : ℕ) (s : System) (l : Loc) → (core_step a b n c l s).host ≡ s.host
unfolding core_step
core_step-host a b n c s main = main_step-host a b n c s (s.phase c)
core_step-host a b n c s waiting = refl
core_step-host a b n c s (ctor k) = refl
core_step-host a b n c s count_up = refl
core_step-host a b n c s (compare r) = refl
core_step-host a b n c s (dtor k) = refl
core_step-host a b n c s set_sync = refl
core_step-host a b n c s done = refl

pub host_step-runtime :
    (a b n : ℕ) (s : System) (x : Host) → (host_step a b n x s).runtime ≡ s.runtime
unfolding host_step
host_step-runtime a b n s (booting k) = refl
host_step-runtime a b n s looking = refl
host_step-runtime a b n s serving = refl
host_step-runtime a b n s (returned r) = refl

host_step-phase : (a b n : ℕ) (s : System) (x : Host) → (host_step a b n x s).phase ≡ s.phase
unfolding host_step
host_step-phase a b n s (booting k) = refl
host_step-phase a b n s looking = refl
host_step-phase a b n s serving = refl
host_step-phase a b n s (returned r) = refl

pub core_step-Follows :
    (a b n c : ℕ) (s : System)
    → c < n
    → Follows a b n s
    → Follows a b n (core_step a b n c (s.runtime.loc c) s)
core_step-Follows a b n c s h v = record {
  counts = core_step-Counts a b n c s (s.runtime.loc c) h v.counts;
  reached = elim (core_step-runtime a b n c s (s.runtime.loc c)) [
    | inl e ↦ rw e v.reached
    | inr e ↦ rw e (then_step c h v.reached)
  ];
  gone = core_step-gone a b n c s (s.runtime.loc c) v refl;
}

pub host_step-Follows :
    (a b n : ℕ) (s : System) → Follows a b n s → Follows a b n (host_step a b n s.host s)
host_step-Follows a b n s v = record {
  counts = host_step-Counts a b n s s.host refl v.counts;
  reached = rw (host_step-runtime a b n s s.host) v.reached;
  gone = rw (host_step-runtime a b n s s.host, host_step-phase a b n s s.host) v.gone;
}

step-Follows : (a b n i : ℕ) (s : System) → Follows a b n s → Follows a b n (step a b n i s)
unfolding step
step-Follows a b n zero s v = host_step-Follows a b n s v
step-Follows a b n (suc c) s v = elim (Bool-cases (has_started a b n c s.host)) [
  | inl e ↦
      rw (step, e) (core_step-Follows a b n c s (started_lt a b n c s.host v.counts.bound e) v)
  | inr e ↦ rw (step, e) v
]

pub run-Follows :
    (a b n : ℕ) (actors : List ℕ) (s : System)
    → Follows a b n s
    → Follows a b n (run a b n actors s)
unfolding run
run-Follows a b n [] s v = v
run-Follows a b n (i ∷ rest) s v =
    run-Follows a b n rest (step a b n i s) (step-Follows a b n i s v)

pub start-Follows : (a b n : ℕ) → Follows a b n start
start-Follows a b n = record { counts = start-Counts n; reached = at_start; gone = λ c z. untrue z }
