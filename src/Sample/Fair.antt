-- ===== src/Sample/Fair.antt =====
-- When the sample passes.
use toshokan.Base.{
  ℕ, ◌≢◌, zero, suc, ◌+◌, ◌<◌, ◌≡◌, inl, inr, refl, sym, ap, ◌∙◌, List, [], ◌∷◌, Bool, true, false,
  ltb, Bool-cases, arith, if◌then◌else◌,
}
use toshokan.Friend.Runtime.{Loc, waiting, ctor, main, count_up, compare, dtor, set_sync, done}
use toshokan.Friend.Runtime.Counting.{bit, count_whole, count_nobody}
use toshokan.Friend.Runtime.Reaching.{Reachable-Counts}
use toshokan.Friend.Runtime.Reaching
use toshokan.Friend.Runtime.Gathered.{is_last, Gathered, step-Gathered, flag-returned}
use toshokan.Sample.{
  over, Host, booting, looking, serving, returned, System, verdict, is_friend_stopped, host_step,
  core_step, has_started, step, run, start,
}
use toshokan.Sample.Gone.{Follows, past, untrue}
use toshokan.Sample.Counts.{is_over, result_of, started_lt}
use toshokan.Sample.Verdict.{passed-over}
use toshokan.Sample.Following.{
  core_step-runtime, core_step-host, host_step-runtime, core_step-Follows, host_step-Follows,
  run-Follows, start-Follows,
}

-- All cores have entered friend_init, and the hakase process has returned nothing but 1.
pub record Fair (a b n : ℕ) (s : System) : Type 0 where
  pub follows : Follows a b n s
  pub gathered : Gathered n s.runtime
  pub one : (r : ℕ) → s.host ≡ returned r → r ≡ 1

core_step-Fair :
    (a b n c : ℕ) (s : System)
    → c < n
    → Fair a b n s
    → Fair a b n (core_step a b n c (s.runtime.loc c) s)
core_step-Fair a b n c s h v = record {
  follows = core_step-Follows a b n c s h v.follows;
  gathered = elim (core_step-runtime a b n c s (s.runtime.loc c)) [
    | inl e ↦ rw e v.gathered
    | inr e ↦
        rw e (step-Gathered a b n c s.runtime h (Reachable-Counts v.follows.reached) v.gathered)
  ];
  one = λ r z. v.one r (sym (core_step-host a b n c s (s.runtime.loc c)) ∙ z);
}

returned-past : (l : Loc) → Reaching.returned l ≡ true → past l ≡ true
returned-past waiting h = untrue h
returned-past (ctor k) h = untrue h
returned-past main h = untrue h
returned-past count_up h = untrue h
returned-past (compare r) h = refl
returned-past (dtor k) h = refl
returned-past set_sync h = refl
returned-past done h = refl

is_last-returned : (l : Loc) → is_last l ≡ true → Reaching.returned l ≡ true
is_last-returned waiting h = untrue h
is_last-returned (ctor k) h = untrue h
is_last-returned main h = untrue h
is_last-returned count_up h = untrue h
is_last-returned (compare r) h = refl
is_last-returned (dtor k) h = refl
is_last-returned set_sync h = refl
is_last-returned done h = untrue h

-- Where the flag is set, all have added.
flag-passes :
    (a b n : ℕ) (s : System) → Fair a b n s → is_friend_stopped s ≡ true → verdict s.sync_flag n ≡ 1
unfolding is_friend_stopped
flag-passes a b n s v f = ground (arith, everyone)
  where
    set : s.runtime.mem.sync_hakase_and_friend ≡ 1
    set = ground arith

    is_gone : (c : ℕ) → c < n → is_over (s.phase c) ≡ true
    is_gone c h = ap is_over (
        v.follows.gone c (
          returned-past (s.runtime.loc c)
            (flag-returned n s.runtime (Reachable-Counts v.follows.reached) v.gathered set c h)))

    everyone : s.sync_flag ≡ n
    everyone = omega (arith, v.follows.counts.added, count_whole is_over n s.phase is_gone)

abbrev is_returned : Host → Bool
is_returned (returned r) = true
is_returned _ = false

host_one :
    (a b n : ℕ) (s : System)
    → Fair a b n s
    → (x : Host) → s.host ≡ x
    → (r : ℕ) → (host_step a b n x s).host ≡ returned r
    → r ≡ 1
unfolding host_step
host_one a b n s v (booting k) e r z = split (ltb k n) z
  where
    split : (t : Bool) → (if t then booting (k + 1) else looking) ≡ returned r → r ≡ 1
    split true z = untrue (ap is_returned z)
    split false z = untrue (ap is_returned z)
host_one a b n s v looking e r z = split (is_friend_stopped s) refl z
  where
    split :
        (t : Bool)
        → is_friend_stopped s ≡ t
        → (if t then returned (verdict s.sync_flag n) else serving) ≡ returned r
        → r ≡ 1
    split true f z = sym (ap result_of z) ∙ flag-passes a b n s v f
    split false f z = untrue (ap is_returned z)
host_one a b n s v serving e r z = untrue (ap is_returned z)
host_one a b n s v (returned q) e r z = v.one r z

host_step-Fair : (a b n : ℕ) (s : System) → Fair a b n s → Fair a b n (host_step a b n s.host s)
host_step-Fair a b n s v = record {
  follows = host_step-Follows a b n s v.follows;
  gathered = rw (host_step-runtime a b n s s.host) v.gathered;
  one = host_one a b n s v s.host refl;
}

step-Fair : (a b n i : ℕ) (s : System) → Fair a b n s → Fair a b n (step a b n i s)
unfolding step
step-Fair a b n zero s v = host_step-Fair a b n s v
step-Fair a b n (suc c) s v = elim (Bool-cases (has_started a b n c s.host)) [
  | inl e ↦
      rw (step, e) (core_step-Fair a b n c s (started_lt a b n c s.host v.follows.counts.bound e) v)
  | inr e ↦ rw (step, e) v
]

run-Fair :
    (a b n : ℕ) (actors : List ℕ) (s : System) → Fair a b n s → Fair a b n (run a b n actors s)
unfolding run
run-Fair a b n [] s v = v
run-Fair a b n (i ∷ rest) s v = run-Fair a b n rest (step a b n i s) (step-Fair a b n i s v)

-- Where a schedule has brought all `n` cores into friend_init before the first has come back from
-- friend_main, with the flag not set and test_main not at its end, then however the schedule goes on,
-- if test_main returns, it returns 1, and every core has gone through friend_main.
pub run-passes :
    (ctors dtors n : ℕ) (before rest : List ℕ) (r : ℕ)
    → let s = run ctors dtors n before start in
      let t = run ctors dtors n rest s in
      s.runtime.mem.init_count ≡ n
      → s.runtime.mem.returned_count ≡ 0
      → s.runtime.mem.sync_hakase_and_friend ≡ 0
      → ((q : ℕ) → s.host ≢ returned q)
      → t.host ≡ returned r
      → (r ≡ 1) × ((c : ℕ) → c < n → t.phase c ≡ over)
run-passes a b n before rest r i k f h e =
    (is_one, passed-over n _ fair.follows.counts (e ∙ ap returned is_one))
  where
    s : System
    s = run a b n before start

    v : Follows a b n s
    v = run-Follows a b n before start (start-Follows a b n)

    all : Gathered n s.runtime
    all = record {
      all_in = i;
      last = λ d l z. absurd (
          omega (
            arith,
            ap bit (is_last-returned (s.runtime.loc d) z),
            count_nobody Reaching.returned n s.runtime.loc
                (omega (arith, k, (Reachable-Counts v.reached).returns)) d l,
          ));
      flag = λ z. absurd (omega (arith, f));
    }

    fair : Fair a b n (run a b n rest s)
    fair =
        run-Fair a b n rest s (record { follows = v; gathered = all; one = λ q z. absurd (h q z) })

    is_one : r ≡ 1
    is_one = fair.one r e
