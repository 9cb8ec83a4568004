-- ===== src/Friend/Runtime.antt =====
-- friend_init of friend/init.cc, which every friend core calls, as steps of the cores. A step is
-- one atomic operation, one constructor or destructor, or the whole of friend_main. Of the two operands
-- of `==` in line 35, whose order C++ leaves open, the atomic addition comes first here.
pub mod Counting
pub mod Reaching
pub mod Gathered
pub mod Constructors
pub mod Destructors
use toshokan.Base.{
  ℕ, zero, suc, ◌+◌, ◌<◌, List, [], ◌∷◌, Bool, true, false, ltb, ◌==◌, update, if◌then◌else◌,
}

-- Where a core is.
pub data Loc : Type 0 where
  waiting : Loc  -- before `__sync_fetch_and_add(&init_count, 1)`
  ctor : (k : ℕ) → Loc  -- before the test of the first loop, at entry `k`
  main : Loc  -- before or in friend_main
  count_up : Loc  -- before `__sync_add_and_fetch(&returned_count, 1)`
  compare : (r : ℕ) → Loc  -- which has given `r`, before init_count is read
  dtor : (k : ℕ) → Loc  -- before the test of the second loop, at entry `k`
  set_sync : Loc  -- before __toshokan_sync_hakase_and_friend is set
  done : Loc  -- friend_init has returned

-- The counters and the flag, and the constructors and destructors that have run, the last one first.
pub record Shared : Type 0 where
  pub init_count : ℕ
  pub returned_count : ℕ
  pub sync_hakase_and_friend : ℕ
  pub constructed : List ℕ
  pub destructed : List ℕ

-- The numbers of entries of the two arrays.
module _ (ctors dtors : ℕ) where
  abbrev pub exec : Loc → Shared → Shared × Loc
  exec waiting m =
      (record m { init_count = m.init_count + 1 }, if m.init_count == 0 then ctor 0 else main)
  exec (ctor k) m =
      if ltb k ctors
      then (record m { constructed = k ∷ m.constructed }, ctor (k + 1))
      else (m, main)
  exec main m = (m, count_up)
  exec count_up m =
      (record m { returned_count = m.returned_count + 1 }, compare (m.returned_count + 1))
  exec (compare r) m = (m, if r == m.init_count then dtor 0 else done)
  exec (dtor k) m =
      if ltb k dtors
      then (record m { destructed = k ∷ m.destructed }, dtor (k + 1))
      else (m, set_sync)
  exec set_sync m = (record m { sync_hakase_and_friend = 1 }, done)
  exec done m = (m, done)

pub record System : Type 0 where
  pub mem : Shared
  pub loc : ℕ → Loc

unfoldable pub step : ℕ → ℕ → ℕ → System → System
step ctors dtors c s =
    let (m, l) = exec ctors dtors (s.loc c) s.mem in record { mem = m; loc = update s.loc c l }

abbrev pub start : System
start = record {
  mem = record {
    init_count = 0;
    returned_count = 0;
    sync_hakase_and_friend = 0;
    constructed = [];
    destructed = [];
  };
  loc = λ _. waiting;
}

-- What `n` cores reach, in any order of their steps.
pub data Reachable (ctors dtors n : ℕ) : System → Type 0 where
  at_start : Reachable ctors dtors n start
  then_step :
      {s : System} (c : ℕ)
      → c < n
      → Reachable ctors dtors n s
      → Reachable ctors dtors n (step ctors dtors c s)
