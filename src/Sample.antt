-- ===== src/Sample.antt =====
-- The program of sample/: hakase.cc and friend.cc, with friend_init around friend_main (friend/init.cc)
-- and offloader_tryreceive and is_friend_stopped of hakase/hakase.cc. Actor 0 is the hakase process,
-- every other number a friend core. One use of OFFLOAD is one step here, which the hakase process
-- must be ready for; Offload has its steps. `ctors` and `dtors` are the numbers of constructors and
-- destructors, `n` that of the cores whose files can be opened.
pub mod Counts
pub mod Verdict
pub mod Gone
pub mod Following
pub mod Fair
mod Tests
use toshokan.Base.{
  ℕ, zero, suc, ◌+◌, ◌<◌, List, [], ◌∷◌, Bool, true, false, ltb, ◌==◌, update, if◌then◌else◌,
}
use toshokan.Friend.Runtime
use toshokan.Friend.Runtime.{Loc, main}

-- Where a core is in friend_main.
pub data Phase : Type 0 where
  counting : Phase  -- before `__sync_fetch_and_add(&cnt, 1)`
  offloading : (i : ℕ) → Phase  -- before OFFLOAD, with what the sum has given
  adding : Phase  -- before `__sync_fetch_and_add(&sync_flag, 1)`
  over : Phase

-- Where the hakase process is in test_main, after `setup` has returned 0.
pub data Host : Type 0 where
  booting : (k : ℕ) → Host  -- in boot(0), which has started `k` cores
  looking : Host  -- before is_friend_stopped
  serving : Host  -- in offloader_tryreceive
  returned : (r : ℕ) → Host

-- The core at `c` of the runtime is in the phase at `c`, if it is in friend_main.
pub record System : Type 0 where
  pub runtime : Runtime.System
  pub phase : ℕ → Phase
  pub cnt : ℕ
  pub sync_flag : ℕ
  pub printed : List ℕ
  pub host : Host

-- The comparison is 0 or 1.
abbrev pub verdict : ℕ → ℕ → ℕ
verdict sync_flag cpunum = if sync_flag == cpunum then 1 else 0

unfoldable pub is_friend_stopped : System → Bool
is_friend_stopped s = s.runtime.mem.sync_hakase_and_friend == 1

module _ (ctors dtors n : ℕ) where
  unfoldable pub host_step : Host → System → System
  unfolding is_friend_stopped
  host_step (booting k) s = record s { host = if ltb k n then booting (k + 1) else looking }
  host_step looking s = record s {
    host = if is_friend_stopped s then returned (verdict s.sync_flag n) else serving;
  }
  host_step serving s = record s { host = looking }
  host_step (returned r) s = s

  -- `printf("<%d>\n", i)` runs on the hakase process.
  abbrev pub offload : ℕ → ℕ → Host → System → System
  offload c i serving s = record s { printed = i ∷ s.printed; phase = update s.phase c adding }
  offload c i _ s = s

  unfoldable pub main_step : ℕ → Phase → System → System
  unfolding Runtime.step
  main_step c counting s = record s { cnt = s.cnt + 1; phase = update s.phase c (offloading s.cnt) }
  main_step c (offloading i) s = offload c i s.host s
  main_step c adding s = record s { sync_flag = s.sync_flag + 1; phase = update s.phase c over }
  main_step c over s = record s { runtime = Runtime.step ctors dtors c s.runtime }

  unfoldable pub core_step : ℕ → Loc → System → System
  unfolding main_step Runtime.step
  core_step c main s = main_step c (s.phase c) s
  core_step c l s = record s { runtime = Runtime.step ctors dtors c s.runtime }

  -- A core runs once the hakase process has opened its file.
  abbrev pub has_started : ℕ → Host → Bool
  has_started c (booting k) = ltb c k
  has_started c _ = ltb c n

  unfoldable pub step : ℕ → System → System
  unfolding host_step core_step
  step zero s = host_step s.host s
  step (suc c) s = if has_started c s.host then core_step c (s.runtime.loc c) s else s

  pub run : List ℕ → System → System
  unfolding step
  run [] s = s
  run (a ∷ rest) s = run rest (step a s)

abbrev pub start : System
start = record {
  runtime = Runtime.start;
  phase = λ _. counting;
  cnt = 0;
  sync_flag = 0;
  printed = [];
  host = booting 0;
}
