-- ===== src/Friend/Tests.antt =====
-- Two cores at friend_init, one constructor and one destructor.
use toshokan.Base.{ℕ, ◌+◌, ◌≤◌, ◌≡◌, refl, List, [], ◌∷◌, arith}
use toshokan.Friend.Runtime.{main, System, step, start, Reachable, at_start, then_step}
use toshokan.Friend.Runtime.Constructors.{Building, constructors_in_order}
use toshokan.Friend.Stacks.{stack_of, stack_size, stack_of-apart}

pub run : List ℕ → System
run [] = start
run (c ∷ cs) = step 1 1 c (run cs)

-- The last core to step comes first. Core 1 is at friend_main before the constructor has run.
overtaken : ((run (1 ∷ 0 ∷ [])).loc 1 ≡ main) × ((run (1 ∷ 0 ∷ [])).mem.constructed ≡ [])
unfolding run step
overtaken = (refl, refl)

-- Core 0 comes through before core 1 starts: the destructor has run when core 1 is at friend_main,
-- and runs again after that.
abbrev alone : List ℕ
alone = 0 ∷ 0 ∷ 0 ∷ 0 ∷ 0 ∷ 0 ∷ 0 ∷ 0 ∷ 0 ∷ []

late :
    ((run (1 ∷ alone)).loc 1 ≡ main)
    × ((run (1 ∷ alone)).mem.destructed ≡ 0 ∷ [])
    × ((run (1 ∷ alone)).mem.sync_hakase_and_friend ≡ 1)
    × ((run (1 ∷ 1 ∷ 1 ∷ 1 ∷ 1 ∷ 1 ∷ alone)).mem.destructed ≡ 0 ∷ 0 ∷ [])
unfolding run step
late = (refl, refl, refl, refl)

-- Core 0 has its count, core 1 has not entered.
abbrev schedule : List ℕ
schedule = 0 ∷ 0 ∷ 0 ∷ 0 ∷ 0 ∷ []

reached : Reachable 1 1 2 (run schedule)
unfolding run
reached = then_step 0 (omega arith) (
    then_step 0 (omega arith)
      (then_step 0 (omega arith) (then_step 0 (omega arith) (then_step 0 (omega arith) at_start))))

constructors_in_order_example : Building 1 (run schedule)
constructors_in_order_example = constructors_in_order reached

stack_of-apart_example :
    (stack_of 0x1_0001_0000 0 ≡ 0x1_0001_0000 + 0x2000)
    × (stack_of 0x1_0001_0000 0 ≤ stack_of 0x1_0001_0000 2)
    × (stack_of 0x1_0001_0000 2 + stack_size ≤ stack_of 0x1_0001_0000 5)
stack_of-apart_example = stack_of-apart 0x1_0001_0000 2 5 (omega arith) (omega arith) (omega arith)
