-- ===== src/Sample/Tests.antt =====
-- Two cores, with one constructor and one destructor.
use toshokan.Base.{ℕ, ◌<◌, ◌≡◌, ◌≢◌, sym, ◌∙◌, refl, List, [], ◌∷◌, ltb}
use toshokan.Friend.Runtime
use toshokan.Friend.Runtime.Counting.{bit}
use toshokan.Sample.{
  serving, over, returned, run, start, step, host_step, core_step, main_step, is_friend_stopped,
}
use toshokan.Sample.Counts.{occurrences}
use toshokan.Sample.Verdict.{run-passed}
use toshokan.Sample.Fair.{run-passes}

-- Both cores are started and enter friend_init, the first prints and ends, then the second.
abbrev fair : List ℕ
fair =
    0 ∷ 0 ∷ 0 ∷ 1 ∷ 1 ∷ 1 ∷ 2 ∷ 1 ∷ 0 ∷ 1 ∷ 1 ∷ 1 ∷ 1 ∷ 1 ∷ 2 ∷ 2 ∷ 2 ∷ 2 ∷ 2 ∷ 2 ∷ 2 ∷ 2 ∷ 2 ∷ 2
    ∷ 2 ∷ 0 ∷ 0 ∷ []

passes : (run 1 1 2 fair start).host ≡ returned 1
unfolding run step host_step core_step main_step is_friend_stopped Runtime.step
passes = refl

-- The second core comes to friend_init when the first has gone through it: test_main returns 0.
abbrev late : List ℕ
late = 0 ∷ 0 ∷ 0 ∷ 1 ∷ 1 ∷ 1 ∷ 1 ∷ 0 ∷ 1 ∷ 1 ∷ 1 ∷ 1 ∷ 1 ∷ 1 ∷ 1 ∷ 1 ∷ 1 ∷ 0 ∷ 0 ∷ []

fails : (run 1 1 2 late start).host ≡ returned 0
unfolding run step host_step core_step main_step is_friend_stopped Runtime.step
fails = refl

run-passed_example :
    ((c : ℕ) → c < 2 → (run 1 1 2 fair start).phase c ≡ over)
    × ((i : ℕ) → occurrences i (run 1 1 2 fair start).printed ≡ bit (ltb i 2))
run-passed_example = run-passed 1 1 2 fair passes

-- After its first nine steps both cores are in friend_main.
abbrev gather : List ℕ
gather = 0 ∷ 0 ∷ 0 ∷ 1 ∷ 1 ∷ 1 ∷ 2 ∷ 1 ∷ 0 ∷ []

abbrev finish : List ℕ
finish = 1 ∷ 1 ∷ 1 ∷ 1 ∷ 1 ∷ 2 ∷ 2 ∷ 2 ∷ 2 ∷ 2 ∷ 2 ∷ 2 ∷ 2 ∷ 2 ∷ 2 ∷ 0 ∷ 0 ∷ []

gathered :
    ((run 1 1 2 gather start).runtime.mem.init_count ≡ 2)
    × ((run 1 1 2 gather start).runtime.mem.returned_count ≡ 0)
    × ((run 1 1 2 gather start).runtime.mem.sync_hakase_and_friend ≡ 0)
    × ((run 1 1 2 gather start).host ≡ serving)
    × ((run 1 1 2 finish (run 1 1 2 gather start)).host ≡ returned 1)
unfolding run step host_step core_step main_step is_friend_stopped Runtime.step
gathered = (refl, refl, refl, refl, refl)

serving-ne-returned : (q : ℕ) → serving ≢ returned q
serving-ne-returned q e = cc

run-passes_example :
    let passed : ℕ = 1 in
    (passed ≡ 1) × ((c : ℕ) → c < 2 → (run 1 1 2 finish (run 1 1 2 gather start)).phase c ≡ over)
run-passes_example =
    let (a, b, c, d, e) = gathered in
    run-passes 1 1 2 gather finish 1 a b c (λ q z. serving-ne-returned q (sym d ∙ z)) e
