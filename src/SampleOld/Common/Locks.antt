-- ===== src/SampleOld/Common/Locks.antt =====
-- The loop on `print_flag` at the start of `puts`.
use toshokan.Base.{ℕ, zero, suc, ◌≡◌, refl, ◌==◌, if◌then◌else◌, some, false, arith}
use toshokan.SampleOld.Common.{lock}

-- The loop ends within two rounds, also where another core has set the flag: a core that finds the
-- flag at 0 sets it, and whatever the first core leaves there, a second core gets past it too. It is
-- no lock.
pub lock-enters :
    (flag n : ℕ)
    → let left = if flag == 0 then 1 else flag in
      (lock (suc (suc n)) flag ≡ some left) × (lock (suc (suc n)) left ≡ some left)
unfolding lock
lock-enters zero n = (refl, refl)
lock-enters (suc flag) n = let z : (suc flag == 0) ≡ false = ground arith in rw z (refl, rw z refl)
