-- ===== src/SampleOld/Host.antt =====
-- sample_old/common/exec.cc: the host's side of the channel.
pub mod Serving
use toshokan.Base.{
  ℕ, List, [], ◌∷◌, Bool, true, false, Option, none, some, ltb, not, ◌==◌, if◌then◌else◌,
}
use toshokan.SampleOld.Machine.{Message, put_char, put_value}

-- A signal: its type, and the value that is read from it.
abbrev pub Signal : Type 0
Signal = ℕ × ℕ

abbrev pub signal : Message → Signal
signal (put_char c) = (2, c)
signal (put_value i) = (1, i)

-- The messages as they arrive, the first of them first, before those of `later`.
abbrev pub arrive : List Message → List Signal → List Signal
arrive [] later = later
arrive (m ∷ ms) later = arrive ms (signal m ∷ later)

-- The loop, with what it has printed, the last character first. It waits for ever where no signal
-- is left.
unfoldable pub serve : List Signal → List ℕ → Option (ℕ × List ℕ)
serve [] printed = none
serve ((kind, value) ∷ signals) printed =
    let rest = serve signals (value ∷ printed) in
    if kind == 1 then some (value, printed) else if kind == 2 then rest else some (1, printed)

-- What the calls of the library say, before the loop.
pub record Loaded : Type 0 where
  pub argc : ℕ
  pub file_loaded : Bool
  pub file_inited : Bool
  pub file_deployed : Bool
  pub file_executed : Bool

unfoldable pub test_main : Loaded → List Signal → Option (ℕ × List ℕ)
unfolding serve
test_main l signals =
    if ltb l.argc 2
    then some (1, [])
    else if not l.file_loaded
    then some (1, [])
    else if not l.file_inited
    then some (1, [])
    else if not l.file_deployed
    then some (1, [])
    else if not l.file_executed
    then some (1, [])
    else serve signals []
