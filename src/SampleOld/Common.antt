-- ===== src/SampleOld/Common.antt =====
-- sample_old/common/common.cc. A string is the list of its bytes before the final 0.
pub mod Locks
use toshokan.Base.{
  ℕ, zero, suc, ◌+◌, ◌-◌, List, [], ◌∷◌, Bool, true, false, Option, none, some, ◌==◌, if◌then◌else◌,
  update,
}
use toshokan.SampleOld.Machine.{System, Step, Bytes, Message, put_char, put_value, phys}

-- `__sync_bool_compare_and_swap(&print_flag, 0, 1)`: whether it has swapped, and the new value.
abbrev pub swap_flag : ℕ → Bool × ℕ
swap_flag flag = if flag == 0 then (true, 1) else (false, flag)

-- The loop around it, with fuel.
unfoldable pub lock : ℕ → ℕ → Option ℕ
lock zero flag = none
lock (suc f) flag =
    let (swapped, next) = swap_flag flag in
    let rest = lock f next in if swapped then rest else some next

-- The messages of the characters, the last of them first.
unfoldable pub send_chars : List ℕ → List Message → List Message
send_chars [] sent = sent
send_chars (c ∷ str) sent = send_chars str (put_char c ∷ sent)

-- Two rounds of the loop are enough: Common.Locks.
unfoldable pub puts : List ℕ → Step
unfolding lock send_chars
puts str s = elim (lock 2 s.print_flag) [
  | none ↦ none
  | some flag ↦ some (record s { sent = put_char 10 ∷ send_chars str s.sent; print_flag = 0 })
]

abbrev pub return_value : ℕ → Step
return_value i s = some (record s { sent = put_value i ∷ s.sent })

-- The loop of memset from byte `i` on, for `n` more bytes.
unfoldable pub set_bytes : ℕ → ℕ → ℕ → ℕ → Bytes → Bytes
set_bytes zero i dest ch m = m
set_bytes (suc n) i dest ch m = set_bytes n (i + 1) dest ch (update m (dest + i) ch)

abbrev pub memset : ℕ → ℕ → ℕ → Step
memset dest ch n s = some (record s { mem = set_bytes n 0 (phys dest) ch s.mem })

-- The loop of memcpy.
unfoldable pub copy_bytes : ℕ → ℕ → ℕ → ℕ → Bytes → Bytes
copy_bytes zero i dest src m = m
copy_bytes (suc n) i dest src m = copy_bytes n (i + 1) dest src (update m (dest + i) (m (src + i)))

abbrev pub memcpy : ℕ → ℕ → ℕ → Step
memcpy dest src n s = some (record s { mem = copy_bytes n 0 (phys dest) (phys src) s.mem })
