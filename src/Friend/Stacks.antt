-- ===== src/Friend/Stacks.antt =====
-- entry64 of friend/boot.S: the stacks of the friend cores, behind the friend binary.
use toshokan.Base.{
  ℕ, zero, suc, ◌+◌, ◌-◌, ◌*◌, ◌%◌, ◌^◌, ◌<◌, ◌≤◌, ◌≡◌, true, ltb, lt→ltb, if◌then◌else◌, arith,
}

-- `STACK_SIZE`, and the first value of `stack_offset`.
abbrev pub stack_size : ℕ
stack_size = 0x4000

abbrev pub stack_offset : ℕ
stack_offset = 0x2000

-- `cltq`: the lower half of the register, sign-extended.
abbrev pub sign_extend : ℕ → ℕ
sign_extend eax = if ltb eax (2 ^ 31) then eax else eax + 2 ^ 64 - 2 ^ 32

-- The stack pointer that a core takes, given where the binary ends and `stack_offset`, and the
-- offset it leaves. `lock xaddl` makes one step of it.
pub entry64 : ℕ → ℕ → ℕ × ℕ
entry64 friend_binary_end offset =
    ((sign_extend offset + friend_binary_end) % 2 ^ 64, (offset + stack_size) % 2 ^ 32)

-- `stack_offset` after `k` cores, and the stack pointer of the next one.
pub offset_after : ℕ → ℕ
unfolding entry64
offset_after zero = stack_offset
offset_after (suc k) = (entry64 0 (offset_after k)).1

pub stack_of : ℕ → ℕ → ℕ
unfolding entry64 offset_after
stack_of friend_binary_end k = (entry64 friend_binary_end (offset_after k)).0

offset_after_lem : (k : ℕ) → k < 0x1_FFFF → offset_after k ≡ stack_offset + k * stack_size
unfolding offset_after entry64
offset_after_lem zero h = omega arith
offset_after_lem (suc k) h = omega (arith, offset_after_lem k (omega arith))

stack_of_lem :
    (e k : ℕ)
    → k < 0x1_FFFF
    → e + 2 ^ 31 ≤ 2 ^ 64
    → stack_of e k ≡ e + stack_offset + k * stack_size
unfolding stack_of entry64
stack_of_lem e k h p =
    let o = offset_after_lem k h in
    let small : ltb (offset_after k) (2 ^ 31) ≡ true = lt→ltb _ _ (omega arith) in
    rw small (omega arith)

-- Among the first 131,071 cores, where the binary ends 2 GB below the end of the address space at
-- the latest: a core whose turn is later has its stack pointer at least STACK_SIZE bytes above
-- that of an earlier one, and the earliest has it 0x2000 bytes above the binary.
pub stack_of-apart :
    (friend_binary_end j k : ℕ)
    → friend_binary_end + 2 ^ 31 ≤ 2 ^ 64
    → j < k
    → k < 0x1_FFFF
    → (stack_of friend_binary_end 0 ≡ friend_binary_end + 0x2000)
      × (stack_of friend_binary_end 0 ≤ stack_of friend_binary_end j)
      × (stack_of friend_binary_end j + stack_size ≤ stack_of friend_binary_end k)
stack_of-apart e j k p h q =
    let first = stack_of_lem e 0 (omega arith) p in
    let low = stack_of_lem e j (omega arith) p in
    let high = stack_of_lem e k q p in (omega arith, omega arith, omega arith)
