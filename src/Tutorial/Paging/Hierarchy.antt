-- ===== src/Tutorial/Paging/Hierarchy.antt =====
-- tutorial/paging/hierarchy/friend.cc.
pub mod Aliases
use toshokan.Base.{ℕ, ◌/◌, ◌%◌, Option, none, some}
use toshokan.Tutorial.Cpu.{with_flags}
use toshokan.Tutorial.Paging.Console.{
  Step, ◌>>◌, k_512gb, k_1gb, k_2mb, k_4kb, v2p, store_entry, wait_input,
}

abbrev pub vaddr1 : ℕ
vaddr1 = 0x8000_0000

abbrev pub vaddr2 : ℕ
vaddr2 = 0x8020_0000

pub friend_main : ℕ → ℕ → ℕ → ℕ → Step
friend_main pdpt pd pt1 pt2 = do
  store_entry pdpt (vaddr1 % k_512gb / k_1gb) (with_flags (v2p pd))
  store_entry pd (vaddr1 % k_1gb / k_2mb) (with_flags (v2p pt1))
  store_entry pt1 (vaddr1 % k_2mb / k_4kb) (with_flags 0x1_0000_0000)
  wait_input 2 1
  store_entry pd (vaddr2 % k_1gb / k_2mb) (with_flags (v2p pt2))
  store_entry pt2 (vaddr2 % k_2mb / k_4kb) (with_flags 0x1_0000_0000)
  wait_input 2 2
