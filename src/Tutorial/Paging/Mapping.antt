-- ===== src/Tutorial/Paging/Mapping.antt =====
-- tutorial/paging/mapping/friend.cc.
pub mod Shows
use toshokan.Base.{ℕ, ◌/◌, ◌%◌, Option, none, some}
use toshokan.Tutorial.Cpu.{with_flags}
use toshokan.Tutorial.Paging.Console.{
  Step, ◌>>◌, k_512gb, k_1gb, k_2mb, k_4kb, v2p, store_entry, invlpg, show_memdata, wait_input,
}

abbrev pub vaddr1 : ℕ
vaddr1 = 0x8000_0000

abbrev pub vaddr2 : ℕ
vaddr2 = 0x8000_1000

abbrev pub vaddr3 : ℕ
vaddr3 = 0x8000_2000

-- The three parts between the prompts; `pdpt`, `pd` and `pt` are the addresses of the tables.
pub map_first : ℕ → ℕ → ℕ → Step
map_first pdpt pd pt = do
  store_entry pdpt (vaddr1 % k_512gb / k_1gb) (with_flags (v2p pd))
  store_entry pd (vaddr1 % k_1gb / k_2mb) (with_flags (v2p pt))
  store_entry pt (vaddr1 % k_2mb / k_4kb) (with_flags 0x1_0000_0000)
  show_memdata vaddr1
  wait_input 3 1

pub remap : ℕ → Step
remap pt = do
  store_entry pt (vaddr1 % k_2mb / k_4kb) (with_flags 0x1_0000_1000)
  invlpg vaddr1
  show_memdata vaddr1
  wait_input 3 2

pub map_others : ℕ → Step
map_others pt = do
  store_entry pt (vaddr2 % k_2mb / k_4kb) (with_flags 0x1_0000_0000)
  store_entry pt (vaddr3 % k_2mb / k_4kb) (with_flags 0x1_0000_1000)
  show_memdata vaddr2
  show_memdata vaddr3
  wait_input 3 3

pub friend_main : ℕ → ℕ → ℕ → Step
unfolding map_first remap map_others
friend_main pdpt pd pt = do map_first pdpt pd pt; remap pt; map_others pt
