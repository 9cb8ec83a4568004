-- ===== src/Tutorial/Paging/AddressSpace.antt =====
-- tutorial/paging/address_space/friend.cc.
pub mod Shows
use Prim.Native.Nat.{bit_or}
use toshokan.Base.{ℕ, ◌/◌, ◌%◌, ◌∷◌, Option, none, some}
use toshokan.Tutorial.Cpu.{with_flags}
use toshokan.Tutorial.Paging.Console.{
  Step, ◌>>◌, k_512gb, k_1gb, k_2mb, v2p, store_entry, show_memdata, ready,
}

abbrev pub vaddr : ℕ
vaddr = 0x8000_0000

abbrev pub with_huge_flags : ℕ → ℕ
with_huge_flags a = bit_or (with_flags a) 0x80

-- Up to the loop in which the core halts for ever.
pub friend_main : ℕ → ℕ → Step
friend_main pdpt pd = do
  store_entry pdpt (vaddr % k_512gb / k_1gb) (with_flags (v2p pd))
  store_entry pd (vaddr % k_1gb / k_2mb) (with_huge_flags 0x1_0000_0000)
  show_memdata vaddr
  (λ s. some (record s { output = ready ∷ s.output }))
