-- ===== src/Hakase/Elf/Deploy/Region.antt =====
-- CheckMemoryRegion: what it decides, and where its sum wraps.
use toshokan.Base.{ℕ, ◌+◌, ◌^◌, ◌≡◌, ◌≤◌, ◌<◌, ◌↔◌, true, arith}
use toshokan.Layout.{deploy_phys_addr_start, deploy_phys_addr_end}
use toshokan.Hakase.Elf.Deploy.{check_memory_region}

-- A region whose end is an address below 2 ^ 64 is accepted exactly if it lies in the memory of the
-- friend cores.
pub check_memory_region_iff :
    (vaddr size : ℕ)
    → vaddr + size < 2 ^ 64
    → (check_memory_region vaddr size ≡ true)
      ↔ ((deploy_phys_addr_start ≤ vaddr) × (vaddr + size ≤ deploy_phys_addr_end))
unfolding check_memory_region
check_memory_region_iff vaddr size h = (λ e. ground arith, λ b. ground arith)

-- A region that starts there or above and whose end wraps round to an address up to the end of that
-- memory is accepted too, though it goes beyond that end.
pub check_memory_region_wraps :
    (vaddr size : ℕ)
    → deploy_phys_addr_start ≤ vaddr
    → 2 ^ 64 ≤ vaddr + size
    → vaddr + size ≤ 2 ^ 64 + deploy_phys_addr_end
    → (check_memory_region vaddr size ≡ true) × (deploy_phys_addr_end < vaddr + size)
unfolding check_memory_region
check_memory_region_wraps vaddr size lo hi top = (ground arith, omega arith)
