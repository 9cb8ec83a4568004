-- ===== src/Layout.antt =====
-- common/memory.h: the physical memory that Linux leaves to friend cores and to the trampoline.
-- common/align.h is in `Align`.
pub mod Align
use toshokan.Base.{ℕ, ◌+◌, ◌-◌}

abbrev pub deploy_phys_addr_start : ℕ
deploy_phys_addr_start = 0x1_0000_0000

abbrev pub deploy_phys_addr_end : ℕ
deploy_phys_addr_end = 0x1_4000_0000

abbrev pub deploy_phys_mem_size : ℕ
deploy_phys_mem_size = deploy_phys_addr_end - deploy_phys_addr_start

abbrev pub page_size : ℕ
page_size = 0x1000

abbrev pub trampoline_addr : ℕ
trampoline_addr = 0x7_0000

abbrev pub trampoline_size : ℕ
trampoline_size = 0x2000

-- What `%cr3` of a friend core is loaded with.
abbrev pub initial_pml4t : ℕ
initial_pml4t = trampoline_addr + page_size
