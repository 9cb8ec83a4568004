-- ===== src/FriendLoader/Mmap.antt =====
-- The mmap handlers of FriendLoader/call_interface.c. `remap_pfn_range` is the kernel's: the
-- handlers take its result as an argument, and return the call that they make.
pub mod Bounds
mod Tests
use toshokan.Base.{
  ℕ, ◌+◌, ◌-◌, ◌*◌, ◌/◌, ◌%◌, ◌^◌, Bool, true, false, ◌||◌, not, Option, none, some, ltb, ◌==◌,
  if◌then◌else◌,
}
use toshokan.Base.Words.{add_u64}
use toshokan.Layout.{deploy_phys_addr_start, deploy_phys_mem_size, trampoline_addr, trampoline_size}

-- The fields of `struct vm_area_struct` that the handlers read.
pub record Vma : Type 0 where
  pub vm_start : ℕ
  pub vm_end : ℕ
  pub vm_pgoff : ℕ

-- A call of `remap_pfn_range`: from which page frame on, and how many bytes.
pub record Remap : Type 0 where
  pub addr : ℕ
  pub pfn : ℕ
  pub size : ℕ

-- 0, -EINVAL and -EAGAIN.
pub data Status : Type 0 where
  ok einval eagain : Status

-- `vm_end - vm_start`, and `vm_pgoff << PAGE_SHIFT`.
abbrev pub vma_size : Vma → ℕ
vma_size vma = (vma.vm_end + 2 ^ 64 - vma.vm_start) % 2 ^ 64

abbrev pub shl_page : ℕ → ℕ
shl_page n = n * 2 ^ 12 % 2 ^ 64

-- The end of either handler.
abbrev remap_result : Bool → Status
remap_result true = eagain
remap_result false = ok

pub memdevice_mmap : (Remap → Bool) → Vma → Status × Option Remap
memdevice_mmap remap_fails vma =
    let size = vma_size vma in
    let phys_start = shl_page vma.vm_pgoff in
    let phys_end = add_u64 phys_start size in
    let call : Remap = record {
      addr = vma.vm_start;
      pfn = add_u64 vma.vm_pgoff (deploy_phys_addr_start / 2 ^ 12);
      size = size;
    } in
    if ltb ((phys_end + 2 ^ 64 - 1) % 2 ^ 64) phys_start
    then (einval, none)
    else if ltb deploy_phys_mem_size phys_start || ltb deploy_phys_mem_size phys_end
    then (einval, none)
    else (remap_result (remap_fails call), some call)

pub bootmemdevice_mmap : (Remap → Bool) → Vma → Status × Option Remap
bootmemdevice_mmap remap_fails vma =
    let size = vma_size vma in
    let call : Remap = record {
      addr = vma.vm_start;
      pfn = trampoline_addr / 2 ^ 12;
      size = size;
    } in
    if ltb 0 vma.vm_pgoff
    then (einval, none)
    else if not (size == trampoline_size)
    then (einval, none)
    else (remap_result (remap_fails call), some call)
