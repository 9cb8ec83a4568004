-- ===== src/FriendLoader/Mmap/Bounds.antt =====
-- What the handlers let a process map.
use toshokan.Base.{
  ◌+◌, ◌-◌, ◌*◌, ◌^◌, ◌≡◌, ◌≤◌, ◌<◌, ◌⊎◌, inl, inr, dec_lt, Bool, true, false, none, some, arith,
}
use toshokan.Layout.{
  deploy_phys_addr_start, deploy_phys_addr_end, deploy_phys_mem_size, trampoline_addr,
  trampoline_size,
}
use toshokan.FriendLoader.Mmap.{Vma, Remap, ok, einval, eagain, memdevice_mmap, bootmemdevice_mmap}

-- A mapping as mmap(2) asks for it: from an address of user space to a later or the same one, at an
-- offset in bytes below 2 ^ 64.
pub record IsRequest (v : Vma) : Type 0 where
  pub ordered : v.vm_start ≤ v.vm_end
  pub address : v.vm_end ≤ 2 ^ 47
  pub offset : v.vm_pgoff < 2 ^ 52

module _ (fails : Remap → Bool) (v : Vma) (q : IsRequest v) where
  -- A region that begins and ends in the memory of the friend cores, and is not empty, is mapped at
  -- its place in that memory, all of it and nothing else; the result is that of the kernel's call.
  memdevice_mmap_inside :
      v.vm_pgoff * 2 ^ 12 + (v.vm_end - v.vm_start) ≤ deploy_phys_mem_size
      → v.vm_start < v.vm_end
      → (r : Remap) × (memdevice_mmap fails v
          ≡ (elim (fails r) [ true ↦ eagain | false ↦ ok ], some r))
        × (r.addr ≡ v.vm_start)
        × (r.size ≡ v.vm_end - v.vm_start)
        × (r.pfn * 2 ^ 12 ≡ deploy_phys_addr_start + v.vm_pgoff * 2 ^ 12)
        × (r.pfn * 2 ^ 12 + r.size ≤ deploy_phys_addr_end)
  unfolding memdevice_mmap
  memdevice_mmap_inside fits nonempty = (
    record { addr = v.vm_start; pfn = v.vm_pgoff + 2 ^ 20; size = v.vm_end - v.vm_start },
    ground arith,
    omega arith,
    omega arith,
    omega arith,
    omega arith,
  )

  -- A region that goes beyond that memory is refused with -EINVAL, and nothing is mapped.
  memdevice_mmap_outside :
      deploy_phys_mem_size < v.vm_pgoff * 2 ^ 12 + (v.vm_end - v.vm_start)
      → memdevice_mmap fails v ≡ (einval, none)
  unfolding memdevice_mmap
  memdevice_mmap_outside beyond = ground arith

  -- A region that is not empty is either in the memory of the friend cores, and is then mapped at its
  -- place in that memory, all of it and nothing else, with the result of the kernel's call; or it
  -- goes beyond, and is then refused with -EINVAL, and nothing is mapped.
  pub memdevice_mmap_bounds :
      v.vm_start < v.vm_end
      → (v.vm_pgoff * 2 ^ 12 + (v.vm_end - v.vm_start) ≤ deploy_phys_mem_size
          × (r : Remap) × (memdevice_mmap fails v
              ≡ (elim (fails r) [ true ↦ eagain | false ↦ ok ], some r))
          × (r.addr ≡ v.vm_start)
          × (r.size ≡ v.vm_end - v.vm_start)
          × (r.pfn * 2 ^ 12 ≡ deploy_phys_addr_start + v.vm_pgoff * 2 ^ 12)
          × (r.pfn * 2 ^ 12 + r.size ≤ deploy_phys_addr_end))
        ⊎ (deploy_phys_mem_size < v.vm_pgoff * 2 ^ 12 + (v.vm_end - v.vm_start)
            × (memdevice_mmap fails v ≡ (einval, none)))
  memdevice_mmap_bounds nonempty =
      elim (dec_lt deploy_phys_mem_size (v.vm_pgoff * 2 ^ 12 + (v.vm_end - v.vm_start))) [
        | yes beyond ↦ inr (beyond, memdevice_mmap_outside beyond)
        | no within ↦
            let fits : v.vm_pgoff * 2 ^ 12 + (v.vm_end - v.vm_start) ≤ deploy_phys_mem_size =
              omega arith in
            let (r, a, b, c, d, e) = memdevice_mmap_inside fits nonempty in
            inl (fits, r, a, b, c, d, e)
      ]

  -- The boot memory is mapped as a whole or not at all.
  pub bootmemdevice_mmap_lem :
      (r : Remap)
      → (bootmemdevice_mmap fails v).1 ≡ some r
      → (v.vm_pgoff ≡ 0)
        × (r.pfn * 2 ^ 12 ≡ trampoline_addr)
        × (r.size ≡ trampoline_size)
        × (v.vm_end ≡ v.vm_start + trampoline_size)
        × ((bootmemdevice_mmap fails v).0 ≡ elim (fails r) [ true ↦ eagain | false ↦ ok ])
  unfolding bootmemdevice_mmap
  bootmemdevice_mmap_lem r e = ground arith
