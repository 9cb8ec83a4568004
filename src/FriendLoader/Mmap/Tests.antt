-- ===== src/FriendLoader/Mmap/Tests.antt =====
-- The mmap handlers at the calls of hakase/hakase.cc and hakase/loader16.cc.
use toshokan.Base.{
  ◌+◌, ◌-◌, ◌<◌, ◌⊎◌, ◌*◌, ◌^◌, ◌≡◌, ◌≤◌, Bool, true, false, none, some, refl, arith,
}
use toshokan.FriendLoader.Mmap.{Vma, Remap, ok, einval, eagain, memdevice_mmap}
use toshokan.FriendLoader.Mmap.Bounds.{memdevice_mmap_bounds}

abbrev succeeds : Remap → Bool
succeeds r = false

-- `mmap_friend_mem` maps all of the memory.
abbrev whole : Vma
whole = record { vm_start = 0x1_0000_0000; vm_end = 0x1_4000_0000; vm_pgoff = 0 }

abbrev shifted : Vma
shifted = record whole { vm_pgoff = 1 }

abbrev boot : Vma
boot = record { vm_start = 0x7000_0000; vm_end = 0x7000_2000; vm_pgoff = 0 }

abbrev boot_remap : Remap
boot_remap = record { addr = 0x7000_0000; pfn = 0x70; size = 0x2000 }

whole_mapped :
    memdevice_mmap succeeds whole
    ≡ (ok, some (record { addr = 0x1_0000_0000; pfn = 0x10_0000; size = 0x4000_0000 }))
unfolding memdevice_mmap
whole_mapped = refl

-- From the second page on, as many bytes as the whole memory has.
memdevice_mmap_bounds_example :
    (1 * 2 ^ 12 + (0x1_4000_0000 - 0x1_0000_0000) ≤ 0x4000_0000
      × (r : Remap) × (memdevice_mmap succeeds shifted
          ≡ (elim (succeeds r) [ true ↦ eagain | false ↦ ok ], some r))
      × (r.addr ≡ 0x1_0000_0000)
      × (r.size ≡ 0x4000_0000)
      × (r.pfn * 2 ^ 12 ≡ 0x1_0000_0000 + 1 * 2 ^ 12)
      × (r.pfn * 2 ^ 12 + r.size ≤ 0x1_4000_0000))
    ⊎ (0x4000_0000 < 1 * 2 ^ 12 + (0x1_4000_0000 - 0x1_0000_0000)
        × (memdevice_mmap succeeds shifted ≡ (einval, none)))
memdevice_mmap_bounds_example = memdevice_mmap_bounds succeeds shifted (omega arith) (omega arith)
