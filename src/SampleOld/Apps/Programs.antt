-- ===== src/SampleOld/Apps/Programs.antt =====
-- The function `main` of each of these samples.
use toshokan.SampleOld.Machine.{store, load_cr3, invlpg, phys, with_flags}
use toshokan.SampleOld.Common.{memset, memcpy, puts}
use toshokan.SampleOld.Tables.{hello, bye, pml4t, pt1, fill_pd1, link_tables}
use toshokan.SampleOld.Apps.{
  Link, Part, ◌>>◌, on_system, set_c1, set_c2, call_c1, call_c2, check_c1, check_c2, leave, body,
}
use toshokan.SampleOld.Apps.Spaces.{
  page_structures_for_app1, page_structures_for_app2, pd_for_baremetal, fill_baremetal,
  create_pagetable, map_page, unmap_page, lent_body,
}

-- sample_old/paging/021.
unfoldable pub single_main : Link → Part
single_main l = do
  on_system (puts hello)
  on_system (memcpy 0x40_0000 l.app1_start l.app1_size)
  set_c1 0x40_0000
  call_c1 l (body l)
  check_c1 1
  call_c1 l (body l)
  check_c1 2
  on_system (puts bye)
  leave 0

-- sample_old/paging/022.
unfoldable pub separate_main : Link → Part
separate_main l = do
  on_system (puts hello)
  on_system (memcpy 0x40_0000 l.app1_start l.app1_size)
  on_system (memcpy 0x50_0000 l.app2_start l.app2_size)
  set_c1 0x40_0000
  call_c1 l (body l)
  check_c1 1
  set_c2 0x50_0000
  call_c2 l (body l)
  check_c2 9
  call_c1 l (body l)
  check_c1 2
  call_c2 l (body l)
  check_c2 8
  on_system (puts bye)
  leave 0

-- sample_old/paging/023.
unfoldable pub copied_main : Link → Part
copied_main l = do
  on_system (puts hello)
  on_system (memcpy 0x50_0000 l.app1_start l.app1_size)
  on_system (memcpy 0x60_0000 l.app2_start l.app2_size)
  set_c1 0x40_0000
  on_system (memcpy 0x40_0000 0x50_0000 l.app1_size)
  call_c1 l (body l)
  on_system (memcpy 0x50_0000 0x40_0000 l.app1_size)
  check_c1 1
  set_c2 0x40_0000
  on_system (memcpy 0x40_0000 0x60_0000 l.app2_size)
  call_c2 l (body l)
  on_system (memcpy 0x60_0000 0x40_0000 l.app2_size)
  check_c2 9
  on_system (memcpy 0x40_0000 0x50_0000 l.app1_size)
  call_c1 l (body l)
  on_system (memcpy 0x50_0000 0x40_0000 l.app1_size)
  check_c1 2
  on_system (memcpy 0x40_0000 0x60_0000 l.app2_size)
  call_c2 l (body l)
  on_system (memcpy 0x60_0000 0x40_0000 l.app2_size)
  check_c2 8
  on_system (puts bye)
  leave 0

-- sample_old/paging/024.
unfoldable pub remapped_main : Link → Part
remapped_main l = do
  on_system (puts hello)
  on_system (memset pml4t 0 0x5000)
  on_system link_tables
  on_system fill_pd1
  on_system (load_cr3 (phys pml4t))
  on_system (memcpy 0x50_0000 l.app1_start l.app1_size)
  on_system (memcpy 0x60_0000 l.app2_start l.app2_size)
  set_c1 0xC000_0000
  on_system (store pt1 0 (with_flags 0x8050_0000))
  on_system (invlpg 0xC000_0000)
  call_c1 l (body l)
  check_c1 1
  set_c2 0xC000_0000
  on_system (store pt1 0 (with_flags 0x8060_0000))
  on_system (invlpg 0xC000_0000)
  call_c2 l (body l)
  check_c2 9
  on_system (store pt1 0 (with_flags 0x8050_0000))
  on_system (invlpg 0xC000_0000)
  call_c1 l (body l)
  check_c1 2
  on_system (store pt1 0 (with_flags 0x8060_0000))
  on_system (invlpg 0xC000_0000)
  call_c2 l (body l)
  check_c2 8
  on_system (puts bye)
  leave 0

-- sample_old/paging/041.
unfoldable pub switched_main : Link → Part
switched_main l = do
  on_system (puts hello)
  on_system (memset page_structures_for_app1 0 0x9000)
  on_system fill_baremetal
  on_system (create_pagetable page_structures_for_app1 pd_for_baremetal 0x8050_0000)
  on_system (create_pagetable page_structures_for_app2 pd_for_baremetal 0x8060_0000)
  on_system (memcpy 0x50_0000 l.app1_start l.app1_size)
  on_system (memcpy 0x60_0000 l.app2_start l.app2_size)
  set_c1 0xC000_0000
  on_system (load_cr3 (phys page_structures_for_app1))
  call_c1 l (body l)
  check_c1 1
  set_c2 0xC000_0000
  on_system (load_cr3 (phys page_structures_for_app2))
  call_c2 l (body l)
  check_c2 9
  on_system (load_cr3 (phys page_structures_for_app1))
  call_c1 l (body l)
  check_c1 2
  on_system (load_cr3 (phys page_structures_for_app2))
  call_c2 l (body l)
  check_c2 8
  on_system (puts bye)
  leave 0

-- sample_old/paging/042.
unfoldable pub lending_main : Link → Part
lending_main l = do
  on_system (puts hello)
  on_system (memset page_structures_for_app1 0 0x9000)
  on_system fill_baremetal
  on_system (create_pagetable page_structures_for_app1 pd_for_baremetal 0x8050_0000)
  on_system (create_pagetable page_structures_for_app2 pd_for_baremetal 0x8060_0000)
  on_system (memcpy 0x50_0000 l.app1_start l.app1_size)
  on_system (memcpy 0x60_0000 l.app2_start l.app2_size)
  set_c1 0xC000_0000
  on_system (load_cr3 (phys page_structures_for_app1))
  on_system (map_page page_structures_for_app1)
  call_c1 l (lent_body l)
  on_system (unmap_page page_structures_for_app1)
  check_c1 1
  set_c2 0xC000_0000
  on_system (load_cr3 (phys page_structures_for_app2))
  call_c2 l (lent_body l)
  check_c2 9
  on_system (load_cr3 (phys page_structures_for_app1))
  call_c1 l (lent_body l)
  check_c1 2
  on_system (load_cr3 (phys page_structures_for_app2))
  on_system (map_page page_structures_for_app2)
  call_c2 l (lent_body l)
  on_system (unmap_page page_structures_for_app2)
  check_c2 8
  on_system (puts bye)
  leave 0
