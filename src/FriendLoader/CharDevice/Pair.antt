-- ===== src/FriendLoader/CharDevice/Pair.antt =====
-- memdevice_init and memdevice_exit.
use toshokan.Base.{◌≡◌, true, false, arith, refl, ◌≢◌, ◌∙◌}
use toshokan.FriendLoader.Kernel.{
  region, cls, device, chardev, mem, bootmem, Key, Kernel, key, same, zero_code, err_ptr, valid,
}
use toshokan.FriendLoader.CharDevice.{
  Answers, generic_memdevice_init, memdevice_init, memdevice_exit,
}
use toshokan.FriendLoader.CharDevice.Balance.{
  IsFresh, succeeds, clash, Done, all_done, undone, generic_memdevice_init_lem,
}

succeeds_good :
    (a : Answers)
    → succeeds a ≡ true
    → a ≡ record { alloc = true; class_ok = true; created = valid; add = true }
succeeds_good a h = ground arith

boot_leaves :
    (b : Answers) (k : Kernel)
    → (generic_memdevice_init bootmem b k).1.held (key chardev mem) ≡ k.held (key chardev mem)
unfolding generic_memdevice_init same
boot_leaves b k = ground arith

module _ (k : Kernel) (f : IsFresh mem k) (g : IsFresh bootmem k) where
  abbrev good : Answers
  good = record { alloc = true; class_ok = true; created = valid; add = true }

  restored : (s : Key) → (memdevice_exit (memdevice_init good good k).1).held s ≡ k.held s
  unfolding memdevice_exit memdevice_init generic_memdevice_init same
  restored s = ground (
    arith,
    clash mem k region s f.no_region,
    clash mem k cls s f.no_class,
    clash mem k device s f.no_device,
    clash mem k chardev s f.no_chardev,
    clash bootmem k region s g.no_region,
    clash bootmem k cls s g.no_class,
    clash bootmem k device s g.no_device,
    clash bootmem k chardev s g.no_chardev,
  )

  paired : (memdevice_exit (memdevice_init good good k).1).unpaired ≡ k.unpaired
  unfolding memdevice_exit memdevice_init generic_memdevice_init same
  paired = ground arith

  mem_undone :
      (a : Answers)
      → succeeds a ≡ false
      → a.created ≢ err_ptr
      → (generic_memdevice_init mem a k).1.held (key chardev mem) ≡ false
  mem_undone a p ne = after (generic_memdevice_init_lem mem k f a ne).1
    where
      after :
          Done mem a k (generic_memdevice_init mem a k)
          → (generic_memdevice_init mem a k).1.held (key chardev mem) ≡ false
      after (all_done y c h) = cc (p, y)
      after (undone n c h) = h (key chardev mem) ∙ f.no_chardev

  -- If every call of memdevice_init succeeds, memdevice_exit releases all that it registered, and
  -- nothing else.
  pub memdevice_exit-init :
      (a b : Answers)
      → succeeds a ≡ true
      → succeeds b ≡ true
      → let k' = memdevice_exit (memdevice_init a b k).1 in
        ((s : Key) → k'.held s ≡ k.held s) × (k'.unpaired ≡ k.unpaired)
  memdevice_exit-init a b p q = rw (succeeds_good a p, succeeds_good b q) (restored, paired)

  -- Where nothing of the two devices is registered before, and device_create gives no error pointer
  -- for the device of the memory: memdevice_init returns 0 although a part of that device could not
  -- be had, and memdevice_exit then releases what is not registered.
  pub memdevice_init-unpaired :
      (a b : Answers)
      → succeeds a ≡ false
      → a.created ≢ err_ptr
      → let (c, k') = memdevice_init a b k in
        (c ≡ zero_code) × ((memdevice_exit k').unpaired ≡ true)
  unfolding memdevice_init memdevice_exit
  memdevice_init-unpaired a b p ne =
      (refl, ground (arith, boot_leaves b (generic_memdevice_init mem a k).1, mem_undone a p ne))
