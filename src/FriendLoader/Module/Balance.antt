-- ===== src/FriendLoader/Module/Balance.antt =====
-- What loading and unloading the module leaves registered.
use toshokan.Base.{◌≡◌, ◌≢◌, ◌∙◌, Bool, true, false, ◌&&◌, arith}
use mathlib.Core.Path.{fun_ext}
use toshokan.FriendLoader.Kernel.{
  region, kobject, mem, bootmem, info, Key, Kernel, key, same, same_self, part_code, zero_code,
  is_negative,
}
use toshokan.FriendLoader.CharDevice.{memdevice_init, memdevice_exit}
use toshokan.FriendLoader.CharDevice.Balance.{IsFresh, clash}
use toshokan.FriendLoader.CharDevice.Balance as Chars
use toshokan.FriendLoader.CharDevice.Frame.{
  memdevice_init-other, memdevice_init-code, memdevice_init-region,
}
use toshokan.FriendLoader.CharDevice.Pair.{memdevice_exit-init}
use toshokan.FriendLoader.CpuDevice.{cpudevice_init, cpudevice_exit}
use toshokan.FriendLoader.CpuDevice.Balance.{cpudevice_init_lem, cpudevice_exit-init}
use toshokan.FriendLoader.CpuDevice.Balance as Cores
use toshokan.FriendLoader.Module.{
  InfoAnswers, Load, version_interface_init, version_interface_exit, friend_loader_init,
  friend_loader_exit,
}

-- Nothing of the module is registered.
abbrev pub Unloaded : Kernel → Type 0
Unloaded k = (s : Key) → k.held s ≡ false

same_kernel :
    (k k' : Kernel) → ((s : Key) → k.held s ≡ k'.held s) → k.unpaired ≡ k'.unpaired → k ≡ k'
same_kernel k k' h u = λ i. record { held = fun_ext h i; unpaired = u i }

-- The interface of version.c.
version_exit-init :
    (a : InfoAnswers) (k : Kernel)
    → a.kobj && a.group ≡ true
    → k.held (key kobject info) ≡ false
    → version_interface_exit (version_interface_init a k).1 ≡ k
unfolding version_interface_exit version_interface_init
version_exit-init a k h e =
    same_kernel _ k (λ s. ground (arith, clash info k kobject s e, same_self (key kobject info)))
      (ground (arith, same_self (key kobject info)))

-- All that friend_loader_init asks of the kernel succeeds.
abbrev pub loads : Load → Bool
loads l =
    Chars.succeeds l.memory
    && Chars.succeeds l.boot_memory
    && Cores.succeeds l.possible l.cores
    && l.version.kobj
    && l.version.group

module _ (l : Load) (k : Kernel) (fresh : Unloaded k) where
  abbrev k₁ : Kernel
  k₁ = (memdevice_init l.memory l.boot_memory k).1

  abbrev k₂ : Kernel
  k₂ = (cpudevice_init l.possible l.cores k₁).1

  mem-IsFresh : IsFresh mem k
  mem-IsFresh = record {
    no_region = fresh _;
    no_class = fresh _;
    no_device = fresh _;
    no_chardev = fresh _;
  }

  boot-IsFresh : IsFresh bootmem k
  boot-IsFresh = record {
    no_region = fresh _;
    no_class = fresh _;
    no_device = fresh _;
    no_chardev = fresh _;
  }

  cpu_fresh : (s : Key) → part_code s.part ≡ 2 → k₁.held s ≡ false
  cpu_fresh s h = memdevice_init-other l.memory l.boot_memory k s (omega arith) ∙ fresh s

  mem_back :
      Chars.succeeds l.memory ≡ true → Chars.succeeds l.boot_memory ≡ true → memdevice_exit k₁ ≡ k
  mem_back p q =
      let (h, u) = memdevice_exit-init k mem-IsFresh boot-IsFresh l.memory l.boot_memory p q in
      same_kernel _ k h u

  cores_back : Cores.succeeds l.possible l.cores ≡ true → cpudevice_exit l.possible k₂ ≡ k₁
  cores_back p =
      let (h, u) = cpudevice_exit-init l.possible l.cores k₁ cpu_fresh p in same_kernel _ k₁ h u

  cores_keep : (s : Key) → part_code s.part ≢ 2 → k₂.held s ≡ k₁.held s
  cores_keep s h =
      let (_, _, held) = cpudevice_init_lem l.possible l.cores k₁ cpu_fresh in
      ground (arith, held s)

  cores_code :
      Cores.succeeds l.possible l.cores ≡ true
      → (cpudevice_init l.possible l.cores k₁).0 ≡ zero_code
  cores_code h =
      let (c, _, _) = cpudevice_init_lem l.possible l.cores k₁ cpu_fresh in ground (arith, c)

  info_fresh : k₂.held (key kobject info) ≡ false
  info_fresh =
      cores_keep (key kobject info) (omega arith)
      ∙ memdevice_init-other l.memory l.boot_memory k (key kobject info) (omega arith)
      ∙ fresh (key kobject info)

  loaded : loads l ≡ true → (friend_loader_init l k).1 ≡ (version_interface_init l.version k₂).1
  unfolding friend_loader_init version_interface_init
  loaded h = ground (arith, memdevice_init-code l.memory l.boot_memory k, cores_code)

  -- Loading the module and unloading it again leaves the kernel as it was.
  pub friend_loader_exit-init : loads l ≡ true → friend_loader_exit l (friend_loader_init l k).1 ≡ k
  unfolding friend_loader_init friend_loader_exit
  friend_loader_exit-init h =
      rw
        (
          loaded h,
          version_exit-init l.version k₂ (ground arith) info_fresh,
          cores_back (ground arith),
        )
        (mem_back (ground arith) (ground arith))

  cores_refused :
      Cores.succeeds l.possible l.cores ≡ false
      → is_negative (cpudevice_init l.possible l.cores k₁).0 ≡ true
  cores_refused h =
      let (c, _, _) = cpudevice_init_lem l.possible l.cores k₁ cpu_fresh in ground (arith, c)

  -- Where a later part of friend_loader_init fails, the module is not loaded, and the device numbers
  -- of the memory stay registered.
  pub friend_loader_init-leaks :
      Chars.succeeds l.memory ≡ true
      → Cores.succeeds l.possible l.cores && l.version.kobj && l.version.group ≡ false
      → let (c, k') = friend_loader_init l k in
        (is_negative c ≡ true) × (k'.held (key region mem) ≡ true)
  unfolding friend_loader_init version_interface_init same
  friend_loader_init-leaks h n = ground (
    arith,
    memdevice_init-code l.memory l.boot_memory k,
    memdevice_init-region l.memory l.boot_memory k h,
    cores_keep (key region mem),
    cores_refused,
    cores_code,
  )
