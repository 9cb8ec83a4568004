-- ===== src/FriendLoader/CpuDevice/Balance.antt =====
-- What the core devices leave registered.
use toshokan.Base.{
  ℕ, zero, suc, ◌+◌, ◌≡◌, ◌∙◌, Bool, true, false, ◌&&◌, ◌||◌, arith, refl, ltb, leb, ◌==◌,
  if◌then◌else◌, not,
}
use toshokan.FriendLoader.Kernel.{
  region, cls, chardev, cpu, Key, Kernel, register, release, key, same, kind_code, part_code,
  zero_code, eio, enxio, Ptr,
}
use toshokan.FriendLoader.CpuDevice.{
  CpuAnswers, minor_key, minor_num, is_valid, create_devices, destroy_devices, cpudevice_init,
  cpudevice_exit,
}

-- A device of a core, with a minor number from `lo` on and below `hi`.
abbrev pub minor_in : ℕ → ℕ → Key → Bool
minor_in lo hi s =
    kind_code s.kind == 2 && part_code s.part == 2 && leb lo s.minor && ltb s.minor hi

create_devices-held :
    (c : ℕ → Ptr) (n i : ℕ) (k : Kernel) (s : Key)
    → (create_devices c n i k).held s ≡ ((minor_in i (i + n) s && is_valid (c s.minor)) || k.held s)
unfolding create_devices same
create_devices-held c zero i k s = ground arith
create_devices-held c (suc n) i k s =
    create_devices-held c n (i + 1) (if is_valid (c i) then register (minor_key i) k else k) s
    ∙ ground arith

create_devices-unpaired :
    (c : ℕ → Ptr) (n i : ℕ) (k : Kernel) → (create_devices c n i k).unpaired ≡ k.unpaired
unfolding create_devices
create_devices-unpaired c zero i k = refl
create_devices-unpaired c (suc n) i k =
    create_devices-unpaired c n (i + 1) (if is_valid (c i) then register (minor_key i) k else k)
    ∙ ground arith

destroy_devices-held :
    (n i : ℕ) (k : Kernel) (s : Key)
    → (destroy_devices n i k).held s ≡ (if minor_in i (i + n) s then false else k.held s)
unfolding destroy_devices same
destroy_devices-held zero i k s = ground arith
destroy_devices-held (suc n) i k s =
    destroy_devices-held n (i + 1) (if k.held (minor_key i) then release (minor_key i) k else k) s
    ∙ ground arith

destroy_devices-unpaired : (n i : ℕ) (k : Kernel) → (destroy_devices n i k).unpaired ≡ k.unpaired
unfolding destroy_devices
destroy_devices-unpaired zero i k = refl
destroy_devices-unpaired (suc n) i k =
    destroy_devices-unpaired n (i + 1) (if k.held (minor_key i) then release (minor_key i) k else k)
    ∙ ground arith

-- The class, the character device and the range of numbers of the cores.
abbrev pub of_cpu : Key → Bool
of_cpu s =
    part_code s.part == 2
    && s.minor == 0
    && (kind_code s.kind == 0 || kind_code s.kind == 1 || kind_code s.kind == 3)

-- Whether the calls that cpudevice_init looks at succeed, for some core besides the first.
abbrev pub succeeds : ℕ → CpuAnswers → Bool
succeeds possible a = not (minor_num possible == 0) && a.alloc && a.add && a.class_ok

module _ (possible : ℕ) (a : CpuAnswers) (k : Kernel)
    (fresh : (s : Key) → part_code s.part ≡ 2 → k.held s ≡ false) where
  -- What the loop over the devices starts from.
  abbrev base : Kernel
  base = register (key cls cpu) (register (key chardev cpu) (register (key region cpu) k))

  -- What cpudevice_init returns and leaves. On success the range of numbers, the character device
  -- and the class are registered, and every device that `device_create` has created; on failure
  -- nothing is, beyond what was. No release lacks its registration.
  pub cpudevice_init_lem :
      let (c, k') = cpudevice_init possible a k in
      (c ≡ (
        if minor_num possible == 0 then eio else if succeeds possible a then zero_code else enxio))
      × (k'.unpaired ≡ k.unpaired)
      × ((s : Key)
          → k'.held s ≡ (
              if succeeds possible a
              then ((minor_in 0 (0 + minor_num possible) s && is_valid (a.created s.minor))
                  || (of_cpu s || k.held s))
              else k.held s))
  unfolding cpudevice_init same
  cpudevice_init_lem = (
    ground arith,
    ground (arith, create_devices-unpaired a.created (minor_num possible) 0 base),
    λ s. ground (arith, create_devices-held a.created (minor_num possible) 0 base s, fresh s),
  )

  -- cpudevice_exit undoes a cpudevice_init that has succeeded.
  pub cpudevice_exit-init :
      succeeds possible a ≡ true
      → let k' = cpudevice_exit possible (cpudevice_init possible a k).1 in
        ((s : Key) → k'.held s ≡ k.held s) × (k'.unpaired ≡ k.unpaired)
  unfolding cpudevice_exit same
  cpudevice_exit-init h =
      let (_, u, held) = cpudevice_init_lem in
      let k₁ = (cpudevice_init possible a k).1 in
      (
        λ s. ground (arith, held s, destroy_devices-held (minor_num possible) 0 k₁ s, fresh s),
        ground (
          arith,
          u,
          held (key cls cpu),
          held (key chardev cpu),
          held (key region cpu),
          destroy_devices-held (minor_num possible) 0 k₁ (key cls cpu),
          destroy_devices-held (minor_num possible) 0 k₁ (key chardev cpu),
          destroy_devices-held (minor_num possible) 0 k₁ (key region cpu),
          destroy_devices-unpaired (minor_num possible) 0 k₁,
        ),
      )
