-- ===== src/FriendLoader/CpuDevice.antt =====
-- FriendLoader/cpudevice.c: a character device for each core that may become a friend core.
pub mod Balance
use toshokan.Base.{ℕ, zero, suc, ◌+◌, ◌-◌, ◌%◌, ◌^◌, Bool, true, false, ◌==◌, if◌then◌else◌}
use toshokan.FriendLoader.Kernel.{
  region, cls, device, chardev, cpu, Key, Kernel, register, release, key, Code, zero_code, eio,
  enxio, Ptr, null, err_ptr, valid,
}

-- The answers of `alloc_chrdev_region`, `cdev_add`, `class_create` and, for each minor number,
-- `device_create`.
pub record CpuAnswers : Type 0 where
  pub alloc : Bool
  pub add : Bool
  pub class_ok : Bool
  pub created : ℕ → Ptr

abbrev pub minor_key : ℕ → Key
minor_key i = record { kind = device; part = cpu; minor = i }

-- `num_possible_cpus() - 1`, an `unsigned int`.
abbrev pub minor_num : ℕ → ℕ
minor_num possible = (possible + 2 ^ 32 - 1) % 2 ^ 32

abbrev pub is_valid : Ptr → Bool
is_valid valid = true
is_valid _ = false

-- The loop over `device_create`, for `n` minor numbers from `minor` on.
pub create_devices : (ℕ → Ptr) → ℕ → ℕ → Kernel → Kernel
create_devices created zero minor k = k
create_devices created (suc n) minor k =
    create_devices created n (minor + 1)
      (if is_valid (created minor) then register (minor_key minor) k else k)

-- The loop over `device_destroy`, which looks each device up.
pub destroy_devices : ℕ → ℕ → Kernel → Kernel
destroy_devices zero minor k = k
destroy_devices (suc n) minor k =
    destroy_devices n (minor + 1)
      (if k.held (minor_key minor) then release (minor_key minor) k else k)

pub cpudevice_init : ℕ → CpuAnswers → Kernel → Code × Kernel
cpudevice_init possible a k =
    if minor_num possible == 0
    then (eio, k)
    else if a.alloc
    then (let k₁ = register (key region cpu) k in
        if a.add
        then (let k₂ = register (key chardev cpu) k₁ in
            if a.class_ok
            then (
              zero_code,
              create_devices a.created (minor_num possible) 0 (register (key cls cpu) k₂),
            )
            else (enxio, release (key region cpu) (release (key chardev cpu) k₂)))
        else (enxio, release (key region cpu) k₁))
    else (enxio, k)

pub cpudevice_exit : ℕ → Kernel → Kernel
cpudevice_exit possible k =
    release (key region cpu)
      (release (key chardev cpu) (release (key cls cpu) (destroy_devices (minor_num possible) 0 k)))
