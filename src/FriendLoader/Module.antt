-- ===== src/FriendLoader/Module.antt =====
-- FriendLoader/main.c and the registrations of FriendLoader/version.c.
pub mod Balance
use toshokan.Base.{ℕ, Bool, true, false, if◌then◌else◌}
use toshokan.FriendLoader.Kernel.{
  kobject, info, Kernel, register, release, key, Code, zero_code, minus_one, eio, is_negative,
}
use toshokan.FriendLoader.CharDevice.{Answers, memdevice_init, memdevice_exit}
use toshokan.FriendLoader.CpuDevice.{CpuAnswers, cpudevice_init, cpudevice_exit}

-- Whether `kobject_create_and_add` and `sysfs_create_group` succeed.
pub record InfoAnswers : Type 0 where
  pub kobj : Bool
  pub group : Bool

pub version_interface_init : InfoAnswers → Kernel → Code × Kernel
version_interface_init a k =
    if a.kobj
    then (let k₁ = register (key kobject info) k in
        if a.group then (zero_code, k₁) else (minus_one, release (key kobject info) k₁))
    else (minus_one, k)

pub version_interface_exit : Kernel → Kernel
version_interface_exit k = release (key kobject info) k

-- The answers of the kernel to one load of the module.
pub record Load : Type 0 where
  pub possible : ℕ
  pub memory : Answers
  pub boot_memory : Answers
  pub cores : CpuAnswers
  pub version : InfoAnswers

pub friend_loader_init : Load → Kernel → Code × Kernel
friend_loader_init l k =
    let (c, k₁) = memdevice_init l.memory l.boot_memory k in
    if is_negative c
    then (eio, k₁)
    else (let (n, k₂) = cpudevice_init l.possible l.cores k₁ in
        if is_negative n
        then (n, k₂)
        else (let (v, k₃) = version_interface_init l.version k₂ in
            if is_negative v then (eio, k₃) else (zero_code, k₃)))

pub friend_loader_exit : Load → Kernel → Kernel
friend_loader_exit l k = memdevice_exit (cpudevice_exit l.possible (version_interface_exit k))
