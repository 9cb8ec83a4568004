-- ===== src/FriendLoader/CharDevice.antt =====
-- The two memory devices of FriendLoader/call_interface.c.
pub mod Balance
pub mod Pair
pub mod Frame
use toshokan.Base.{ℕ, Bool, true, false, if◌then◌else◌}
use toshokan.FriendLoader.Kernel.{
  Kind, region, cls, device, chardev, Part, mem, bootmem, Kernel, register, release, key, Code,
  zero_code, enxio, Ptr, null, err_ptr, valid,
}

-- The answers of `alloc_chrdev_region`, `class_create` (whether it is no error pointer),
-- `device_create` and `cdev_add`.
pub record Answers : Type 0 where
  pub alloc : Bool
  pub class_ok : Bool
  pub created : Ptr
  pub add : Bool

abbrev created_device : Part → Ptr → Kernel → Kernel
created_device p valid k = register (key device p) k
created_device p _ k = k

-- The labels `unregister_chrdev` and `class_destroy`.
abbrev unregister_chrdev : Part → Kernel → Code × Kernel
unregister_chrdev p k = (enxio, release (key region p) k)

abbrev class_destroy : Part → Kernel → Code × Kernel
class_destroy p k = unregister_chrdev p (release (key cls p) k)

-- `device_destroy` looks the device up, and does nothing where there is none.
abbrev pub device_destroy : Part → Kernel → Kernel
device_destroy p k = if k.held (key device p) then release (key device p) k else k

-- From the call of `cdev_add` on.
cdev_part : Part → Answers → Kernel → Code × Kernel
cdev_part p a k =
    if a.add then (zero_code, register (key chardev p) k) else class_destroy p (device_destroy p k)

-- From the call of `device_create` on. Only a null pointer counts as a failure.
device_part : Part → Answers → Kernel → Code × Kernel
unfolding cdev_part
device_part p a k = elim a.created [
  | null ↦ class_destroy p k
  | valid ↦ cdev_part p a (register (key device p) k)
  | err_ptr ↦ cdev_part p a k
]

pub generic_memdevice_init : Part → Answers → Kernel → Code × Kernel
unfolding device_part
generic_memdevice_init p a k =
    if a.alloc
    then (let k₁ = register (key region p) k in
        if a.class_ok then device_part p a (register (key cls p) k₁) else unregister_chrdev p k₁)
    else (enxio, k)

-- The results of both calls are dropped.
pub memdevice_init : Answers → Answers → Kernel → Code × Kernel
memdevice_init a b k =
    let (_, k₁) = generic_memdevice_init mem a k in
    let (_, k₂) = generic_memdevice_init bootmem b k₁ in (zero_code, k₂)

abbrev memdevice_exit_part : Part → Kernel → Kernel
memdevice_exit_part p k =
    release (key region p) (release (key cls p) (device_destroy p (release (key chardev p) k)))

pub memdevice_exit : Kernel → Kernel
memdevice_exit k = memdevice_exit_part bootmem (memdevice_exit_part mem k)
