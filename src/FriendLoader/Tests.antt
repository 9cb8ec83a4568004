-- ===== src/FriendLoader/Tests.antt =====
-- Loads of the kernel module with two and with four cores, with and without failures.
use toshokan.Base.{◌≡◌, true, false, refl}
use toshokan.FriendLoader.Kernel.{
  region, mem, bootmem, Kernel, key, zero_code, valid, err_ptr, is_negative,
}
use toshokan.FriendLoader.CharDevice.{
  Answers, generic_memdevice_init, memdevice_init, memdevice_exit,
}
use toshokan.FriendLoader.CharDevice.Balance.{IsFresh, Done, generic_memdevice_init_lem}
use toshokan.FriendLoader.CharDevice.Pair.{memdevice_init-unpaired}
use toshokan.FriendLoader.CpuDevice.{CpuAnswers}
use toshokan.FriendLoader.Module.{Load, friend_loader_init, friend_loader_exit}
use toshokan.FriendLoader.Module.Balance.{friend_loader_exit-init, friend_loader_init-leaks}

abbrev empty : Kernel
empty = record { held = λ s. false; unpaired = false }

abbrev granted : Answers
granted = record { alloc = true; class_ok = true; created = valid; add = true }

-- `cdev_add` fails.
abbrev refused : Answers
refused = record granted { add = false }

-- `device_create` returns an error pointer.
abbrev no_device : Answers
no_device = record granted { created = err_ptr }

abbrev cores : CpuAnswers
cores = record { alloc = true; add = true; class_ok = true; created = λ i. valid }

abbrev four : Load
four = record {
  possible = 4;
  memory = granted;
  boot_memory = granted;
  cores = cores;
  version = record { kobj = true; group = true };
}

-- A machine with one core.
abbrev single : Load
single = record four { possible = 1 }

empty-IsFresh : IsFresh mem empty
empty-IsFresh = record { no_region = refl; no_class = refl; no_device = refl; no_chardev = refl }

empty_boot : IsFresh bootmem empty
empty_boot = record { no_region = refl; no_class = refl; no_device = refl; no_chardev = refl }

generic_memdevice_init_lem_example :
    let r = generic_memdevice_init mem refused empty in
    (r.1.unpaired ≡ false) × Done mem refused empty r
generic_memdevice_init_lem_example =
    generic_memdevice_init_lem mem empty empty-IsFresh refused (λ e. cc)

memdevice_init-unpaired_example :
    let (c, k') = memdevice_init refused granted empty in
    (c ≡ zero_code) × ((memdevice_exit k').unpaired ≡ true)
memdevice_init-unpaired_example =
    memdevice_init-unpaired empty empty-IsFresh empty_boot refused granted refl (λ e. cc)

friend_loader_exit-init_example : friend_loader_exit four (friend_loader_init four empty).1 ≡ empty
friend_loader_exit-init_example = friend_loader_exit-init four empty (λ s. refl) refl

friend_loader_init-leaks_example :
    let (c, k') = friend_loader_init single empty in
    (is_negative c ≡ true) × (k'.held (key region mem) ≡ true)
friend_loader_init-leaks_example = friend_loader_init-leaks single empty (λ s. refl) refl refl
