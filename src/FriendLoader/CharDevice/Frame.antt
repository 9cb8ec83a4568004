-- ===== src/FriendLoader/CharDevice/Frame.antt =====
-- The memory devices leave all other registrations alone.
use toshokan.Base.{◌≡◌, ◌≢◌, ◌≤◌, ◌∙◌, true, refl, arith}
use toshokan.FriendLoader.Kernel.{
  Part, mem, bootmem, region, Key, Kernel, key, same, part_code, zero_code,
}
use toshokan.FriendLoader.CharDevice.{Answers, generic_memdevice_init, memdevice_init}
use toshokan.FriendLoader.CharDevice.Balance.{succeeds}

generic_frame :
    (p : Part) (a : Answers) (k : Kernel) (s : Key)
    → part_code p ≢ part_code s.part
    → (generic_memdevice_init p a k).1.held s ≡ k.held s
unfolding generic_memdevice_init same
generic_frame p a k s h = ground arith

pub memdevice_init-other :
    (a b : Answers) (k : Kernel) (s : Key)
    → 2 ≤ part_code s.part
    → (memdevice_init a b k).1.held s ≡ k.held s
unfolding memdevice_init
memdevice_init-other a b k s h =
    generic_frame bootmem b (generic_memdevice_init mem a k).1 s (omega arith)
    ∙ generic_frame mem a k s (omega arith)

pub memdevice_init-code : (a b : Answers) (k : Kernel) → (memdevice_init a b k).0 ≡ zero_code
unfolding memdevice_init
memdevice_init-code a b k = refl

-- The range of device numbers of the memory, once it has been had.
pub memdevice_init-region :
    (a b : Answers) (k : Kernel)
    → succeeds a ≡ true
    → (memdevice_init a b k).1.held (key region mem) ≡ true
unfolding memdevice_init generic_memdevice_init same
memdevice_init-region a b k h =
    generic_frame bootmem b (generic_memdevice_init mem a k).1 (key region mem) (omega arith)
    ∙ ground arith
