-- ===== src/FriendLoader/CharDevice/Balance.antt =====
-- What the memory devices leave registered.
use toshokan.Base.{◌≡◌, ◌≢◌, Bool, true, false, ◌&&◌, ◌||◌, arith, refl}
use toshokan.FriendLoader.Kernel.{
  Kind, region, cls, device, chardev, Part, Key, Kernel, key, same, same_self, same_sound,
  same_kinds, Code, zero_code, enxio, Ptr, null, err_ptr, valid,
}
use toshokan.FriendLoader.CharDevice.{Answers, generic_memdevice_init}

-- Nothing of a device is registered.
pub record IsFresh (p : Part) (k : Kernel) : Type 0 where
  pub no_region : k.held (key region p) ≡ false
  pub no_class : k.held (key cls p) ≡ false
  pub no_device : k.held (key device p) ≡ false
  pub no_chardev : k.held (key chardev p) ≡ false

-- Whether all four calls succeed.
abbrev pub succeeds : Answers → Bool
succeeds a = a.alloc && a.class_ok && elim a.created [ valid ↦ true | _ ↦ false ] && a.add

-- The registrations of one device.
abbrev pub of_device : Part → Key → Bool
of_device p s =
    same (key region p) s || same (key cls p) s || same (key device p) s || same (key chardev p) s

-- What a call returns and leaves: everything done, or nothing.
pub data Done (p : Part) (a : Answers) (k : Kernel) (r : Code × Kernel) : Type 0 where
  all_done :
      succeeds a ≡ true
      → r.0 ≡ zero_code
      → ((s : Key) → r.1.held s ≡ (of_device p s || k.held s))
      → Done p a k r
  undone : succeeds a ≡ false → r.0 ≡ enxio → ((s : Key) → r.1.held s ≡ k.held s) → Done p a k r

-- A key that is found free is free under any name.
pub clash :
    (p : Part) (k : Kernel) (c : Kind) (s : Key)
    → k.held (key c p) ≡ false
    → same (key c p) s ≡ true
    → k.held s ≡ false
clash p k c s e h = rw (← same_sound (key c p) s h) e

module _ (p : Part) (k : Kernel) (f : IsFresh p k) where
  own : (c : Kind) → same (key c p) (key c p) ≡ true
  own c = same_self (key c p)

  init_cases :
      (al cl : Bool) (cr : Ptr) (ad : Bool)
      → cr ≢ err_ptr
      → let a : Answers = record { alloc = al; class_ok = cl; created = cr; add = ad } in
        let r = generic_memdevice_init p a k in (r.1.unpaired ≡ k.unpaired) × Done p a k r
  unfolding generic_memdevice_init
  init_cases false cl cr ad ne = (refl, undone refl refl (λ s. refl))
  init_cases true false cr ad ne =
      (ground (arith, own region), undone refl refl (λ s. ground (arith, clash p k region s)))
  init_cases true true null ad ne = (
    ground (arith, own region, own cls, same_kinds cls region p p refl),
    undone refl refl (λ s. ground (arith, clash p k region s, clash p k cls s)),
  )
  init_cases true true err_ptr ad ne = absurd (ne refl)
  init_cases true true valid true ne = (refl, all_done refl refl (λ s. ground arith))
  init_cases true true valid false ne = (
    ground (
      arith,
      own region,
      own cls,
      own device,
      same_kinds cls region p p refl,
      same_kinds device region p p refl,
      same_kinds device cls p p refl,
    ),
    undone refl refl
        (λ s. ground (arith, own device, clash p k region s, clash p k cls s, clash p k device s)),
  )

-- generic_memdevice_init, where `device_create` returns no error pointer. If every call succeeds it
-- returns 0, with the device number, the class, the device and the character device registered;
-- otherwise it returns -ENXIO, with everything registered as it was. In no case does it release what
-- is not registered.
pub generic_memdevice_init_lem :
    (p : Part) (k : Kernel)
    → IsFresh p k
    → (a : Answers) → a.created ≢ err_ptr
    → let r = generic_memdevice_init p a k in (r.1.unpaired ≡ k.unpaired) × Done p a k r
generic_memdevice_init_lem p k f a ne = init_cases p k f a.alloc a.class_ok a.created a.add ne

-- An error pointer from `device_create` passes for a device: with the other calls successful the
-- function returns 0, and no device is registered.
pub generic_memdevice_init-err_ptr :
    (p : Part) (k : Kernel)
    → IsFresh p k
    → (a : Answers) → a.alloc ≡ true
    → a.class_ok ≡ true
    → a.add ≡ true
    → a.created ≡ err_ptr
    → let (c, k') = generic_memdevice_init p a k in
      (c ≡ zero_code) × (k'.held (key device p) ≡ false)
unfolding generic_memdevice_init
generic_memdevice_init-err_ptr p k f a al cl ad cr = ground (
  arith,
  same_kinds region device p p refl,
  same_kinds cls device p p refl,
  same_kinds chardev device p p refl,
)
