-- ===== src/FriendLoader/Kernel.antt =====
-- What the module registers with the kernel. The calls themselves are the kernel's: whether each one
-- succeeds is an argument of the model, and a success is an entry in a table.
use toshokan.Base.{ℕ, ◌≡◌, Bool, true, false, ◌&&◌, ◌||◌, not, arith, ◌==◌, if◌then◌else◌}

-- A range of device numbers, a class, a device of it, a character device, a kobject.
pub data Kind : Type 0 where
  region cls device chardev kobject : Kind

pub data Part : Type 0 where
  mem bootmem cpu info : Part

pub record Key : Type 0 where
  pub kind : Kind
  pub part : Part
  pub minor : ℕ

abbrev pub kind_code : Kind → ℕ
kind_code region = 0
kind_code cls = 1
kind_code device = 2
kind_code chardev = 3
kind_code kobject = 4

abbrev pub part_code : Part → ℕ
part_code mem = 0
part_code bootmem = 1
part_code cpu = 2
part_code info = 3

unfoldable pub same : Key → Key → Bool
same r s =
    kind_code r.kind == kind_code s.kind
    && part_code r.part == part_code s.part
    && r.minor == s.minor

pub same_self : (r : Key) → same r r ≡ true
unfolding same
same_self r = ground arith

pub same_sound : (r s : Key) → same r s ≡ true → r ≡ s
unfolding same
same_sound r s h = ground arith

-- `unpaired` is set by a release of what is not registered.
pub record Kernel : Type 0 where
  pub held : Key → Bool
  pub unpaired : Bool

abbrev pub register : Key → Kernel → Kernel
register r k = record k { held = λ s. if same r s then true else k.held s }

abbrev pub release : Key → Kernel → Kernel
release r k = record {
  held = λ s. if same r s then false else k.held s;
  unpaired = k.unpaired || not (k.held r);
}

abbrev pub key : Kind → Part → Key
key c p = record { kind = c; part = p; minor = 0 }

-- The results of the module's functions: 0, -1, -EIO and -ENXIO.
pub data Code : Type 0 where
  zero_code minus_one eio enxio : Code

abbrev pub is_negative : Code → Bool
is_negative zero_code = false
is_negative _ = true

-- What `device_create` returns.
pub data Ptr : Type 0 where
  null err_ptr valid : Ptr

-- Registrations of different kinds are different.
pub same_kinds :
    (c d : Kind) (p q : Part)
    → (kind_code c == kind_code d) ≡ false
    → same (key c p) (key d q) ≡ false
unfolding same
same_kinds c d p q h = rw h
