-- ===== src/SampleOld/Machine.antt =====
-- What the samples use of the friend core: memory by bytes, `%cr3`, the translations that the core
-- keeps, and the messages on the channel to the host, whose code the repository does not have.
use Prim.Native.Nat.{bit_or}
use toshokan.Base.{
  ℕ, zero, suc, ◌+◌, ◌-◌, ◌*◌, ◌/◌, ◌%◌, ◌^◌, List, Option, none, some, ◌&&◌, leb, ltb,
  if◌then◌else◌, update,
}
use toshokan.Hakase.PageTables.{PhysMem}
use toshokan.Hakase.PageTables.Walk.{walk}

-- Bytes by their physical address.
abbrev pub Bytes : Type 0
Bytes = ℕ → ℕ

abbrev pub read64 : Bytes → ℕ → ℕ
read64 m a =
    m a
    + 2 ^ 8
      * (m (a + 1)
          + 2 ^ 8
            * (m (a + 2)
                + 2 ^ 8
                  * (m (a + 3)
                      + 2 ^ 8
                        * (m (a + 4)
                            + 2 ^ 8 * (m (a + 5) + 2 ^ 8 * (m (a + 6) + 2 ^ 8 * m (a + 7)))))))

abbrev pub write64 : Bytes → ℕ → ℕ → Bytes
write64 m a v b = if leb a b && ltb b (a + 8) then v / 256 ^ (b - a) % 256 else m b

-- The tables as a page walk reads them.
abbrev pub tables : Bytes → PhysMem
tables m page i = read64 m (page + 8 * i)

-- A message on the channel: its signal and the value that it carries.
pub data Message : Type 0 where
  put_char : (c : ℕ) → Message
  put_value : (i : ℕ) → Message

-- `cr3` is none under the tables of the boot. `wakes` counts the interrupts that are still to come
-- and end a `hlt`.
pub record System : Type 0 where
  pub mem : Bytes
  pub cr3 : Option ℕ
  pub tlb : ℕ → Option ℕ
  pub sent : List Message
  pub print_flag : ℕ
  pub wakes : ℕ

abbrev pub Step : Type 0
Step = System → Option System

abbrev pub and_then : Option System → Step → Option System
and_then none g = none
and_then (some s) g = g s

infixl 5 ◌>>◌
abbrev pub ◌>>◌ : Step → Step → Step
◌>>◌ f g s = and_then (f s) g

-- Where the first GB of addresses lies, by the boot's tables and by those that the samples set up.
abbrev pub phys : ℕ → ℕ
phys v = v + 0x8000_0000

-- `table[i] = e`, for a pointer below 1 GB.
abbrev pub store : ℕ → ℕ → ℕ → Step
store table i e s = some (record s { mem = write64 s.mem (phys (table + 8 * i)) e })

-- `movq %0, %%cr3`, which drops the translations that are kept.
abbrev pub load_cr3 : ℕ → Step
load_cr3 a s = some (record s { cr3 = some a; tlb = λ page. none })

abbrev pub invlpg : ℕ → Step
invlpg va s = some (record s { tlb = update s.tlb (va / 2 ^ 12) none })

-- Where an access to an address from 1 GB on goes, if it does not fault.
unfoldable pub locate : System → ℕ → Option ℕ
locate s va = elim (s.tlb (va / 2 ^ 12)) [
  | some page ↦ some (page + va % 2 ^ 12)
  | none ↦ elim s.cr3 [ none ↦ none | some root ↦ walk (tables s.mem) root va ]
]

abbrev pub keep : ℕ → ℕ → System → System
keep va pa s = record s { tlb = update s.tlb (va / 2 ^ 12) (some (pa / 2 ^ 12 * 2 ^ 12)) }

-- `hlt`.
abbrev pub hlt : Step
hlt s = elim s.wakes [ zero ↦ none | suc n ↦ some (record s { wakes = n }) ]

-- `| (1 << 0) | (1 << 1) | (1 << 2)`, and with `| (1 << 7)`.
abbrev pub with_flags : ℕ → ℕ
with_flags a = bit_or (bit_or (bit_or a 1) 2) 4

abbrev pub with_huge_flags : ℕ → ℕ
with_huge_flags a = bit_or (with_flags a) 0x80
