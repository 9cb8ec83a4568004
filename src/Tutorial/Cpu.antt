-- ===== src/Tutorial/Cpu.antt =====
-- What the programs of tutorial/paging use of a core: the tables in memory, the register that names
-- the first of them, and the translations that the core has kept. A core may keep any translation
-- that it has made until the program has it dropped (Intel SDM, volume 3, 4.10); here it keeps all.
pub mod Region
use Prim.Native.Nat.{bit_or}
use toshokan.Base.{ℕ, ◌+◌, ◌*◌, ◌/◌, ◌%◌, ◌^◌, Option, none, some, update}
use toshokan.Hakase.PageTables.{PhysMem, set_entry}
use toshokan.Hakase.PageTables.Walk.{walk}

pub record Cpu : Type 0 where
  pub tables : PhysMem
  pub cr3 : ℕ
  pub tlb : ℕ → Option ℕ  -- the address of a page of 4 KB, by the number of a virtual one

-- `| (1 << 0) | (1 << 1) | (1 << 2)`: present, writable, for all rings.
abbrev pub with_flags : ℕ → ℕ
with_flags a = bit_or (bit_or (bit_or a 1) 2) 4

-- `table.entry[i] = e`.
abbrev pub store_entry : ℕ → ℕ → ℕ → Cpu → Cpu
store_entry table i e c = record c { tables = set_entry c.tables table i e }

-- `invlpg`.
abbrev pub invlpg : ℕ → Cpu → Cpu
invlpg va c = record c { tlb = update c.tlb (va / 2 ^ 12) none }

-- Where an access to `va` goes, if it does not fault, and what is kept of it.
unfoldable pub translate : ℕ → Cpu → Option (ℕ × Cpu)
translate va c = elim (c.tlb (va / 2 ^ 12)) [
  | some page ↦ some (page + va % 2 ^ 12, c)
  | none ↦ elim (walk c.tables c.cr3 va) [
    | none ↦ none
    | some pa ↦
        some (pa, record c { tlb = update c.tlb (va / 2 ^ 12) (some (pa / 2 ^ 12 * 2 ^ 12)) })
  ]
]
