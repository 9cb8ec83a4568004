-- ===== src/Hakase/Setup.antt =====
-- The steps of `setup` (hakase/hakase.cc) after its two checks, with Loader16::Init
-- (hakase/loader16.cc) and what they do to the files and the memory of the process.
pub mod Leaves
pub mod Ready
mod Tests
use toshokan.Base.{
  ℕ, zero, suc, ◌+◌, ◌*◌, ◌/◌, ◌%◌, ◌-◌, ◌^◌, Bool, true, false, not, ◌&&◌, ◌||◌, List, [], ◌∷◌,
  Option, none, some, ltb, leb, ◌==◌, update, if◌then◌else◌,
}
use toshokan.Base.Int.{ℤ, pos, negsuc, pos_part, ltb_ℤ}
use toshokan.Layout.{deploy_phys_addr_start, deploy_phys_addr_end, page_size}
use toshokan.Hakase.Elf.Headers.{Image, u64_at, get_entry}
use toshokan.Hakase.Elf.Deploy.{deploy}
use toshokan.Hakase.PageTables.{PhysMem, Tables, init_page_tables}
use toshokan.Hakase.Startup.{check_version, check_bootparam}

-- The process: how many files it keeps open, the bytes of its memory, those of the trampoline page,
-- the page tables, and the shared variables by the address of their pointers. The tables and the
-- variables that lie in the memory of the friend cores hold what Deploy has left in it; what is
-- written to them after that is kept apart from its bytes.
pub record Process : Type 0 where
  pub files : ℕ
  pub memory : ℕ → ℕ
  pub trampoline : ℕ → ℕ
  pub tables : PhysMem
  pub shared : ℕ → ℕ

-- The files and devices: what is read, whether they can be opened and mapped; the friend binary and
-- the trampoline, with its size; where the tables are; and the symbols to export, as pairs of
-- shared_var_ptr and hakase_var_ptr.
pub record Setting : Type 0 where
  pub version : Option (List ℕ)
  pub cmdline : Option (List ℕ)
  pub friend_mem_opens : Bool
  pub friend_mem_maps : Bool
  pub bootmem_opens : Bool
  pub bootmem_maps : Bool
  pub friend_bin : Image
  pub friend16_bin : ℕ → ℕ
  pub friend16_bin_size : ℕ
  pub places : Tables
  pub export_symbols : List (ℕ × ℕ)

-- A check that fails after it has opened its file leaves it open.
abbrev left_open : Option (List ℕ) → ℤ → ℕ
left_open none r = 0
left_open (some f) r = if ltb_ℤ r (pos 0) then 1 else 0

abbrev pub clear : (ℕ → ℕ) → ℕ → ℕ
clear memory a =
    if leb deploy_phys_addr_start a
    then (if ltb a (deploy_phys_addr_start + 1024 * 4096) then 0 else memory a)
    else memory a

pub mmap_friend_mem : Setting → Process → ℤ × Process
mmap_friend_mem t p =
    if not t.friend_mem_opens
    then (negsuc 0, p)
    else if not t.friend_mem_maps
    then (negsuc 0, record p { files = p.files + 1 })
    else (pos 0, record p { memory = clear p.memory })

-- The trampoline code is copied and then, at byte 8, the entry put over it, the lowest byte first.
abbrev pub with_entry : (ℕ → ℕ) → ℕ → (ℕ → ℕ) → ℕ → ℕ → ℕ
with_entry code size before entry a =
    if leb 8 a
    then (if ltb a 16
        then entry / 2 ^ (8 * (a - 8)) % 2 ^ 8
        else if ltb a size
        then code a
        else before a)
    else if ltb a size
    then code a
    else before a

unfoldable pub loader16_init : Setting → ℕ → Process → ℤ × Process
loader16_init t entry p =
    if ltb page_size t.friend16_bin_size
    then (negsuc 0, p)
    else if not t.bootmem_opens
    then (negsuc 0, p)
    else if not t.bootmem_maps
    then (negsuc 0, record p { files = p.files + 1 })
    else (
      pos 0,
      record p {
        trampoline = with_entry t.friend16_bin t.friend16_bin_size p.trampoline entry;
        tables = init_page_tables t.places p.tables;
      },
    )

pub export_init : List (ℕ × ℕ) → (ℕ → ℕ) → ℕ → ℕ
export_init [] shared = shared
export_init ((ptr, var) ∷ cs) shared = export_init cs (update shared ptr var)

-- The words of memory, for the pages that lie in the memory of the friend cores.
abbrev pub tables_in : (ℕ → ℕ) → PhysMem → PhysMem
tables_in memory m page i =
    if leb deploy_phys_addr_start page && ltb page deploy_phys_addr_end
    then u64_at memory (page + 8 * i)
    else m page i

abbrev pub deployed : (ℕ → ℕ) → Process → Process
deployed memory p = record p {
  memory = memory;
  tables = tables_in memory p.tables;
  shared = u64_at memory;
}

-- The end of `setup`, from Deploy on.
pub load : Setting → Process → Option (ℤ × Process)
unfolding loader16_init export_init
load t p = elim (deploy t.friend_bin p.memory) [
  | none ↦ none
  | some (false, memory) ↦ some (negsuc 0, deployed memory p)
  | some (true, memory) ↦
      let (r, q) = loader16_init t (get_entry t.friend_bin) (deployed memory p) in
      some (
        if ltb_ℤ r (pos 0)
        then (negsuc 0, q)
        else (pos 0, record q { shared = export_init t.export_symbols q.shared }))
]

pub setup : Setting → Process → Option (ℤ × Process)
unfolding mmap_friend_mem load
setup t p =
    let v = check_version t.version in
    let p₁ = record p { files = p.files + left_open t.version v } in
    let b = check_bootparam t.cmdline in
    let p₂ = record p₁ { files = p₁.files + left_open t.cmdline b } in
    let (m, p₃) = mmap_friend_mem t p₂ in
    let loaded = load t p₃ in
    if ltb_ℤ v (pos 0)
    then some (negsuc 0, p₁)
    else if ltb_ℤ b (pos 0)
    then some (negsuc 0, p₂)
    else if ltb_ℤ m (pos 0)
    then some (negsuc 0, p₃)
    else loaded
