-- ===== src/Hakase/Setup/Leaves.antt =====
-- What a success of `setup` leaves in the process.
use toshokan.Base.{
  ℕ, ◌^◌, ◌≡◌, ◌≢◌, ◌≤◌, ◌<◌, ◌⊎◌, [], ◌∷◌, ◌++◌, ap, ◌∙◌, update, refl, true, List, some, arith,
}
use toshokan.Layout.{deploy_phys_addr_start, deploy_phys_addr_end}
use toshokan.Hakase.Elf.Headers.{Image, u64_at, e_entry, get_entry}
use toshokan.Hakase.Elf.Deploy.{deploy}
use toshokan.Hakase.Elf.Deploy.Listed.{HasTables}
use toshokan.Hakase.Elf.Deploy.Contents.{HoldsBinary, deploy_loads}
use toshokan.Hakase.PageTables.{init_page_tables, k_2mb}
use toshokan.Hakase.PageTables.Identity.{IsPlaced, friend_identity, trampoline_identity}
use toshokan.Hakase.PageTables.Walk.{walk}
use toshokan.Hakase.Setup.{Process, Setting, clear, with_entry, tables_in, export_init}

-- The first 4 MB of the memory of the friend cores are 0, and the rest is as it was.
pub record Cleared (m m' : ℕ → ℕ) : Type 0 where
  pub zeros : (a : ℕ) → 0x1_0000_0000 ≤ a → a < 0x1_0040_0000 → m' a ≡ 0
  pub kept : (a : ℕ) → (a < 0x1_0000_0000) ⊎ (0x1_0040_0000 ≤ a) → m' a ≡ m a

clear-Cleared : (m : ℕ → ℕ) → Cleared m (clear m)
clear-Cleared m = record { zeros = λ a lo hi. ground arith; kept = λ a o. ground arith }

-- The trampoline's code, with the entry of the binary as a word of 64 bits at byte 8.
pub record Patched (code before after : ℕ → ℕ) (size entry : ℕ) : Type 0 where
  pub at_entry : u64_at after 8 ≡ entry
  pub code_is : (a : ℕ) → a < size → (a < 8) ⊎ (16 ≤ a) → after a ≡ code a
  pub rest_is : (a : ℕ) → size ≤ a → (a < 8) ⊎ (16 ≤ a) → after a ≡ before a

with_entry-Patched :
    (code before : ℕ → ℕ) (size entry : ℕ)
    → entry < 2 ^ 64
    → Patched code before (with_entry code size before entry) size entry
with_entry-Patched code before size entry h = record {
  at_entry = omega arith;
  code_is = λ a p o. ground arith;
  rest_is = λ a p o. ground arith;
}

-- No symbol of the list has the pointer.
abbrev pub Absent : ℕ → List (ℕ × ℕ) → Type 0
Absent ptr [] = Unit {0}
Absent ptr ((ptr', var) ∷ cs) = (ptr ≢ ptr') × Absent ptr cs

export-Absent :
    (ptr : ℕ) (cs : List (ℕ × ℕ)) (shared : ℕ → ℕ)
    → Absent ptr cs
    → export_init cs shared ptr ≡ shared ptr
unfolding export_init
export-Absent ptr [] shared n = refl
export-Absent ptr ((ptr', var) ∷ cs) shared (ne, n) =
    export-Absent ptr cs (update shared ptr' var) n ∙ ground arith

export-last :
    (ptr var : ℕ) (pre post : List (ℕ × ℕ)) (shared : ℕ → ℕ)
    → Absent ptr post
    → export_init (pre ++ ((ptr, var) ∷ post)) shared ptr ≡ var
unfolding export_init
export-last ptr var [] post shared n =
    export-Absent ptr post (update shared ptr var) n ∙ ground arith
export-last ptr var ((ptr', var') ∷ pre) post shared n =
    export-last ptr var pre post (update shared ptr' var') n

-- What a success leaves of process `p`.
pub record IsSetUp (t : Setting) (p q : Process) : Type 0 where
  pub files_are : q.files ≡ p.files
  pub loaded : (m : ℕ → ℕ) × Cleared p.memory m × HoldsBinary t.friend_bin m q.memory
  pub patched :
      Patched t.friend16_bin p.trampoline q.trampoline t.friend16_bin_size (e_entry t.friend_bin)
  pub friend_mapped :
      (va : ℕ)
      → deploy_phys_addr_start ≤ va
      → va < deploy_phys_addr_end
      → walk q.tables t.places.pml4t va ≡ some va
  pub trampoline_mapped : (va : ℕ) → va < k_2mb → walk q.tables t.places.pml4t va ≡ some va
  pub exported :
      (ptr var : ℕ) (pre post : List (ℕ × ℕ))
      → t.export_symbols ≡ pre ++ ((ptr, var) ∷ post)
      → Absent ptr post
      → q.shared ptr ≡ var
  pub not_exported : (ptr : ℕ) → Absent ptr t.export_symbols → q.shared ptr ≡ u64_at q.memory ptr

entry_small : (img : Image) → HasTables img → get_entry img < 2 ^ 64
unfolding get_entry
entry_small img v = omega (
  arith,
  v.are_bytes 24,
  v.are_bytes 25,
  v.are_bytes 26,
  v.are_bytes 27,
  v.are_bytes 28,
  v.are_bytes 29,
  v.are_bytes 30,
  v.are_bytes 31,
)

pub leaves-IsSetUp :
    (t : Setting) (p : Process) (memory : ℕ → ℕ)
    → HasTables t.friend_bin
    → IsPlaced t.places
    → deploy t.friend_bin (clear p.memory) ≡ some (true, memory)
    → IsSetUp t p (record {
      files = p.files;
      memory = memory;
      trampoline =
          with_entry t.friend16_bin t.friend16_bin_size p.trampoline (get_entry t.friend_bin);
      tables = init_page_tables t.places (tables_in memory p.tables);
      shared = export_init t.export_symbols (u64_at memory);
    })
unfolding get_entry
leaves-IsSetUp t p memory v placed d = record {
  files_are = refl;
  loaded = (
    clear p.memory,
    clear-Cleared p.memory,
    deploy_loads t.friend_bin v (clear p.memory) memory d,
  );
  patched =
      with_entry-Patched t.friend16_bin p.trampoline t.friend16_bin_size (e_entry t.friend_bin)
        (entry_small t.friend_bin v);
  friend_mapped = friend_identity t.places (tables_in memory p.tables) placed;
  trampoline_mapped = trampoline_identity t.places (tables_in memory p.tables) placed;
  exported = λ ptr var pre post e n.
      ap (λ cs. export_init cs (u64_at memory) ptr) e
      ∙ export-last ptr var pre post (u64_at memory) n;
  not_exported = λ ptr n. export-Absent ptr t.export_symbols (u64_at memory) n;
}
