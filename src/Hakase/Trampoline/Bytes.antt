-- ===== src/Hakase/Trampoline/Bytes.antt =====
-- The data of hakase/friend_boot16.S, and what a processor reads of bytes that are in place.
use toshokan.Base.{
  ℕ, zero, suc, ◌+◌, ◌-◌, ◌*◌, ◌^◌, ◌≡◌, ◌≤◌, ◌<◌, refl, ap, sym, ◌∙◌, List, [], ◌∷◌, some, arith,
}
use toshokan.Layout.{trampoline_addr}
use toshokan.Hakase.PageTables.{k_2mb}
use toshokan.Hakase.Trampoline.{Processor, Memory, physical, load_bytes}
use toshokan.Hakase.Trampoline.Code.{Labels}

-- The number that some bytes hold, the lowest first.
unfoldable pub read : (ℕ → ℕ) → ℕ → ℕ → ℕ
read bytes a zero = 0
read bytes a (suc n) = bytes a + 2 ^ 8 * read bytes (a + 1) n

-- `.word`, `.long` and `.quad`: at an offset, that many bytes of a value.
pub record Directive : Type 0 where
  pub offset : ℕ
  pub size : ℕ
  pub value : ℕ

abbrev pub word : ℕ → ℕ → Directive
word o v = record { offset = o; size = 2; value = v }

abbrev pub long : ℕ → ℕ → Directive
long o v = record { offset = o; size = 4; value = v }

abbrev pub quad : ℕ → ℕ → Directive
quad o v = record { offset = o; size = 8; value = v }

-- The null descriptors are not read.
abbrev pub data32 : Labels → List Directive
data32 l =
    word l.gdtr32 (8 * 4 - 1)
    ∷ long (l.gdtr32 + 2) (l.gdt_desc32 + trampoline_addr)
    ∷ quad (l.gdt_desc32 + 8) 0x00CF_9A00_0000_FFFF
    ∷ quad (l.gdt_desc32 + 16) 0x00CF_9200_0000_FFFF
    ∷ []

abbrev pub data64 : Labels → List Directive
data64 l =
    quad (l.gdt_desc64 + 16) 0x0020_9A00_0000_0000
    ∷ quad (l.gdt_desc64 + 24) 0x0000_9200_0000_0000
    ∷ quad (l.gdt_desc64 + 32) 0x0000_F200_0000_0000
    ∷ quad (l.gdt_desc64 + 40) 0x0020_FA00_0000_0000
    ∷ word l.gdtr64 (8 * 6 - 1)
    ∷ quad (l.gdtr64 + 2) (trampoline_addr + l.gdt_desc64)
    ∷ []

-- The bytes from `base` on hold them.
abbrev pub Holds : (ℕ → ℕ) → ℕ → List Directive → Type 0
Holds bytes base [] = base ≡ base
Holds bytes base (d ∷ ds) = (read bytes (base + d.offset) d.size ≡ d.value) × Holds bytes base ds

-- Memory where an access to any of the first 2 MB goes to the address itself.
abbrev pub IsFlat : Memory → Processor → Type 0
IsFlat m p = (a : ℕ) → a < k_2mb → physical m p a ≡ some a

pub load_bytes-read :
    (m : Memory) (p : Processor)
    → IsFlat m p
    → (a n : ℕ) → a + n ≤ k_2mb
    → load_bytes m p a n ≡ some (read m.bytes a n)
unfolding load_bytes read
load_bytes-read m p h a zero k = refl
load_bytes-read m p h a (suc n) k =
    rw (load_bytes, h a (omega arith), load_bytes-read m p h (a + 1) n (omega arith)) refl

-- Of eight bytes, the lower four.
pub read_lower :
    (bytes : ℕ → ℕ)
    → ((a : ℕ) → bytes a < 2 ^ 8)
    → (a v : ℕ) → read bytes a 8 ≡ v
    → v < 2 ^ 32
    → read bytes a 4 ≡ v
unfolding read
read_lower bytes small a v e h =
    omega (arith, e, small a, small (a + 1), small (a + 1 + 1), small (a + 1 + 1 + 1))

-- Bytes that are read at one address, named in another way.
pub moved : (bytes : ℕ → ℕ) (n : ℕ) {a b v : ℕ} → read bytes a n ≡ v → a ≡ b → read bytes b n ≡ v
moved bytes n e h = ap (λ t. read bytes t n) (sym h) ∙ e
