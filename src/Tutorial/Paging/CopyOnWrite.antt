-- ===== src/Tutorial/Paging/CopyOnWrite.antt =====
-- tutorial/paging/copy_on_write/friend.cc. Here is my_memcpy on memory that is read and written by
-- words of 64 bits, which are numbered; Program has the whole program.
pub mod Words
pub mod Program
pub mod Coherent
pub mod Phases
pub mod Shares
pub mod Outcome
pub mod Stale
pub mod Handler
mod Tests
use toshokan.Base.{ℕ, zero, suc, ◌+◌, ◌/◌, ltb, if◌then◌else◌, update}

abbrev pub sizeof_uint64 : ℕ
sizeof_uint64 = 8

-- The loop from `i` on, with fuel. `i` goes on by the size of a word.
unfoldable pub copy_words : ℕ → ℕ → ℕ → ℕ → ℕ → (ℕ → ℕ) → ℕ → ℕ
copy_words zero i dst src count m = m
copy_words (suc f) i dst src count m =
    let rest = copy_words f (i + sizeof_uint64) dst src count (update m (dst + i) (m (src + i))) in
    if ltb i count then rest else m

-- `dst` and `src` are the numbers of the first words; as many rounds as there are words are enough.
unfoldable pub my_memcpy : ℕ → ℕ → ℕ → (ℕ → ℕ) → ℕ → ℕ
my_memcpy dst src n m = copy_words (n / sizeof_uint64) 0 dst src (n / sizeof_uint64) m
