-- ===== src/Hakase/Startup.antt =====
-- hakase/hakase.cc: the two checks before anything is set up, and the loop that starts the cores.
-- Bytes are numbers; a text ends at its first 0.
pub mod Checks
pub mod Boot
mod Tests
use toshokan.Base.{
  ℕ, zero, suc, ◌+◌, ◌-◌, Bool, true, false, ◌&&◌, ◌||◌, List, [], ◌∷◌, ◌++◌, take, Option, none,
  some, ◌==◌, if◌then◌else◌,
}
use toshokan.Base.Int.{ℤ, pos, negsuc}

-- `buf[fread(buf, 1, 255, fp)] = '\0'`, as a text.
unfoldable pub c_string : List ℕ → List ℕ
c_string [] = []
c_string (b ∷ bs) = if b == 0 then [] else b ∷ c_string bs

abbrev pub read_buf : List ℕ → List ℕ
unfolding c_string
read_buf file = c_string (take 255 file)

-- `strstr(buf, needle)`, as far as whether it finds anything.
unfoldable pub starts_with : List ℕ → List ℕ → Bool
starts_with [] bs = true
starts_with (c ∷ cs) [] = false
starts_with (c ∷ cs) (b ∷ bs) = c == b && starts_with cs bs

unfoldable pub strstr : List ℕ → List ℕ → Bool
unfolding starts_with
strstr [] needle = starts_with needle []
strstr (b ∷ bs) needle = starts_with needle (b ∷ bs) || strstr bs needle

-- check_version and check_bootparam, which differ in the file and in what is looked for: 0, or -1
-- where the file cannot be opened or the text is not in it.
unfoldable pub check_file : List ℕ → Option (List ℕ) → ℤ
unfolding strstr
check_file needle none = negsuc 0
check_file needle (some file) = if strstr (read_buf file) needle then pos 0 else negsuc 0

-- `v0.05`, kmod_version_string.
abbrev pub kmod_version_string : List ℕ
kmod_version_string = 118 ∷ 48 ∷ 46 ∷ 48 ∷ 53 ∷ []

abbrev pub check_version : Option (List ℕ) → ℤ
unfolding check_file
check_version = check_file kmod_version_string

-- `memmap=8K$0x70000 memmap=1G$4G`.
abbrev pub memmap_option : List ℕ
memmap_option =
    109 ∷ 101 ∷ 109 ∷ 109 ∷ 97 ∷ 112 ∷ 61 ∷ 56 ∷ 75 ∷ 36 ∷ 48 ∷ 120 ∷ 55 ∷ 48 ∷ 48 ∷ 48 ∷ 48 ∷ 32
    ∷ 109 ∷ 101 ∷ 109 ∷ 109 ∷ 97 ∷ 112 ∷ 61 ∷ 49 ∷ 71 ∷ 36 ∷ 52 ∷ 71 ∷ []

abbrev pub check_bootparam : Option (List ℕ) → ℤ
unfolding check_file
check_bootparam = check_file memmap_option

-- `i == max`, for a signed `max`.
abbrev pub is_max : ℤ → ℕ → Bool
is_max (pos m) i = m == i
is_max (negsuc m) i = false

-- The loop of `boot` from `i` on, with fuel; `opens i` is whether /dev/friend_cpu<i> can be opened.
pub boot_from : (ℕ → Bool) → ℤ → ℕ → ℕ → Option ℕ
boot_from opens max zero i = none
boot_from opens max (suc f) i =
    let rest = boot_from opens max f (i + 1) in
    if opens i then (if is_max max i then some i else rest) else some (i - 1)

pub boot : (ℕ → Bool) → ℤ → ℕ → Option ℕ
unfolding boot_from
boot opens max fuel = boot_from opens max fuel 1
