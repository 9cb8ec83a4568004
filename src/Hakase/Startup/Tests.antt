-- ===== src/Hakase/Startup/Tests.antt =====
-- The checks on texts, and `boot` where five cores can be opened.
use toshokan.Base.{
  ℕ, ◌≡◌, ◌↔◌, refl, Bool, List, [], ◌∷◌, ◌++◌, length, ◌+◌, ◌≤◌, some, ltb, lt→ltb, arith,
}
use toshokan.Base.Int.{pos}
use toshokan.Hakase.Startup.{kmod_version_string, check_file, strstr, starts_with, c_string, boot}
use toshokan.Hakase.Startup.Checks.{NoZero, check_file_iff}
use toshokan.Hakase.Startup.Boot.{boot_lem}

-- `v0.050`, a later version, is accepted for `v0.05`.
abbrev later : List ℕ
later = 118 ∷ 48 ∷ 46 ∷ 48 ∷ 53 ∷ 48 ∷ 0 ∷ []

check_file_iff_example : (check_file kmod_version_string (some later) ≡ pos 0) ↔ (
    (pre : List ℕ) × (rest : List ℕ) × (later ≡ pre ++ (kmod_version_string ++ rest))
    × (length pre + length kmod_version_string ≤ 255)
    × NoZero (pre ++ kmod_version_string))
check_file_iff_example = check_file_iff kmod_version_string later

accepted : check_file kmod_version_string (some later) ≡ pos 0
unfolding check_file strstr starts_with c_string
accepted = refl

abbrev opens : ℕ → Bool
opens i = ltb i 6

boot_lem_example : boot opens (pos 3) 6 ≡ some 3
boot_lem_example =
    boot_lem opens (pos 3) 6 6 (omega arith) refl (λ j p q. lt→ltb j 6 q) (omega arith)
