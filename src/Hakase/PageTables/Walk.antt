-- ===== src/Hakase/PageTables/Walk.antt =====
-- What an x86-64 processor in long mode does with such tables (Intel SDM, volume 3, 4.5): the walk
-- from the page of `%cr3` to the physical address. Reserved bits and permissions are left out.
use toshokan.Base.{ℕ, ◌+◌, ◌*◌, ◌/◌, ◌%◌, ◌^◌, Bool, Option, none, some, ◌==◌, if◌then◌else◌}
use toshokan.Hakase.PageTables.{PhysMem}

abbrev pub present : ℕ → Bool
present e = e % 2 == 1

-- Bit 7: the entry maps a page, and not a table.
abbrev pub huge : ℕ → Bool
huge e = e / 128 % 2 == 1

-- Bits 12 to 51.
abbrev pub table_of : ℕ → ℕ
table_of e = e / 2 ^ 12 % 2 ^ 40 * 2 ^ 12

walk_pt : PhysMem → ℕ → ℕ → Option ℕ
walk_pt m pt va =
    let e = m pt (va / 2 ^ 12 % 512) in if present e then some (table_of e + va % 2 ^ 12) else none

walk_pd : PhysMem → ℕ → ℕ → Option ℕ
unfolding walk_pt
walk_pd m pd va =
    let e = m pd (va / 2 ^ 21 % 512) in
    if present e
    then (if huge e
        then some (e / 2 ^ 21 % 2 ^ 31 * 2 ^ 21 + va % 2 ^ 21)
        else walk_pt m (table_of e) va)
    else none

walk_pdpt : PhysMem → ℕ → ℕ → Option ℕ
unfolding walk_pd
walk_pdpt m pdpt va =
    let e = m pdpt (va / 2 ^ 30 % 512) in
    if present e
    then (if huge e
        then some (e / 2 ^ 30 % 2 ^ 22 * 2 ^ 30 + va % 2 ^ 30)
        else walk_pd m (table_of e) va)
    else none

unfoldable pub walk : PhysMem → ℕ → ℕ → Option ℕ
unfolding walk_pdpt
walk m pml4t va =
    let e = m pml4t (va / 2 ^ 39 % 512) in if present e then walk_pdpt m (table_of e) va else none
