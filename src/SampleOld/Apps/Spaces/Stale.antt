-- ===== src/SampleOld/Apps/Spaces/Stale.antt =====
-- What is left of a page that the friend has lent to a binary and taken back.
use toshokan.Base.{ℕ, ◌+◌, ◌*◌, ◌/◌, ◌%◌, ◌^◌, ◌≡◌, ◌<◌, Option, some, refl, ltb, false, arith}
use mathlib.Core.Option
use toshokan.SampleOld.Machine.{System, and_then, locate, keep, phys, tables}
use toshokan.SampleOld.Tables.Entries.{tables-write64}
use toshokan.Hakase.PageTables.{set_entry}
use toshokan.SampleOld.Apps.{touch}
use toshokan.SampleOld.Apps.Spaces.{unmap_page}

-- The entry of the page, and where a binary gets to at byte `o` of it.
abbrev pub entry_and_page : ℕ → ℕ → System → ℕ × Option ℕ
entry_and_page page_structures o s =
    (tables s.mem (phys (page_structures + 0x3000)) 1, locate s (0xC000_1000 + o))

-- The tables are aligned pages. After an access to the page at 0xC0001000 that has not
-- faulted, `unmap_page` clears the page's entry, and the page can still be reached: what is
-- invalidated is another page.
pub unmap_page-leaves :
    (s : System) (page_structures pa o : ℕ)
    → page_structures % 2 ^ 12 ≡ 0
    → o < 2 ^ 12
    → locate s (0xC000_1000 + o) ≡ some pa
    → Option.map
        (entry_and_page page_structures o)
        (and_then (touch (0xC000_1000 + o) s) (unmap_page page_structures))
      ≡ some (0, some (pa / 2 ^ 12 * 2 ^ 12 + o))
unfolding unmap_page locate
unmap_page-leaves s p pa o a h e = rw (touch, big, e) after_access
  where
    big : ltb (0xC000_1000 + o) (2 ^ 30) ≡ false
    big = ground arith

    after_access :
        Option.map (entry_and_page p o) (unmap_page p (keep (0xC000_1000 + o) pa s))
        ≡ some (0, some (pa / 2 ^ 12 * 2 ^ 12 + o))
    after_access =
        let q = phys (p + 0x3000) in
        let z : phys (p + 0x3000 + 8 * 1) ≡ q + 8 * 1 = omega arith in
        let w =
          tables-write64 s.mem q 1 0 q 1
            (record { page_aligned = omega arith; in_page = omega arith })
            (record { page_aligned = omega arith; in_page = omega arith }) (omega arith) in
        let c : set_entry (tables s.mem) q 1 0 q 1 ≡ 0 = ground arith in
        let n : (0xC000_1000 + o) / 2 ^ 12 ≡ 0xC_0001 = omega arith in
        let d : (0xC000_1000 + o) % 2 ^ 12 ≡ o = omega arith in rw (z, w, c, locate, n, d) refl
