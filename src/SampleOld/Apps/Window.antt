-- ===== src/SampleOld/Apps/Window.antt =====
-- The page at 0xC0000000, and copies that leave the tables which lead to it.
use toshokan.Base.{
  ℕ, ◌+◌, ◌*◌, ◌/◌, ◌%◌, ◌^◌, ◌≡◌, ◌≤◌, ◌<◌, none, some, refl, ap, ◌∙◌, ◌⊎◌, inl, ltb, false, arith,
}
use toshokan.Hakase.PageTables.Walk.{walk}
use toshokan.Hakase.PageTables.Leads.{IsPage, table_entry}
use toshokan.SampleOld.Machine.{System, Bytes, phys, locate, tables, keep}
use toshokan.SampleOld.Common.{copy_bytes}
use toshokan.SampleOld.Tables.{pml4t, pdpt, pd1, pd2, pt1}
use toshokan.SampleOld.Tables.Linked.{IsLinked, walk-window}
use toshokan.SampleOld.Apps.{touch, seen}
use toshokan.SampleOld.Apps.Runs.{copied_out}

-- An access to the page at 0xC0000000, under tables of which the first entry of pt1 leads to `f`.
pub touch-window :
    (s : System) (f va : ℕ)
    → IsLinked s.mem
    → s.cr3 ≡ some (phys pml4t)
    → tables s.mem (phys pt1) 0 ≡ f + 7
    → IsPage f
    → va / 2 ^ 12 ≡ 0xC_0000
    → s.tlb 0xC_0000 ≡ none
    → touch va s ≡ some (keep va (f + va % 2 ^ 12) s)
unfolding locate
touch-window s f va v r e p a t =
    let big : ltb va (2 ^ 30) ≡ false = ground arith in rw (touch, big, located) refl
  where
    located : locate s va ≡ some (f + va % 2 ^ 12)
    located =
        let (t₁, t₂, t₃) = table_entry f p in
        let o = va % 2 ^ 12 in
        let z : va ≡ 0xC000_0000 + 0 * 2 ^ 12 + o = omega arith in
        let w =
          ap (λ va. walk (tables s.mem) (phys pml4t) va) z
          ∙ walk-window s.mem v 0 o (omega arith) (omega arith)
          ∙ rw (e, t₁, t₃) refl in
        rw (locate, a, t, r, w) refl

-- What the core then sees there.
pub seen-window :
    (s : System) (f va o : ℕ)
    → IsPage f
    → va / 2 ^ 12 ≡ 0xC_0000
    → o < 2 ^ 12
    → seen (keep va (f + va % 2 ^ 12) s) (0xC000_0000 + o) ≡ some (s.mem (f + o))
unfolding locate
seen-window s f va o p a h =
    let big : ltb (0xC000_0000 + o) (2 ^ 30) ≡ false = ground arith in
    let b : (0xC000_0000 + o) / 2 ^ 12 ≡ 0xC_0000 = omega arith in
    let c : (f + va % 2 ^ 12) / 2 ^ 12 * 2 ^ 12 ≡ f = omega arith in
    let d : (0xC000_0000 + o) % 2 ^ 12 ≡ o = omega arith in rw (big, locate, b, a, c, d) refl

-- Copies above the tables leave them.
pub copy-IsLinked :
    (n dest src : ℕ) (m : Bytes)
    → phys pt1 + 2 ^ 12 ≤ dest
    → dest + n ≤ src ⊎ src + n ≤ dest
    → IsLinked m
    → IsLinked (copy_bytes n 0 dest src m)
copy-IsLinked n dest src m h k v = record {
  to_pdpt = at (phys pml4t) 0 (omega arith) (omega arith) ∙ v.to_pdpt;
  to_pd1 = at (phys pdpt) 0 (omega arith) (omega arith) ∙ v.to_pd1;
  to_pd2 = at (phys pdpt) 3 (omega arith) (omega arith) ∙ v.to_pd2;
  to_pt1 = at (phys pd2) 0 (omega arith) (omega arith) ∙ v.to_pt1;
  first_gb = λ j p. at (phys pd1) j p (omega arith) ∙ v.first_gb j p;
}
  where
    low : (b : ℕ) → b < dest → copy_bytes n 0 dest src m b ≡ m b
    low b l = copied_out n dest src m b k (inl l)

    at :
        (q j : ℕ)
        → j < 512
        → q + 2 ^ 12 ≤ dest
        → tables (copy_bytes n 0 dest src m) q j ≡ tables m q j
    at q j p l =
        rw
          (
            low (q + 8 * j) (omega arith),
            low (q + 8 * j + 1) (omega arith),
            low (q + 8 * j + 2) (omega arith),
            low (q + 8 * j + 3) (omega arith),
            low (q + 8 * j + 4) (omega arith),
            low (q + 8 * j + 5) (omega arith),
            low (q + 8 * j + 6) (omega arith),
            low (q + 8 * j + 7) (omega arith),
          )
          refl
