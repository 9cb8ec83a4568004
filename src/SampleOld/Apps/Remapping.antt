-- ===== src/SampleOld/Apps/Remapping.antt =====
-- sample_old/paging/024: two binaries that are linked for the same address, and one entry of a table
-- that says which of them stands there.
pub mod Returns
use toshokan.Base.{
  ℕ, ◌+◌, ◌-◌, ◌*◌, ◌/◌, ◌%◌, ◌^◌, suc, ◌≡◌, ◌≤◌, ◌<◌, List, [], ◌∷◌, Option, none, some, refl, ap,
  sym, ◌∙◌, ◌⊎◌, inl, inr, ◌&&◌, ◌==◌, leb, ltb, true, false, if◌then◌else◌, update, arith,
}
use mathlib.Core.Option
use toshokan.Hakase.PageTables.Walk.{walk}
use toshokan.Hakase.PageTables.Leads.{IsPage, table_entry}
use toshokan.SampleOld.Machine.{
  System, Step, Bytes, Message, put_char, put_value, phys, locate, tables, write64, with_flags,
  keep,
}
use toshokan.SampleOld.Common.{copy_bytes, set_bytes, send_chars}
use toshokan.SampleOld.Tables.{hello, bye, pml4t, pdpt, pd1, pd2, pt1, link_tables}
use toshokan.SampleOld.Tables.Entries.{IsEntry, tables-write64}
use toshokan.SampleOld.Tables.Linked.{
  IsLinked, shared, shared-IsLinked, shared_below, write-IsLinked, walk-window, window,
  with_flags_lem,
}
use toshokan.SampleOld.Apps.{
  Link, Entry, app1_entry1, app1_entry2, app2_entry3, app2_entry4, Frame, Outcome, stuck, returned,
  running, touch, seen, body,
}
use toshokan.SampleOld.Apps.Runs.{
  after, told, digit, puts_part, call_c1_lem, call_c2_lem, check_c1_lem, check_c2_lem, copied_in,
  copied_out,
}
use toshokan.SampleOld.Apps.Programs.{remapped_main}
use toshokan.SampleOld.Apps.Window.{touch-window, seen-window, copy-IsLinked}

-- What the compiler and the linker give, where memory `m` holds the friend binary: the two binaries
-- stand below the tables, each fits in a page, and its two functions run from the page at 0xC0000000
-- wherever its bytes are seen there.
pub record IsBuilt (l : Link) (m : Bytes) : Type 0 where
  pub app1_below : l.app1_start + l.app1_size ≤ pml4t
  pub app2_below : l.app2_start + l.app2_size ≤ pml4t
  pub app1_fits : l.app1_size ≤ 2 ^ 12
  pub app2_fits : l.app2_size ≤ 2 ^ 12
  pub entry2_inside : l.entry2_address / 2 ^ 12 ≡ 0xC_0000
  pub entry4_inside : l.entry4_address / 2 ^ 12 ≡ 0xC_0000
  pub app1_code :
      (view : ℕ → Option ℕ)
      → ((k : ℕ) → k < l.app1_size → view (0xC000_0000 + k) ≡ some (m (phys (l.app1_start + k))))
      → (l.code view 0xC000_0000 ≡ some app1_entry1)
        × (l.code view l.entry2_address ≡ some app1_entry2)
  pub app2_code :
      (view : ℕ → Option ℕ)
      → ((k : ℕ) → k < l.app2_size → view (0xC000_0000 + k) ≡ some (m (phys (l.app2_start + k))))
      → (l.code view 0xC000_0000 ≡ some app2_entry3)
        × (l.code view l.entry4_address ≡ some app2_entry4)

module _ (l : Link) (m₀ : Bytes) (built : IsBuilt l m₀) where
  -- Memory after the copies: the tables, and a binary in each of two pages.
  pub record IsReady (m : Bytes) : Type 0 where
    pub linked : IsLinked m
    pub holds1 : (k : ℕ) → k < l.app1_size → m (0x8050_0000 + k) ≡ m₀ (phys (l.app1_start + k))
    pub holds2 : (k : ℕ) → k < l.app2_size → m (0x8060_0000 + k) ≡ m₀ (phys (l.app2_start + k))

  -- The system once the first entry of pt1 leads to `f`, and once the core has been to `va`.
  abbrev pub mapped : ℕ → System → System
  mapped f s = record s {
    mem = write64 s.mem (phys pt1) (with_flags f);
    tlb = update s.tlb 0xC_0000 none;
  }

  abbrev pub turned : ℕ → ℕ → System → System
  turned f va s = keep va (f + va % 2 ^ 12) (mapped f s)

  pub mapped-IsReady :
      (f : ℕ) (m : Bytes) → IsPage f → IsReady m → IsReady (write64 m (phys pt1) (with_flags f))
  mapped-IsReady f m p v = record {
    linked =
        write-IsLinked m 0 (with_flags f) (omega arith) (omega (arith, with_flags_lem f p, p))
          v.linked;
    holds1 = λ k h. let b = v.holds1 k h in let c = built.app1_fits in ground arith;
    holds2 = λ k h. let b = v.holds2 k h in let c = built.app2_fits in ground arith;
  }

  to_frame :
      (f : ℕ) (m : Bytes)
      → IsPage f
      → tables (write64 m (phys pt1) (with_flags f)) (phys pt1) 0 ≡ f + 7
  to_frame f m p =
      tables-write64 m (phys pt1) 0 (with_flags f) (phys pt1) 0
        (record { page_aligned = refl; in_page = omega arith })
        (record { page_aligned = refl; in_page = omega arith })
        (omega (arith, with_flags_lem f p, p))
      ∙ with_flags_lem f p

  -- A turn of a binary in the page at `f`: the access, and what the core sees.
  pub turn :
      (f va : ℕ) (s : System)
      → IsPage f
      → va / 2 ^ 12 ≡ 0xC_0000
      → s.cr3 ≡ some (phys pml4t)
      → IsReady s.mem
      → touch va (mapped f s) ≡ some (turned f va s)
  turn f va s p a r v =
      touch-window (mapped f s) f va (mapped-IsReady f s.mem p v).linked r (to_frame f s.mem p) p a
        refl

  pub turn1 :
      (va : ℕ) (s : System)
      → va / 2 ^ 12 ≡ 0xC_0000
      → IsReady s.mem
      → let view = seen (turned 0x8050_0000 va s) in
        (l.code view 0xC000_0000 ≡ some app1_entry1)
        × (l.code view l.entry2_address ≡ some app1_entry2)
  turn1 va s a v =
      let w = mapped-IsReady 0x8050_0000 s.mem (omega arith, omega arith) v in
      built.app1_code _ (λ k h.
        seen-window (mapped 0x8050_0000 s) 0x8050_0000 va k (omega arith, omega arith) a
          (omega (arith, built.app1_fits))
        ∙ ap some (w.holds1 k h))

  pub turn2 :
      (va : ℕ) (s : System)
      → va / 2 ^ 12 ≡ 0xC_0000
      → IsReady s.mem
      → let view = seen (turned 0x8060_0000 va s) in
        (l.code view 0xC000_0000 ≡ some app2_entry3)
        × (l.code view l.entry4_address ≡ some app2_entry4)
  turn2 va s a v =
      let w = mapped-IsReady 0x8060_0000 s.mem (omega arith, omega arith) v in
      built.app2_code _ (λ k h.
        seen-window (mapped 0x8060_0000 s) 0x8060_0000 va k (omega arith, omega arith) a
          (omega (arith, built.app2_fits))
        ∙ ap some (w.holds2 k h))

  -- Memory after the copies.
  abbrev pub copied : Bytes
  copied =
      let m₁ = copy_bytes l.app1_size 0 (phys 0x50_0000) (phys l.app1_start) (shared m₀) in
      copy_bytes l.app2_size 0 (phys 0x60_0000) (phys l.app2_start) m₁

  pub copied-IsReady : IsReady copied
  copied-IsReady =
      let m₁ = copy_bytes l.app1_size 0 (phys 0x50_0000) (phys l.app1_start) (shared m₀) in
      record {
        linked =
            copy-IsLinked l.app2_size (phys 0x60_0000) (phys l.app2_start) m₁ (omega arith)
              (omega (arith, built.app2_below))
              (copy-IsLinked l.app1_size (phys 0x50_0000) (phys l.app1_start) (shared m₀)
                (omega arith) (omega (arith, built.app1_below)) (shared-IsLinked m₀));
        holds1 = λ k h.
            copied_out l.app2_size (phys 0x60_0000) (phys l.app2_start) m₁ (0x8050_0000 + k)
              (omega (arith, built.app2_below)) (omega (arith, built.app1_fits))
            ∙ copied_in l.app1_size (phys 0x50_0000) (phys l.app1_start) (shared m₀) k
                (omega (arith, built.app1_below)) h
            ∙ shared_below m₀ (phys l.app1_start + k) (omega (arith, built.app1_below))
            ∙ ap m₀ (omega arith);
        holds2 = λ k h.
            copied_in l.app2_size (phys 0x60_0000) (phys l.app2_start) m₁ k
              (omega (arith, built.app2_below)) h
            ∙ copied_out l.app1_size (phys 0x50_0000) (phys l.app1_start) (shared m₀)
                (phys l.app2_start + k) (omega (arith, built.app1_below))
                (omega (arith, built.app2_below))
            ∙ shared_below m₀ (phys l.app2_start + k) (omega (arith, built.app2_below))
            ∙ ap m₀ (omega arith);
      }
