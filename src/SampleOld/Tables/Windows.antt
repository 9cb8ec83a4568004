-- ===== src/SampleOld/Tables/Windows.antt =====
-- What the addresses from 0xC0000000 on are, after each of the samples.
use toshokan.Base.{
  ℕ, ◌+◌, ◌*◌, ◌^◌, ◌≡◌, ◌<◌, ◌∷◌, Option, none, some, refl, ap, ◌∙◌, suc, true, ◌&&◌, ◌==◌, leb,
  ltb, if◌then◌else◌, arith,
}
use mathlib.Core.Option
use toshokan.Hakase.PageTables.Leads.{IsPage, table_entry}
use toshokan.SampleOld.Machine.{
  System, Step, Bytes, phys, write64, with_flags, put_char, put_value, locate,
}
use toshokan.SampleOld.Common.{send_chars}
use toshokan.SampleOld.Tables.{pml4t, pt1, hello, bye, fill_entries, link_tables}
use toshokan.SampleOld.Tables.Entries.{tables-write64}
use toshokan.SampleOld.Tables.Loops.{tables-fill}
use toshokan.SampleOld.Tables.Linked.{
  IsLinked, fill-IsLinked, pages_small, shared, shared-IsLinked, shared-pt1, walk-window,
  walk-first_gb, write-IsLinked, with_flags_lem, window,
}
use toshokan.SampleOld.Tables.Programs.{
  identity_main, halted_main, unmapped_main, shifted_main, adjacent_main, scattered_main,
}

-- The state that the samples end in, with such memory.
abbrev ended : Bytes → ℕ → System → System
ended m n s = record s {
  mem = m;
  cr3 = some (phys pml4t);
  tlb = λ page. none;
  sent = put_value 0 ∷ put_char 10 ∷ send_chars bye (put_char 10 ∷ send_chars hello s.sent);
  wakes = n;
}

-- Where the first GB and the window lie.
abbrev pub lies : ℕ → ℕ → ℕ → System → Option ℕ × Option ℕ
lies va i o s = (locate s va, locate s (0xC000_0000 + i * 2 ^ 12 + o))

lies-ended :
    (m : Bytes) (s : System) (va i o n : ℕ)
    → va < 2 ^ 30
    → i < 512
    → o < 2 ^ 12
    → IsLinked m
    → lies va i o (ended m n s) ≡ (some (phys va), window m i o)
unfolding locate
lies-ended m s va i o n h k l v = rw (walk-first_gb m v va h, walk-window m v i o k l) refl

-- One entry of pt1 written.
window-write :
    (m : Bytes) (i f j o : ℕ)
    → i < 512
    → j < 512
    → IsPage f
    → window (write64 m (phys pt1 + 8 * i) (with_flags f)) j o
      ≡ (if j == i then some (f + o) else window m j o)
window-write m i f j o h k p =
    let (t₁, t₂, t₃) = table_entry f p in
    let e = with_flags_lem f p in
    let w =
      tables-write64 m (phys pt1) i (f + 7) (phys pt1) j
        (record { page_aligned = refl; in_page = h }) (record { page_aligned = refl; in_page = k })
        (omega (arith, p)) in
    rw (e, w) (ground arith)

window-fill :
    (m : Bytes) (j o : ℕ)
    → j < 512
    → window (fill_entries 512 0 (phys pt1) 0x8000_0000 0x1000 with_flags m) j o
      ≡ some (0x8000_0000 + j * 2 ^ 12 + o)
window-fill m j o h =
    let f = 0x8000_0000 + 0x1000 * j in
    let p : IsPage f = (omega arith, omega arith) in
    let (t₁, t₂, t₃) = table_entry f p in
    let w =
      tables-fill 512 0 (phys pt1) 0x8000_0000 0x1000 with_flags m (phys pt1) j refl (omega arith)
        (record { page_aligned = refl; in_page = h }) pages_small in
    let e : leb 0 j && ltb j 512 ≡ true = ground arith in
    rw (w, e, with_flags_lem f p, t₁, t₃) (ap some (omega arith))

window-shared : (m : Bytes) (j o : ℕ) → j < 512 → window (shared m) j o ≡ none
window-shared m j o h = rw (shared-pt1 m j h) refl

-- After the samples end, the first GB lies from 0x80000000 on, and the pages from 0xC0000000 on lie
-- where the sample says: those of 001 and 002 at 0x80000000 and after it; none of 003; the first of
-- 011 at 0x80001000; the first two of 013 at 0x80000000 and 0x80001000, of 014 at 0x80000000 and
-- 0x80002000; and nothing else of the 2 MB is mapped. 002 to 014 end where an interrupt ends the hlt.
pub samples-lies :
    (s : System) (va i o n : ℕ)
    → va < 2 ^ 30
    → i < 512
    → o < 2 ^ 12
    → s.wakes ≡ suc n
    → let runs = λ (main : Step) (at : Option ℕ).
      Option.map (lies va i o) (main s) ≡ some (some (phys va), at) in
      runs identity_main (some (0x8000_0000 + i * 2 ^ 12 + o))
      × runs halted_main (some (0x8000_0000 + i * 2 ^ 12 + o))
      × runs unmapped_main none
      × runs shifted_main (if i == 0 then some (0x8000_1000 + o) else none)
      × runs adjacent_main (
          if i == 1
          then some (0x8000_1000 + o)
          else if i == 0
          then some (0x8000_0000 + o)
          else none)
      × runs scattered_main (
          if i == 1
          then some (0x8000_2000 + o)
          else if i == 0
          then some (0x8000_0000 + o)
          else none)
unfolding identity_main halted_main unmapped_main shifted_main adjacent_main scattered_main
    link_tables
samples-lies s va i o n h k l w = (
  ap some (all shared-fill (window-fill (shared s.mem) i o k) s.wakes),
  rw w (ap some (all shared-fill (window-fill (shared s.mem) i o k) n)),
  rw w (ap some (all base (window-shared s.mem i o k) n)),
  rw w (
      ap some (
        all (one 0x8000_1000 (omega arith, omega arith))
          (one-window 0x8000_1000 (omega arith, omega arith)) n)),
  rw w (
      ap some (
        all (two 0x8000_1000 (omega arith, omega arith))
          (two-window 0x8000_1000 (omega arith, omega arith)) n)),
  rw w (
      ap some (
        all (two 0x8000_2000 (omega arith, omega arith))
          (two-window 0x8000_2000 (omega arith, omega arith)) n)),
)
  where
    base : IsLinked (shared s.mem)
    base = shared-IsLinked s.mem

    shared-fill :
        IsLinked (fill_entries 512 0 (phys pt1) 0x8000_0000 0x1000 with_flags (shared s.mem))
    shared-fill = fill-IsLinked (shared s.mem) base

    all :
        {m : Bytes} {at : Option ℕ}
        → IsLinked m
        → window m i o ≡ at
        → (n : ℕ) → lies va i o (ended m n s) ≡ (some (phys va), at)
    all {m} v e n = lies-ended m s va i o n h k l v ∙ ap (λ at. (some (phys va), at)) e

    one : (f : ℕ) → IsPage f → IsLinked (write64 (shared s.mem) (phys pt1) (with_flags f))
    one f p =
        write-IsLinked (shared s.mem) 0 (with_flags f) (omega arith)
          (omega (arith, with_flags_lem f p, p)) base

    one-window :
        (f : ℕ)
        → IsPage f
        → window (write64 (shared s.mem) (phys pt1) (with_flags f)) i o
          ≡ (if i == 0 then some (f + o) else none)
    one-window f p =
        window-write (shared s.mem) 0 f i o (omega arith) k p
        ∙ ap (λ at. if i == 0 then some (f + o) else at) (window-shared s.mem i o k)

    start : IsPage 0x8000_0000
    start = (omega arith, omega arith)

    two :
        (f : ℕ)
        → IsPage f
        → IsLinked (
            write64
              (write64 (shared s.mem) (phys pt1) (with_flags 0x8000_0000))
              (phys pt1 + 8 * 1)
              (with_flags f))
    two f p =
        write-IsLinked (write64 (shared s.mem) (phys pt1) (with_flags 0x8000_0000)) 1 (with_flags f)
          (omega arith) (omega (arith, with_flags_lem f p, p)) (one 0x8000_0000 start)

    two-window :
        (f : ℕ)
        → IsPage f
        → window
            (write64
              (write64 (shared s.mem) (phys pt1) (with_flags 0x8000_0000))
              (phys pt1 + 8 * 1)
              (with_flags f))
            i
            o
          ≡ (if i == 1 then some (f + o) else if i == 0 then some (0x8000_0000 + o) else none)
    two-window f p =
        window-write (write64 (shared s.mem) (phys pt1) (with_flags 0x8000_0000)) 1 f i o
          (omega arith) k p
        ∙ ap (λ at. if i == 1 then some (f + o) else at) (one-window 0x8000_0000 start)
