-- ===== src/SampleOld/Tables/Loops.antt =====
-- What the loops that clear memory and fill tables leave in the tables.
use toshokan.Base.{
  ℕ, zero, suc, ◌+◌, ◌*◌, ◌%◌, ◌^◌, ◌≡◌, ◌≤◌, ◌<◌, refl, ap, ◌∙◌, ◌&&◌, leb, ltb, ◌==◌,
  if◌then◌else◌, update, ℕ_discrete, arith,
}
use toshokan.Hakase.PageTables.{set_entry}
use toshokan.SampleOld.Machine.{Bytes, tables}
use toshokan.SampleOld.Common.{set_bytes}
use toshokan.SampleOld.Tables.{fill_entries}
use toshokan.SampleOld.Tables.Entries.{IsEntry, tables-write64}

set_bytes_lem :
    (n i dest ch : ℕ) (m : Bytes) (b : ℕ)
    → set_bytes n i dest ch m b ≡ (if leb (dest + i) b && ltb b (dest + i + n) then ch else m b)
unfolding set_bytes
set_bytes_lem zero i dest ch m b = ground arith
set_bytes_lem (suc n) i dest ch m b =
    set_bytes_lem n (i + 1) dest ch (update m (dest + i) ch) b ∙ ground arith

-- A table that lies in memory that has been cleared holds 0 alone.
pub tables-clear :
    (n dest : ℕ) (m : Bytes) (q j : ℕ)
    → dest ≤ q
    → q + 2 ^ 12 ≤ dest + n
    → j < 512
    → tables (set_bytes n 0 dest 0 m) q j ≡ 0
tables-clear n dest m q j h k l =
    let off = λ (o : ℕ) (p : o < 8). at (q + 8 * j + o) (omega arith) (omega arith) in
    let z : q + 8 * j ≡ q + 8 * j + 0 = omega arith in
    let z₀ = ap (set_bytes n 0 dest 0 m) z ∙ off 0 (omega arith) in
    rw
      (
        z₀,
        off 1 (omega arith),
        off 2 (omega arith),
        off 3 (omega arith),
        off 4 (omega arith),
        off 5 (omega arith),
        off 6 (omega arith),
        off 7 (omega arith),
      )
      refl
  where
    at : (b : ℕ) → dest ≤ b → b < dest + n → set_bytes n 0 dest 0 m b ≡ 0
    at b p q = set_bytes_lem n 0 dest 0 m b ∙ ground arith

pub tables-fill :
    (n i table start size : ℕ) (flags : ℕ → ℕ) (m : Bytes) (q j : ℕ)
    → table % 2 ^ 12 ≡ 0
    → i + n ≤ 512
    → IsEntry q j
    → ((k : ℕ) → k < 512 → flags (start + size * k) < 2 ^ 64)
    → tables (fill_entries n i table start size flags m) q j ≡ (
        if q == table && (leb i j && ltb j (i + n)) then flags (start + size * j) else tables m q j)
unfolding fill_entries
tables-fill zero i table start size flags m q j a l e h = ground arith
tables-fill (suc n) i table start size flags m q j a l e h =
    let w =
      tables-write64 m table i (flags (start + size * i)) q j
        (record { page_aligned = a; in_page = omega arith }) e (h i (omega arith)) in
    tables-fill n (i + 1) table start size flags _ q j a (omega arith) e h
    ∙ rw w (split (ℕ_discrete j i))
  where
    split :
        Dec (j ≡ i)
        → (if q == table && (leb (i + 1) j && ltb j (i + 1 + n))
            then flags (start + size * j)
            else set_entry (tables m) table i (flags (start + size * i)) q j)
          ≡ (if q == table && (leb i j && ltb j (i + suc n))
              then flags (start + size * j)
              else tables m q j)
    split (yes d) = rw d (ground arith)
    split (no d) = ground arith

-- What lies before what the loops write is kept.
pub clear_below : (n dest : ℕ) (m : Bytes) (b : ℕ) → b < dest → set_bytes n 0 dest 0 m b ≡ m b
clear_below n dest m b h = set_bytes_lem n 0 dest 0 m b ∙ ground arith

pub fill_below :
    (n i table start size : ℕ) (flags : ℕ → ℕ) (m : Bytes) (b : ℕ)
    → b < table
    → fill_entries n i table start size flags m b ≡ m b
unfolding fill_entries
fill_below zero i table start size flags m b h = refl
fill_below (suc n) i table start size flags m b h =
    fill_below n (i + 1) table start size flags _ b h ∙ ground arith
