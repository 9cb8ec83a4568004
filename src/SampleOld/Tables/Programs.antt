-- ===== src/SampleOld/Tables/Programs.antt =====
-- The function `main` of each of the samples.
use toshokan.Base.{ℕ, zero, suc, ◌+◌, ◌*◌, Bool, Option, none, some, ◌==◌, if◌then◌else◌}
use toshokan.SampleOld.Machine.{
  System, Step, ◌>>◌, Bytes, store, write64, read64, phys, load_cr3, hlt, with_flags,
  with_huge_flags, locate, keep,
}
use toshokan.SampleOld.Common.{memset, puts, return_value}
use toshokan.SampleOld.Tables.{
  hello, bye, booted, pml4t, pd2, pt1, pt2, fill, fill_pd1, link_tables, clear_int, plain_puts,
}

-- sample_old/paging/001.
unfoldable pub identity_main : Step
identity_main = do
  plain_puts hello
  memset pml4t 0 0x5000
  link_tables
  fill_pd1
  fill 512 pt1 0x8000_0000 0x1000 with_flags
  load_cr3 (phys pml4t)
  plain_puts bye
  return_value 0

-- sample_old/paging/002.
unfoldable pub halted_main : Step
halted_main = do
  plain_puts hello
  memset pml4t 0 0x5000
  link_tables
  fill_pd1
  fill 512 pt1 0x8000_0000 0x1000 with_flags
  load_cr3 (phys pml4t)
  hlt
  plain_puts bye
  return_value 0

-- sample_old/paging/003.
unfoldable pub unmapped_main : Step
unmapped_main = do
  plain_puts hello
  memset pml4t 0 0x5000
  link_tables
  fill_pd1
  load_cr3 (phys pml4t)
  hlt
  plain_puts bye
  return_value 0

-- sample_old/paging/011.
unfoldable pub shifted_main : Step
shifted_main = do
  plain_puts hello
  memset pml4t 0 0x5000
  link_tables
  fill_pd1
  store pt1 0 (with_flags 0x8000_1000)
  load_cr3 (phys pml4t)
  hlt
  plain_puts bye
  return_value 0

-- sample_old/paging/013.
unfoldable pub adjacent_main : Step
adjacent_main = do
  plain_puts hello
  memset pml4t 0 0x5000
  link_tables
  fill_pd1
  store pt1 0 (with_flags 0x8000_0000)
  store pt1 1 (with_flags 0x8000_1000)
  load_cr3 (phys pml4t)
  hlt
  plain_puts bye
  return_value 0

-- sample_old/paging/014.
unfoldable pub scattered_main : Step
scattered_main = do
  plain_puts hello
  memset pml4t 0 0x5000
  link_tables
  fill_pd1
  store pt1 0 (with_flags 0x8000_0000)
  store pt1 1 (with_flags 0x8000_2000)
  load_cr3 (phys pml4t)
  hlt
  plain_puts bye
  return_value 0

-- sample_old/paging/031.
unfoldable pub overrun_main : Step
overrun_main = do
  puts hello
  memset pml4t 0 0x5000
  link_tables
  fill_pd1
  load_cr3 (phys pml4t)
  fill 1024 pt1 0x8050_0000 0x1000 with_flags
  clear_int 0xC000_0000
  puts bye
  return_value 0

-- sample_old/paging/032.
unfoldable pub second_table_main : Step
second_table_main = do
  puts hello
  memset pml4t 0 0x5000
  link_tables
  store pd2 1 (with_flags (phys pt2))
  fill_pd1
  load_cr3 (phys pml4t)
  fill 512 pt1 0x8050_0000 0x1000 with_flags
  store pt2 0 (with_flags 0x8070_0000)
  clear_int 0xC020_0000
  puts bye
  return_value 0

-- sample_old/paging/035.
unfoldable pub second_huge_main : Step
second_huge_main = do
  puts hello
  memset pml4t 0 0x5000
  link_tables
  store pd2 1 (with_huge_flags 0x8080_0000)
  fill_pd1
  load_cr3 (phys pml4t)
  fill 512 pt1 0x8050_0000 0x1000 with_flags
  clear_int 0xC020_0000
  puts bye
  return_value 0

-- The loop of sample_old/paging/100 that clears its three tables, from `i` on for `n` rounds.
pub clear_tables : ℕ → ℕ → Bytes → Bytes
clear_tables zero i m = m
clear_tables (suc n) i m =
    let m₁ = write64 m (phys 0x30_1000 + 8 * i) 0 in
    let m₂ = write64 m₁ (phys 0x30_2000 + 8 * i) 0 in
    let m₃ = write64 m₂ (phys 0x30_3000 + 8 * i) 0 in clear_tables n (i + 1) m₃

-- `*(uint64_t *)a == *(uint64_t *)b`, where both can be read.
abbrev pub same_words : System → ℕ → ℕ → Option Bool
same_words s a b = elim (locate s a) [
  | none ↦ none
  | some p ↦ elim (locate (keep a p s) b) [
    | none ↦ none
    | some q ↦ some (read64 s.mem p == read64 s.mem q)
  ]
]

-- sample_old/paging/100.
unfoldable pub exercise_main : Step
unfolding clear_tables
exercise_main = do
  plain_puts booted
  (λ s. some (record s { mem = clear_tables 512 0 s.mem }))
  store 0x30_1000 0 (with_flags (phys 0x30_2000))
  store 0x30_2000 0 (with_huge_flags (phys 0x30_3000))
  store 0x30_3000 0 (with_huge_flags 0x8000_0000)
  store 0x30_3000 1 (with_huge_flags 0x8020_0000)
  load_cr3 (phys 0x30_1000)
  (λ s. elim (same_words s 0x20_0000 0x4000_0000) [
    | none ↦ none
    | some same ↦ return_value (if same then 0 else 1) s
  ])
