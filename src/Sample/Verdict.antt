-- ===== src/Sample/Verdict.antt =====
-- What it means that the sample passes.
use toshokan.Base.{ℕ, ◌≤◌, ◌<◌, ◌≡◌, refl, ap, List, true, ltb, arith}
use toshokan.Friend.Runtime.Counting.{bit, count, count-le, count_bound, count_full, count_empty}
use toshokan.Sample.{Phase, counting, offloading, adding, over, returned, System, run, start}
use toshokan.Sample.Counts.{
  Counts, is_over, is_offloading, has_counted, occurrences, run-Counts, start-Counts,
}

is_over-true : (p : Phase) → is_over p ≡ true → p ≡ over
is_over-true counting h = absurd (omega (arith, ap bit h))
is_over-true (offloading i) h = absurd (omega (arith, ap bit h))
is_over-true adding h = absurd (omega (arith, ap bit h))
is_over-true over h = refl

is_over-counted : (p : Phase) → bit (is_over p) ≤ bit (has_counted p)
is_over-counted counting = omega arith
is_over-counted (offloading i) = omega arith
is_over-counted adding = omega arith
is_over-counted over = omega arith

pub passed-over :
    (n : ℕ) (s : System) → Counts n s → s.host ≡ returned 1 → (c : ℕ) → c < n → s.phase c ≡ over
passed-over n s v e c h =
    let many : n ≤ count is_over n s.phase = omega (arith, v.passed e, v.added) in
    is_over-true (s.phase c) (count_full is_over n s.phase many c h)

-- For any numbers of constructors and destructors, after any schedule of the hakase process and `n`
-- cores: where test_main has returned 1, every core has gone through friend_main, and the hakase
-- process has printed each of the numbers below `n` once, and no other number.
pub run-passed :
    (ctors dtors n : ℕ) (actors : List ℕ)
    → let s = run ctors dtors n actors start in
      s.host ≡ returned 1
      → ((c : ℕ) → c < n → s.phase c ≡ over) × ((i : ℕ) → occurrences i s.printed ≡ bit (ltb i n))
run-passed a b n actors e =
    (all_over, λ i. omega (arith, v.shown i, nobody_prints i, ap (λ x. bit (ltb i x)) given))
  where
    s : System
    s = run a b n actors start

    v : Counts n s
    v = run-Counts a b n actors start (start-Counts n)

    many : n ≤ count is_over n s.phase
    many = omega (arith, v.passed e, v.added)

    all_over : (c : ℕ) → c < n → s.phase c ≡ over
    all_over = passed-over n s v e

    nobody_prints : (i : ℕ) → count (is_offloading i) n s.phase ≡ 0
    nobody_prints i =
        count_empty (is_offloading i) n s.phase (λ c h. ap (is_offloading i) (all_over c h))

    given : s.cnt ≡ n
    given = omega (
      arith,
      v.counted,
      count_bound has_counted n s.phase,
      count-le has_counted is_over n s.phase is_over-counted,
      many,
    )
