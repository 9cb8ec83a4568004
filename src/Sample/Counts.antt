-- ===== src/Sample/Counts.antt =====
-- The invariants of the program of sample/.
use toshokan.Base.{
  ℕ, zero, suc, ◌+◌, ◌≤◌, ◌<◌, ◌≡◌, refl, sym, ap, ◌∙◌, inl, inr, List, [], ◌∷◌, Bool, true, false,
  ltb, ◌==◌, if◌then◌else◌, update, Bool-cases, arith,
}
use toshokan.Friend.Runtime
use toshokan.Friend.Runtime.{Loc, main, waiting, ctor, count_up, compare, dtor, set_sync, done}
use toshokan.Friend.Runtime.Counting.{bit, count, count-none, count-update}
use toshokan.Sample.{
  Phase, counting, offloading, adding, over, Host, booting, looking, serving, returned, System,
  verdict, is_friend_stopped, host_step, main_step, core_step, has_started, step, run, start,
  offload,
}

abbrev pub is_over : Phase → Bool
is_over over = true
is_over _ = false

abbrev pub has_counted : Phase → Bool
has_counted counting = false
has_counted _ = true

abbrev pub is_offloading : ℕ → Phase → Bool
is_offloading i (offloading j) = i == j
is_offloading i _ = false

-- How often `i` stands in a list.
pub occurrences : ℕ → List ℕ → ℕ
occurrences i [] = 0
occurrences i (j ∷ js) = bit (i == j) + occurrences i js

-- The cores that boot has started so far.
abbrev pub opened : Host → ℕ
opened (booting k) = k
opened _ = 0

-- The counters are right, each number that has been given out has been printed or is about to be,
-- and where the hakase process has returned 1 all cores have added to the flag.
pub record Counts (n : ℕ) (s : System) : Type 0 where
  pub counted : s.cnt ≡ count has_counted n s.phase
  pub added : s.sync_flag ≡ count is_over n s.phase
  pub shown :
      (i : ℕ) → occurrences i s.printed + count (is_offloading i) n s.phase ≡ bit (ltb i s.cnt)
  pub passed : s.host ≡ returned 1 → n ≤ s.sync_flag
  pub bound : opened s.host ≤ n

-- Core `c` goes from phase `p` to `q`.
module _ (n : ℕ) (s t : System) (c : ℕ) (p q : Phase) (h : c < n) (e : s.phase c ≡ p)
    (k : t.phase ≡ update s.phase c q) (v : Counts n s) where
  counts :
      (has : Phase → Bool) → count has n t.phase + bit (has p) ≡ count has n s.phase + bit (has q)
  counts has =
      omega (arith, ap (count has n) k, ap (λ x. bit (has x)) e, count-update has n c s.phase q h)

  move :
      t.cnt + bit (has_counted p) ≡ s.cnt + bit (has_counted q)
      → t.sync_flag + bit (is_over p) ≡ s.sync_flag + bit (is_over q)
      → ((i : ℕ)
          → occurrences i t.printed + bit (is_offloading i q) + bit (ltb i s.cnt)
            ≡ occurrences i s.printed + bit (is_offloading i p) + bit (ltb i t.cnt))
      → s.sync_flag ≤ t.sync_flag
      → t.host ≡ s.host
      → Counts n t
  move a b d g same = record {
    counted = omega (arith, a, v.counted, counts has_counted);
    added = omega (arith, b, v.added, counts is_over);
    shown = λ i. omega (arith, d i, v.shown i, counts (is_offloading i));
    passed = λ z. omega (arith, g, v.passed (sym same ∙ z));
    bound = omega (arith, ap opened same, v.bound);
  }

-- Steps that change nothing of it.
still : (n : ℕ) (s : System) (r : Runtime.System) → Counts n s → Counts n (record s { runtime = r })
still n s r v = record {
  counted = v.counted;
  added = v.added;
  shown = v.shown;
  passed = v.passed;
  bound = v.bound;
}

hosted :
    (n : ℕ) (s : System) (x : Host)
    → (x ≡ returned 1 → n ≤ s.sync_flag)
    → opened x ≤ n
    → Counts n s
    → Counts n (record s { host = x })
hosted n s x f k v = record {
  counted = v.counted;
  added = v.added;
  shown = v.shown;
  passed = f;
  bound = k;
}

abbrev pub result_of : Host → ℕ
result_of (returned r) = r
result_of _ = 0

verdict_one : (a b : ℕ) → verdict a b ≡ 1 → b ≤ a
verdict_one a b h = ground arith

pub host_step-Counts :
    (a b n : ℕ) (s : System) (x : Host) → s.host ≡ x → Counts n s → Counts n (host_step a b n x s)
unfolding host_step
host_step-Counts a b n s (booting k) e v =
    hosted n s (if ltb k n then booting (k + 1) else looking) (split (ltb k n))
      (ground (arith, v.bound)) v
  where
    split : (t : Bool) → (if t then booting (k + 1) else looking) ≡ returned 1 → n ≤ s.sync_flag
    split true z = absurd (omega (arith, ap result_of z))
    split false z = absurd (omega (arith, ap result_of z))
host_step-Counts a b n s looking e v =
    hosted n s (if is_friend_stopped s then returned (verdict s.sync_flag n) else serving)
      (split (is_friend_stopped s)) (within (is_friend_stopped s)) v
  where
    split :
        (t : Bool)
        → (if t then returned (verdict s.sync_flag n) else serving) ≡ returned 1
        → n ≤ s.sync_flag
    split true z = verdict_one s.sync_flag n (ap result_of z)
    split false z = absurd (omega (arith, ap result_of z))

    within : (t : Bool) → opened (if t then returned (verdict s.sync_flag n) else serving) ≤ n
    within true = omega arith
    within false = omega arith
host_step-Counts a b n s serving e v =
    hosted n s looking (λ z. absurd (omega (arith, ap result_of z))) (omega arith) v
host_step-Counts a b n s (returned r) e v = v

offload-Counts :
    (a b n c i : ℕ) (s : System) (x : Host)
    → c < n
    → s.phase c ≡ offloading i
    → Counts n s
    → Counts n (offload a b n c i x s)
unfolding occurrences
offload-Counts a b n c i s serving h e v =
    move n s _ c (offloading i) adding h e refl v refl refl (λ j. omega arith) (omega arith) refl
offload-Counts a b n c i s (booting k) h e v = v
offload-Counts a b n c i s looking h e v = v
offload-Counts a b n c i s (returned r) h e v = v

main_step-Counts :
    (a b n c : ℕ) (s : System) (p : Phase)
    → c < n
    → s.phase c ≡ p
    → Counts n s
    → Counts n (main_step a b n c p s)
unfolding main_step
main_step-Counts a b n c s counting h e v =
    move n s _ c counting (offloading s.cnt) h e refl v (omega arith) refl (λ i. ground arith)
      (omega arith) refl
main_step-Counts a b n c s (offloading i) h e v = offload-Counts a b n c i s s.host h e v
main_step-Counts a b n c s adding h e v =
    move n s _ c adding over h e refl v refl (omega arith) (λ i. omega arith) (omega arith) refl
main_step-Counts a b n c s over h e v = still n s _ v

pub core_step-Counts :
    (a b n c : ℕ) (s : System) (l : Loc) → c < n → Counts n s → Counts n (core_step a b n c l s)
unfolding core_step
core_step-Counts a b n c s main h v = main_step-Counts a b n c s (s.phase c) h refl v
core_step-Counts a b n c s waiting h v = still n s _ v
core_step-Counts a b n c s (ctor k) h v = still n s _ v
core_step-Counts a b n c s count_up h v = still n s _ v
core_step-Counts a b n c s (compare r) h v = still n s _ v
core_step-Counts a b n c s (dtor k) h v = still n s _ v
core_step-Counts a b n c s set_sync h v = still n s _ v
core_step-Counts a b n c s done h v = still n s _ v

pub started_lt : (a b n c : ℕ) (x : Host) → opened x ≤ n → has_started a b n c x ≡ true → c < n
started_lt a b n c (booting k) h e = ground arith
started_lt a b n c looking h e = ground arith
started_lt a b n c serving h e = ground arith
started_lt a b n c (returned r) h e = ground arith

pub step-Counts : (a b n i : ℕ) (s : System) → Counts n s → Counts n (step a b n i s)
unfolding step
step-Counts a b n zero s v = host_step-Counts a b n s s.host refl v
step-Counts a b n (suc c) s v = elim (Bool-cases (has_started a b n c s.host)) [
  | inl e ↦
      rw (step, e)
        (core_step-Counts a b n c s (s.runtime.loc c) (started_lt a b n c s.host v.bound e) v)
  | inr e ↦ rw (step, e) v
]

pub run-Counts :
    (a b n : ℕ) (actors : List ℕ) (s : System) → Counts n s → Counts n (run a b n actors s)
unfolding run
run-Counts a b n [] s v = v
run-Counts a b n (i ∷ rest) s v = run-Counts a b n rest (step a b n i s) (step-Counts a b n i s v)

none_below : (i : ℕ) → bit (ltb i 0) ≡ 0
none_below i = ground arith

pub start-Counts : (n : ℕ) → Counts n start
unfolding occurrences
start-Counts n = record {
  counted = sym (count-none has_counted n counting refl);
  added = sym (count-none is_over n counting refl);
  shown = λ i. omega (arith, count-none (is_offloading i) n counting refl, none_below i);
  passed = λ z. absurd (omega (arith, ap result_of z));
  bound = omega arith;
}
