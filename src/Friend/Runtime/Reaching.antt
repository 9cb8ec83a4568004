-- ===== src/Friend/Runtime/Reaching.antt =====
-- The invariants of what the cores reach.
use toshokan.Base.{
  ℕ, ◌+◌, ◌<◌, ◌≤◌, ◌≡◌, inl, inr, refl, sym, ap, Bool, true, false, ltb, ◌==◌, update, update_self,
  update_ne, Bool-cases, ℕ_discrete, arith,
}
use toshokan.Friend.Runtime.{
  Loc, waiting, ctor, main, count_up, compare, dtor, set_sync, done, Shared, exec, System, step,
  Reachable, at_start, then_step,
}
use toshokan.Friend.Runtime.Counting.{bit, count, count-none, count-update}

abbrev pub entered : Loc → Bool
entered waiting = false
entered _ = true

abbrev pub returned : Loc → Bool
returned (compare r) = true
returned (dtor k) = true
returned set_sync = true
returned done = true
returned _ = false

-- The count that a core has been given, until it has compared it.
abbrev pub seen : Loc → ℕ
seen (compare r) = r
seen _ = 0

-- The counters are right, for `n` cores.
pub record Counts (n : ℕ) (s : System) : Type 0 where
  pub init : s.mem.init_count ≡ count entered n s.loc
  pub returns : s.mem.returned_count ≡ count returned n s.loc
  pub bound : (d : ℕ) → seen (s.loc d) ≤ s.mem.returned_count

-- Core `c` goes from `l` to `l'`, and memory becomes `m'`.
move :
    (n : ℕ) (s : System) (c : ℕ) (l l' : Loc) (m' : Shared)
    → c < n
    → s.loc c ≡ l
    → Counts n s
    → m'.init_count + bit (entered l) ≡ s.mem.init_count + bit (entered l')
    → m'.returned_count + bit (returned l) ≡ s.mem.returned_count + bit (returned l')
    → s.mem.returned_count ≤ m'.returned_count
    → seen l' ≤ m'.returned_count
    → Counts n (record { mem = m'; loc = update s.loc c l' })
move n s c l l' m' h e v p q g r = record {
  init = omega (arith, v.init, p, ap (λ x. bit (entered x)) e, count-update entered n c s.loc l' h);
  returns =
      omega
        (arith, v.returns, q, ap (λ x. bit (returned x)) e, count-update returned n c s.loc l' h);
  bound = λ d. elim (ℕ_discrete c d) [
    | yes x ↦ rw (← x, update_self s.loc c l') r
    | no x ↦ rw (update_ne s.loc c d l' x) (omega (arith, v.bound d, g))
  ];
}

exec-Counts :
    (ctors dtors n : ℕ) (s : System) (c : ℕ) (l : Loc)
    → c < n
    → s.loc c ≡ l
    → Counts n s
    → Counts n (record {
      mem = (exec ctors dtors l s.mem).0;
      loc = update s.loc c (exec ctors dtors l s.mem).1;
    })
exec-Counts a b n s c waiting h e v = elim (Bool-cases (s.mem.init_count == 0)) [
  | inl q ↦
      rw q (
        move n s c waiting (ctor 0) _ h e v (omega arith) (omega arith) (omega arith) (omega arith))
  | inr q ↦
      rw q (move n s c waiting main _ h e v (omega arith) (omega arith) (omega arith) (omega arith))
]
exec-Counts a b n s c (ctor k) h e v = elim (Bool-cases (ltb k a)) [
  | inl q ↦ rw q (move n s c (ctor k) (ctor (k + 1)) _ h e v refl refl (omega arith) (omega arith))
  | inr q ↦ rw q (move n s c (ctor k) main _ h e v refl refl (omega arith) (omega arith))
]
exec-Counts a b n s c main h e v =
    move n s c main count_up _ h e v refl refl (omega arith) (omega arith)
exec-Counts a b n s c count_up h e v =
    move n s c count_up (compare (s.mem.returned_count + 1)) _ h e v refl (omega arith)
      (omega arith) (omega arith)
exec-Counts a b n s c (compare r) h e v = elim (Bool-cases (r == s.mem.init_count)) [
  | inl q ↦ rw q (move n s c (compare r) (dtor 0) _ h e v refl refl (omega arith) (omega arith))
  | inr q ↦ rw q (move n s c (compare r) done _ h e v refl refl (omega arith) (omega arith))
]
exec-Counts a b n s c (dtor k) h e v = elim (Bool-cases (ltb k b)) [
  | inl q ↦ rw q (move n s c (dtor k) (dtor (k + 1)) _ h e v refl refl (omega arith) (omega arith))
  | inr q ↦ rw q (move n s c (dtor k) set_sync _ h e v refl refl (omega arith) (omega arith))
]
exec-Counts a b n s c set_sync h e v =
    move n s c set_sync done _ h e v refl refl (omega arith) (omega arith)
exec-Counts a b n s c done h e v =
    move n s c done done _ h e v refl refl (omega arith) (omega arith)

pub Reachable-Counts : {ctors dtors n : ℕ} {s : System} → Reachable ctors dtors n s → Counts n s
unfolding step
Reachable-Counts {n = n} at_start = record {
  init = sym (count-none entered n waiting refl);
  returns = sym (count-none returned n waiting refl);
  bound = λ d. omega arith;
}
Reachable-Counts {ctors = a} {dtors = b} {n = n} (then_step {s = s} c h r) =
    exec-Counts a b n s c (s.loc c) h refl (Reachable-Counts r)
