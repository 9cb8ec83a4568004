-- ===== src/Friend/Runtime/Gathered.antt =====
-- What the cores do once all of them have entered friend_init.
use toshokan.Base.{
  ℕ, ◌+◌, ◌<◌, ◌≡◌, inl, inr, refl, sym, ap, ◌∙◌, Bool, true, false, ltb, ◌==◌, update, update_self,
  update_ne, Bool-cases, ℕ_discrete, arith,
}
use toshokan.Friend.Runtime.{
  Loc, waiting, ctor, main, count_up, compare, dtor, set_sync, done, Shared, exec, System, step,
}
use toshokan.Friend.Runtime.Counting.{bit, count_bound, count_full}
use toshokan.Friend.Runtime.Reaching.{entered, returned, seen, Counts}

-- The core that runs the destructors.
abbrev pub is_last : Loc → Bool
is_last (dtor k) = true
is_last set_sync = true
is_last _ = false

-- All of `n` cores have entered; a core that runs the destructors, or has set the flag, is the last.
pub record Gathered (n : ℕ) (s : System) : Type 0 where
  pub all_in : s.mem.init_count ≡ n
  pub last : (d : ℕ) → d < n → is_last (s.loc d) ≡ true → s.mem.returned_count ≡ n
  pub flag : s.mem.sync_hakase_and_friend ≡ 1 → s.mem.returned_count ≡ n

module _ (n : ℕ) (s : System) (c : ℕ) (l : Loc) (h : c < n) (e : s.loc c ≡ l) (v : Counts n s)
    (w : Gathered n s) where
  -- Core `c` goes to `l'`, and memory becomes `m'`.
  move :
      (l' : Loc) (m' : Shared)
      → m'.init_count ≡ s.mem.init_count
      → (s.mem.returned_count ≡ n → m'.returned_count ≡ n)
      → (is_last l' ≡ true → m'.returned_count ≡ n)
      → (m'.sync_hakase_and_friend ≡ 1 → m'.returned_count ≡ n)
      → Gathered n (record { mem = m'; loc = update s.loc c l' })
  move l' m' a r p q = record {
    all_in = a ∙ w.all_in;
    last = λ d k. elim (ℕ_discrete c d) [
      | yes x ↦ rw (← x, update_self s.loc c l') p
      | no x ↦ rw (update_ne s.loc c d l' x) (λ z. r (w.last d k z))
    ];
    flag = q;
  }

  is_in : entered l ≡ true
  is_in = ap entered (sym e) ∙ count_full entered n s.loc (omega (arith, w.all_in, v.init)) c h

  is_back : s.mem.returned_count ≡ n → returned l ≡ true
  is_back k = ap returned (sym e) ∙ count_full returned n s.loc (omega (arith, k, v.returns)) c h

untrue : {A : Type 0} → false ≡ true → A
untrue h = absurd (omega (arith, ap bit h))

all_back :
    (n : ℕ) (s : System) (c r : ℕ)
    → s.loc c ≡ compare r
    → (r == s.mem.init_count) ≡ true
    → Counts n s
    → Gathered n s
    → s.mem.returned_count ≡ n
all_back n s c r e q v w =
    let equal : r ≡ s.mem.init_count = ground arith in
    omega (arith, v.bound c, ap seen e, equal, w.all_in, v.returns, count_bound returned n s.loc)

exec-Gathered :
    (a b n : ℕ) (s : System) (c : ℕ) (l : Loc)
    → c < n
    → s.loc c ≡ l
    → Counts n s
    → Gathered n s
    → Gathered n (record { mem = (exec a b l s.mem).0; loc = update s.loc c (exec a b l s.mem).1 })
exec-Gathered a b n s c waiting h e v w = untrue (is_in n s c waiting h e v w)
exec-Gathered a b n s c (ctor k) h e v w = elim (Bool-cases (ltb k a)) [
  | inl q ↦ rw q (move n s c (ctor k) h e v w (ctor (k + 1)) _ refl (λ z. z) untrue w.flag)
  | inr q ↦ rw q (move n s c (ctor k) h e v w main _ refl (λ z. z) untrue w.flag)
]
exec-Gathered a b n s c main h e v w =
    move n s c main h e v w count_up _ refl (λ z. z) untrue w.flag
exec-Gathered a b n s c count_up h e v w =
    move n s c count_up h e v w (compare (s.mem.returned_count + 1)) _ refl
      (λ z. untrue (is_back n s c count_up h e v w z)) untrue
      (λ z. untrue (is_back n s c count_up h e v w (w.flag z)))
exec-Gathered a b n s c (compare r) h e v w = elim (Bool-cases (r == s.mem.init_count)) [
  | inl q ↦ rw q (
      move n s c (compare r) h e v w (dtor 0) _ refl (λ z. z) (λ _. all_back n s c r e q v w)
        w.flag)
  | inr q ↦ rw q (move n s c (compare r) h e v w done _ refl (λ z. z) untrue w.flag)
]
exec-Gathered a b n s c (dtor k) h e v w = elim (Bool-cases (ltb k b)) [
  | inl q ↦ rw q (
      move n s c (dtor k) h e v w (dtor (k + 1)) _ refl (λ z. z) (λ _. w.last c h (ap is_last e))
        w.flag)
  | inr q ↦
      rw q (
        move n s c (dtor k) h e v w set_sync _ refl (λ z. z) (λ _. w.last c h (ap is_last e))
          w.flag)
]
exec-Gathered a b n s c set_sync h e v w =
    move n s c set_sync h e v w done _ refl (λ z. z) untrue (λ _. w.last c h (ap is_last e))
exec-Gathered a b n s c done h e v w = move n s c done h e v w done _ refl (λ z. z) untrue w.flag

pub step-Gathered :
    (a b n c : ℕ) (s : System) → c < n → Counts n s → Gathered n s → Gathered n (step a b c s)
unfolding step
step-Gathered a b n c s h v w = exec-Gathered a b n s c (s.loc c) h refl v w

-- Once the flag is set, no core is before or in friend_main.
pub flag-returned :
    (n : ℕ) (s : System)
    → Counts n s
    → Gathered n s
    → s.mem.sync_hakase_and_friend ≡ 1
    → (c : ℕ) → c < n
    → returned (s.loc c) ≡ true
flag-returned n s v w f c h = count_full returned n s.loc (omega (arith, w.flag f, v.returns)) c h
