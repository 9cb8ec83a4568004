-- ===== src/Friend/Runtime/Constructors.antt =====
-- How the constructors run.
use toshokan.Base.{
  ℕ, zero, suc, ◌+◌, ◌<◌, ◌≤◌, ◌≡◌, ◌≢◌, inl, inr, refl, sym, ap, ◌∙◌, Bool, true, false, List, [],
  ◌∷◌, ltb, ◌==◌, ==_iff, update, update_self, update_ne, Bool-cases, ℕ_discrete, arith,
}
use toshokan.Friend.Runtime.{
  Loc, waiting, ctor, main, count_up, compare, dtor, set_sync, done, Shared, exec, System, step,
  Reachable, at_start, then_step,
}

-- The constructors up to `k`, as they are listed after they have run in order.
pub down_from : ℕ → List ℕ
down_from zero = []
down_from (suc k) = k ∷ down_from k

abbrev pub is_ctor : Loc → Bool
is_ctor (ctor k) = true
is_ctor _ = false

abbrev ctor_index : Loc → ℕ
ctor_index (ctor k) = k
ctor_index _ = 0

-- How far the constructors have come: no core is there; one core has run the first `k`, in order,
-- and no other core is at them; or all have run, once and in order.
pub data Building (ctors : ℕ) (s : System) : Type 0 where
  nobody :
      s.mem.init_count ≡ 0
      → s.mem.constructed ≡ []
      → ((d : ℕ) → is_ctor (s.loc d) ≡ false)
      → Building ctors s
  by_one :
      (c k : ℕ)
      → 0 < s.mem.init_count
      → s.loc c ≡ ctor k
      → k ≤ ctors
      → s.mem.constructed ≡ down_from k
      → ((d : ℕ) → c ≢ d → is_ctor (s.loc d) ≡ false)
      → Building ctors s
  built :
      0 < s.mem.init_count
      → s.mem.constructed ≡ down_from ctors
      → ((d : ℕ) → is_ctor (s.loc d) ≡ false)
      → Building ctors s

apart : (x y : Bool) → x ≡ true → y ≡ false → x ≢ y
apart x y p q e = ground arith

others :
    (loc : ℕ → Loc) (c : ℕ) (l' : Loc) (d : ℕ)
    → is_ctor l' ≡ false
    → (c ≢ d → is_ctor (loc d) ≡ false)
    → is_ctor (update loc c l' d) ≡ false
others loc c l' d p h = elim (ℕ_discrete c d) [
  | yes x ↦ rw (← x, update_self loc c l') p
  | no x ↦ rw (update_ne loc c d l' x) (h x)
]

-- A step of a core that is not at the constructors, and does not get there.
stay :
    (n : ℕ) (s : System) (c : ℕ) (l l' : Loc) (m' : Shared)
    → s.loc c ≡ l
    → is_ctor l ≡ false
    → is_ctor l' ≡ false
    → m'.constructed ≡ s.mem.constructed
    → s.mem.init_count ≤ m'.init_count
    → (s.mem.init_count ≡ 0 → m'.init_count ≡ 0)
    → Building n s
    → Building n (record { mem = m'; loc = update s.loc c l' })
stay n s c l l' m' e p q r g z (nobody i b o) =
    nobody (z i) (r ∙ b) (λ d. others s.loc c l' d q (λ _. o d))
stay n s c l l' m' e p q r g z (built i b o) =
    built (omega arith) (r ∙ b) (λ d. others s.loc c l' d q (λ _. o d))
stay n s c l l' m' e p q r g z (by_one c₀ k i w le b o) =
    by_one c₀ k (omega arith) (update_ne s.loc c c₀ l' moved ∙ w) le (r ∙ b)
      (λ d x. others s.loc c l' d q (λ _. o d x))
  where
    moved : c ≢ c₀
    moved x =
        apart (is_ctor (s.loc c₀)) (is_ctor (s.loc c)) (ap is_ctor w) (ap is_ctor e ∙ p)
          (ap (λ i. is_ctor (s.loc i)) (sym x))

-- The first core gets to the constructors.
arrive :
    (n : ℕ) (s : System) (c : ℕ) (m' : Shared)
    → s.mem.init_count ≡ 0
    → 0 < m'.init_count
    → m'.constructed ≡ s.mem.constructed
    → Building n s
    → Building n (record { mem = m'; loc = update s.loc c (ctor 0) })
unfolding down_from
arrive n s c m' z p r (nobody i b o) =
    by_one c 0 p (update_self s.loc c (ctor 0)) (omega arith) (r ∙ b)
      (λ d x. rw (update_ne s.loc c d (ctor 0) x) (o d))
arrive n s c m' z p r (by_one c₀ k i w le b o) = absurd (omega arith)
arrive n s c m' z p r (built i b o) = absurd (omega arith)

-- The core at the constructors is the only one, and is where the count says.
at_ctor :
    (n : ℕ) (s : System) (c k : ℕ)
    → s.loc c ≡ ctor k
    → Building n s
    → (0 < s.mem.init_count)
      × (k ≤ n)
      × (s.mem.constructed ≡ down_from k)
      × ((d : ℕ) → c ≢ d → is_ctor (s.loc d) ≡ false)
at_ctor n s c k e (nobody i b o) = absurd (apart true false refl refl (sym (ap is_ctor e) ∙ o c))
at_ctor n s c k e (built i b o) = absurd (apart true false refl refl (sym (ap is_ctor e) ∙ o c))
at_ctor n s c k e (by_one c₀ j i w le b o) = elim (ℕ_discrete c₀ c) [
  | no x ↦ absurd (apart true false refl refl (sym (ap is_ctor e) ∙ o c x))
  | yes x ↦
      let same : j ≡ k =
        sym (ap ctor_index w) ∙ ap (λ y. ctor_index (s.loc y)) x ∙ ap ctor_index e in
      (i, omega (arith, same), b ∙ ap down_from same, λ d y. o d (λ z. y (sym x ∙ z)))
]

exec-Building :
    (ctors dtors : ℕ) (s : System) (c : ℕ) (l : Loc)
    → s.loc c ≡ l
    → Building ctors s
    → Building ctors (record {
      mem = (exec ctors dtors l s.mem).0;
      loc = update s.loc c (exec ctors dtors l s.mem).1;
    })
unfolding down_from
exec-Building a b s c waiting e v = elim (Bool-cases (s.mem.init_count == 0)) [
  | inl q ↦ rw q (arrive a s c _ (omega (arith, (==_iff _ _).0 q)) (omega arith) refl v)
  | inr q ↦
      rw q (stay a s c waiting main _ e refl refl refl (omega arith) (λ z. absurd (ground arith)) v)
]
exec-Building a b s c (ctor k) e v =
    let (i, le, built_k, o) = at_ctor a s c k e v in
    let next : suc k ≡ k + 1 = omega arith in
    elim (Bool-cases (ltb k a)) [
      | inl q ↦ rw q (
          by_one c (k + 1) i (update_self s.loc c (ctor (k + 1))) (grind arith)
            (ap (λ l. k ∷ l) built_k ∙ ap down_from next)
            (λ d x. rw (update_ne s.loc c d (ctor (k + 1)) x) (o d x)))
      | inr q ↦
          let all : k ≡ a = ground arith in
          rw q (built i (built_k ∙ ap down_from all) (λ d. others s.loc c main d refl (o d)))
    ]
exec-Building a b s c main e v =
    stay a s c main count_up _ e refl refl refl (omega arith) (λ z. z) v
exec-Building a b s c count_up e v =
    stay a s c count_up (compare (s.mem.returned_count + 1)) _ e refl refl refl (omega arith)
      (λ z. z) v
exec-Building a b s c (compare r) e v = elim (Bool-cases (r == s.mem.init_count)) [
  | inl q ↦ rw q (stay a s c (compare r) (dtor 0) _ e refl refl refl (omega arith) (λ z. z) v)
  | inr q ↦ rw q (stay a s c (compare r) done _ e refl refl refl (omega arith) (λ z. z) v)
]
exec-Building a b s c (dtor k) e v = elim (Bool-cases (ltb k b)) [
  | inl q ↦ rw q (stay a s c (dtor k) (dtor (k + 1)) _ e refl refl refl (omega arith) (λ z. z) v)
  | inr q ↦ rw q (stay a s c (dtor k) set_sync _ e refl refl refl (omega arith) (λ z. z) v)
]
exec-Building a b s c set_sync e v =
    stay a s c set_sync done _ e refl refl refl (omega arith) (λ z. z) v
exec-Building a b s c done e v = stay a s c done done _ e refl refl refl (omega arith) (λ z. z) v

-- Whatever the order of the steps: before a core has entered friend_init no constructor has run;
-- then one core alone runs them, in order and each once; and when no core is at them any more, all
-- have run.
pub constructors_in_order :
    {ctors dtors n : ℕ} {s : System} → Reachable ctors dtors n s → Building ctors s
unfolding step down_from
constructors_in_order at_start = nobody refl refl (λ d. refl)
constructors_in_order {ctors = a} {dtors = b} (then_step {s = s} c h r) =
    exec-Building a b s c (s.loc c) refl (constructors_in_order r)
