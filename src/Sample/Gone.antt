-- ===== src/Sample/Gone.antt =====
-- Cores that are out of friend_main, in the program of sample/.
use toshokan.Base.{
  ℕ, ◌+◌, ◌≡◌, ◌⊎◌, inl, inr, refl, sym, ap, ◌∙◌, List, ◌∷◌, Bool, true, false, ltb, ◌==◌, update,
  update_self, update_ne, ℕ_discrete, arith, if◌then◌else◌,
}
use toshokan.Friend.Runtime
use toshokan.Friend.Runtime.{
  Loc, waiting, ctor, main, count_up, compare, dtor, set_sync, done, exec, Reachable, at_start,
  then_step,
}
use toshokan.Friend.Runtime.Counting.{bit}
use toshokan.Sample.{
  Phase, counting, offloading, adding, over, Host, booting, looking, serving, returned, System,
  offload, main_step, core_step,
}
use toshokan.Sample.Counts.{Counts}

-- A core that has come out of friend_main.
abbrev pub past : Loc → Bool
past waiting = false
past (ctor k) = false
past main = false
past _ = true

-- The program of sample/ takes the steps of friend_init, and a core that is out of friend_main has
-- gone through it.
pub record Follows (a b n : ℕ) (s : System) : Type 0 where
  pub counts : Counts n s
  pub reached : Reachable a b n s.runtime
  pub gone : (c : ℕ) → past (s.runtime.loc c) ≡ true → s.phase c ≡ over

abbrev is_main : Loc → Bool
is_main main = true
is_main _ = false

pub untrue : {A : Type 0} → false ≡ true → A
untrue h = absurd (omega (arith, ap bit h))

-- Only friend_main leads out of friend_main.
exec-past :
    (a b : ℕ) (l : Loc) (m : Runtime.Shared)
    → past (exec a b l m).1 ≡ true
    → (l ≡ main) ⊎ (past l ≡ true)
exec-past a b waiting m h = untrue (split (m.init_count == 0) h)
  where
    split : (t : Bool) → past (if t then ctor 0 else main) ≡ true → false ≡ true
    split true z = z
    split false z = z
exec-past a b (ctor k) m h = untrue (split (ltb k a) (m.constructed) h)
  where
    split :
        (t : Bool) (x : List ℕ)
        → past
            (if◌then◌else◌ {A = Runtime.Shared × Loc} t
              (record m { constructed = k ∷ x }, ctor (k + 1))
              (m, main)).1
          ≡ true
        → false ≡ true
    split true x z = z
    split false x z = z
exec-past a b main m h = inl refl
exec-past a b count_up m h = inr refl
exec-past a b (compare r) m h = inr refl
exec-past a b (dtor k) m h = inr refl
exec-past a b set_sync m h = inr refl
exec-past a b done m h = inr refl

-- A step of the runtime by core `c`, which is over if it is in friend_main.
runtime-gone :
    (a b c : ℕ) (s : System)
    → ((d : ℕ) → past (s.runtime.loc d) ≡ true → s.phase d ≡ over)
    → (s.runtime.loc c ≡ main → s.phase c ≡ over)
    → (d : ℕ) → past ((Runtime.step a b c s.runtime).loc d) ≡ true
    → s.phase d ≡ over
unfolding Runtime.step
runtime-gone a b c s v o d h = elim (ℕ_discrete c d) [
  | no x ↦ v d (ap past (sym (update_ne s.runtime.loc c d _ x)) ∙ h)
  | yes x ↦
      elim (exec-past a b (s.runtime.loc c) s.runtime.mem (
        ap past (sym (update_self s.runtime.loc c _))
        ∙ ap (λ t. past ((Runtime.step a b c s.runtime).loc t)) x
        ∙ h)) [ inl m ↦ ap s.phase (sym x) ∙ o m | inr p ↦ ap s.phase (sym x) ∙ v c p ]
]

-- In friend_main, core `c` goes to phase `q`.
phase-gone :
    (c : ℕ) (s : System) (q : Phase)
    → ((d : ℕ) → past (s.runtime.loc d) ≡ true → s.phase d ≡ over)
    → s.runtime.loc c ≡ main
    → (d : ℕ) → past (s.runtime.loc d) ≡ true
    → update s.phase c q d ≡ over
phase-gone c s q v e d h = elim (ℕ_discrete c d) [
  | yes x ↦ untrue (sym (ap past (ap s.runtime.loc (sym x) ∙ e)) ∙ h)
  | no x ↦ rw (update_ne s.phase c d q x) (v d h)
]

main_step-gone :
    (a b n c : ℕ) (s : System) (p : Phase)
    → Follows a b n s
    → s.runtime.loc c ≡ main
    → s.phase c ≡ p
    → (d : ℕ) → past ((main_step a b n c p s).runtime.loc d) ≡ true
    → (main_step a b n c p s).phase d ≡ over
unfolding main_step
main_step-gone a b n c s counting v e k = phase-gone c s (offloading s.cnt) v.gone e
main_step-gone a b n c s (offloading i) v e k = offload-gone s.host
  where
    offload-gone :
        (x : Host) (d : ℕ)
        → past ((offload a b n c i x s).runtime.loc d) ≡ true
        → (offload a b n c i x s).phase d ≡ over
    offload-gone serving = phase-gone c s adding v.gone e
    offload-gone (booting j) = v.gone
    offload-gone looking = v.gone
    offload-gone (returned r) = v.gone
main_step-gone a b n c s adding v e k = phase-gone c s over v.gone e
main_step-gone a b n c s over v e k = runtime-gone a b c s v.gone (λ _. k)

outside-gone :
    (a b n c : ℕ) (s : System) (l : Loc)
    → Follows a b n s
    → s.runtime.loc c ≡ l
    → is_main l ≡ false
    → (d : ℕ) → past ((Runtime.step a b c s.runtime).loc d) ≡ true
    → s.phase d ≡ over
outside-gone a b n c s l v e o =
    runtime-gone a b c s v.gone (λ m. untrue (sym o ∙ ap is_main (sym e ∙ m)))

pub core_step-gone :
    (a b n c : ℕ) (s : System) (l : Loc)
    → Follows a b n s
    → s.runtime.loc c ≡ l
    → (d : ℕ) → past ((core_step a b n c l s).runtime.loc d) ≡ true
    → (core_step a b n c l s).phase d ≡ over
unfolding core_step
core_step-gone a b n c s main v e = main_step-gone a b n c s (s.phase c) v e refl
core_step-gone a b n c s waiting v e = outside-gone a b n c s _ v e refl
core_step-gone a b n c s (ctor k) v e = outside-gone a b n c s _ v e refl
core_step-gone a b n c s count_up v e = outside-gone a b n c s _ v e refl
core_step-gone a b n c s (compare r) v e = outside-gone a b n c s _ v e refl
core_step-gone a b n c s (dtor k) v e = outside-gone a b n c s _ v e refl
core_step-gone a b n c s set_sync v e = outside-gone a b n c s _ v e refl
core_step-gone a b n c s done v e = outside-gone a b n c s _ v e refl
