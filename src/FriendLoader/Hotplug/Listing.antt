-- ===== src/FriendLoader/Hotplug/Listing.antt =====
-- What the list of processors holds, and what the loop over it does.
use toshokan.Base.{
  ℕ, zero, suc, ◌+◌, ◌≤◌, ◌≡◌, refl, sym, ap, lt→ltb, ◌∙◌, Bool, true, false, not, ◌&&◌, ◌||◌, List,
  [], ◌∷◌, ◌++◌, length, length-append, set, if◌then◌else◌, inl, inr, Bool-cases, arith,
}
use toshokan.Base.Int.{ℤ, pos, negsuc, pos_part}
use toshokan.FriendLoader.Apic.{Event, down}
use toshokan.FriendLoader.Kernel.{Code, zero_code, minus_one}
use toshokan.FriendLoader.Hotplug.{
  Machine, count_cpus, fresh_list, is_target, fill_list, Unplugged, down_all, is_cpu, down_list,
}

-- The processors that an array lists, and those that are to be listed.
unfoldable pub cpus_of : List ℤ → List ℕ
cpus_of [] = []
cpus_of (x ∷ xs) = if is_cpu x then pos_part x ∷ cpus_of xs else cpus_of xs

unfoldable pub targets : Machine → List ℕ → List ℕ
targets m [] = []
targets m (cpu ∷ cpus) = if is_target m cpu then cpu ∷ targets m cpus else targets m cpus

-- The events of cpu_down on some processors, in order, after those of `t`.
pub downs : List ℕ → List Event → List Event
downs [] t = t
downs (c ∷ cs) t = downs cs (down c ∷ t)

-- Whether cpu_down succeeds on each of them.
unfoldable pub all_go_down : Machine → List ℕ → List Event → Bool
all_go_down m [] t = true
all_go_down m (c ∷ cs) t = not (m.down_fails t c) && all_go_down m cs (down c ∷ t)

pub count_cpus-cpus_of : (l : List ℤ) → count_cpus l ≡ length (cpus_of l)
unfolding count_cpus cpus_of
count_cpus-cpus_of [] = refl
count_cpus-cpus_of (x ∷ xs) = elim (Bool-cases (is_cpu x)) [
  | inl e ↦ rw e (ap suc (count_cpus-cpus_of xs))
  | inr e ↦ rw e (count_cpus-cpus_of xs)
]

down_all-trace :
    (m : Machine) (l : List ℤ) (u : Unplugged) → (down_all m l u).trace ≡ downs (cpus_of l) u.trace
unfolding down_all cpus_of downs
down_all-trace m [] u = refl
down_all-trace m (x ∷ xs) u = elim (Bool-cases (is_cpu x)) [
  | inl e ↦ rw e (down_all-trace m xs _)
  | inr e ↦ rw e (down_all-trace m xs u)
]

abbrev pub is_empty {ℓ} : {A : Type ℓ} → List A → Bool
is_empty [] = true
is_empty (x ∷ xs) = false

or-true : (b : Bool) → (b || true) ≡ true
or-true true = refl
or-true false = refl

down_all-flag :
    (m : Machine) (l : List ℤ) (u : Unplugged)
    → (down_all m l u).unpluged_flag ≡ (not (is_empty (cpus_of l)) || u.unpluged_flag)
unfolding down_all cpus_of
down_all-flag m [] u = refl
down_all-flag m (x ∷ xs) u = elim (Bool-cases (is_cpu x)) [
  | inl e ↦ rw e (down_all-flag m xs _ ∙ or-true (not (is_empty (cpus_of xs))))
  | inr e ↦ rw e (down_all-flag m xs u)
]

down_all-failed :
    (m : Machine) (l : List ℤ) (t : List Event) (b : Bool)
    → (down_all m l (record { unpluged_flag = b; ret1 = minus_one; trace = t })).ret1 ≡ minus_one
unfolding down_all
down_all-failed m [] t b = refl
down_all-failed m (x ∷ xs) t b = elim (Bool-cases (is_cpu x)) [
  | inl e ↦ elim (Bool-cases (m.down_fails t (pos_part x))) [
    | inl d ↦ rw (e, d) (down_all-failed m xs _ _)
    | inr d ↦ rw (e, d) (down_all-failed m xs _ _)
  ]
  | inr e ↦ rw e (down_all-failed m xs t b)
]

down_all-ret1 :
    (m : Machine) (l : List ℤ) (t : List Event) (b : Bool)
    → (down_all m l (record { unpluged_flag = b; ret1 = zero_code; trace = t })).ret1
      ≡ (if all_go_down m (cpus_of l) t then zero_code else minus_one)
unfolding down_all cpus_of all_go_down
down_all-ret1 m [] t b = refl
down_all-ret1 m (x ∷ xs) t b = elim (Bool-cases (is_cpu x)) [
  | inl e ↦ elim (Bool-cases (m.down_fails t (pos_part x))) [
    | inl d ↦ rw (e, d) (down_all-failed m xs _ _)
    | inr d ↦ rw (e, d) (down_all-ret1 m xs _ _)
  ]
  | inr e ↦ rw e (down_all-ret1 m xs t b)
]

-- Where the array is filled up to `i`, and the rest is -1.
cpus_of-fresh : (n : ℕ) → cpus_of (fresh_list n) ≡ []
unfolding cpus_of fresh_list
cpus_of-fresh zero = refl
cpus_of-fresh (suc n) = cpus_of-fresh n

append_assoc {ℓ} : {A : Type ℓ} (xs ys zs : List A) → (xs ++ ys) ++ zs ≡ xs ++ (ys ++ zs)
append_assoc [] ys zs = refl
append_assoc (x ∷ xs) ys zs = ap (λ l. x ∷ l) (append_assoc xs ys zs)

cpus_of-append : (xs ys : List ℤ) → cpus_of (xs ++ ys) ≡ cpus_of xs ++ cpus_of ys
unfolding cpus_of
cpus_of-append [] ys = refl
cpus_of-append (x ∷ xs) ys = elim (Bool-cases (is_cpu x)) [
  | inl e ↦ rw e (ap (λ l. pos_part x ∷ l) (cpus_of-append xs ys))
  | inr e ↦ rw e (cpus_of-append xs ys)
]

set-append :
    (xs : List ℤ) (x y : ℤ) (ys : List ℤ) → set (xs ++ (x ∷ ys)) (length xs) y ≡ xs ++ (y ∷ ys)
set-append [] x y ys = refl
set-append (z ∷ xs) x y ys = ap (λ l. z ∷ l) (set-append xs x y ys)

cpus_of-target : (m : Machine) (c : ℕ) → is_target m c ≡ true → cpus_of (pos c ∷ []) ≡ c ∷ []
unfolding cpus_of
cpus_of-target m zero e = absurd (grind arith)
cpus_of-target m (suc c) e = rw (lt→ltb 0 (suc c + 0) (omega arith)) refl

-- The next processor in the first free place.
fill_step :
    (m : Machine) (c : ℕ) (cs : List ℕ) (xs : List ℤ) (k : ℕ)
    → is_target m c ≡ true
    → cpus_of (fill_list m cs (length (xs ++ (pos c ∷ []))) ((xs ++ (pos c ∷ [])) ++ fresh_list k))
      ≡ cpus_of (xs ++ (pos c ∷ [])) ++ targets m cs
    → cpus_of (fill_list m cs (length xs + 1) (set (xs ++ fresh_list (suc k)) (length xs) (pos c)))
      ≡ cpus_of xs ++ (c ∷ targets m cs)
unfolding fresh_list
fill_step m c cs xs k e rest =
    let place : set (xs ++ (negsuc 0 ∷ fresh_list k)) (length xs) (pos c)
        ≡ (xs ++ (pos c ∷ [])) ++ fresh_list k =
      set-append xs (negsuc 0) (pos c) (fresh_list k)
      ∙ sym (append_assoc xs (pos c ∷ []) (fresh_list k)) in
    let index : length xs + 1 ≡ length (xs ++ (pos c ∷ [])) = sym (length-append xs (pos c ∷ [])) in
    let entries : cpus_of (xs ++ (pos c ∷ [])) ≡ cpus_of xs ++ (c ∷ []) =
      cpus_of-append xs (pos c ∷ []) ∙ ap (λ l. cpus_of xs ++ l) (cpus_of-target m c e) in
    rw (place, index)
      (rest
        ∙ ap (λ l. l ++ targets m cs) entries
        ∙ append_assoc (cpus_of xs) (c ∷ []) (targets m cs))

pub fill_list-cpus :
    (m : Machine) (cpus : List ℕ) (xs : List ℤ) (n : ℕ)
    → length (targets m cpus) ≤ n
    → cpus_of (fill_list m cpus (length xs) (xs ++ fresh_list n)) ≡ cpus_of xs ++ targets m cpus
unfolding fill_list targets
fill_list-cpus m [] xs n h =
    cpus_of-append xs (fresh_list n) ∙ ap (λ l. cpus_of xs ++ l) (cpus_of-fresh n)
fill_list-cpus m (c ∷ cs) xs zero h = elim (Bool-cases (is_target m c)) [
  | inr e ↦
      let count : targets m (c ∷ cs) ≡ targets m cs = rw e refl in
      rw e (fill_list-cpus m cs xs zero (omega (arith, h, ap length count)))
  | inl e ↦
      let count : targets m (c ∷ cs) ≡ c ∷ targets m cs = rw e refl in
      absurd (omega (arith, h, ap length count))
]
fill_list-cpus m (c ∷ cs) xs (suc k) h = elim (Bool-cases (is_target m c)) [
  | inr e ↦
      let count : targets m (c ∷ cs) ≡ targets m cs = rw e refl in
      rw e (fill_list-cpus m cs xs (suc k) (omega (arith, h, ap length count)))
  | inl e ↦
      let count : targets m (c ∷ cs) ≡ c ∷ targets m cs = rw e refl in
      rw e (
        fill_step m c cs xs k e
          (fill_list-cpus m cs (xs ++ (pos c ∷ [])) k (omega (arith, h, ap length count))))
]

pub down_list_lem :
    (m : Machine) (l : List ℤ) (t : List Event)
    → down_list m l t ≡ (
      if not (is_empty (cpus_of l)) && all_go_down m (cpus_of l) t then zero_code else minus_one,
      downs (cpus_of l) t,
    )
unfolding down_list
down_list_lem m l t =
    rw
      (
        down_all-flag m l (record { unpluged_flag = false; ret1 = zero_code; trace = t }),
        down_all-ret1 m l t false,
        down_all-trace m l (record { unpluged_flag = false; ret1 = zero_code; trace = t }),
      )
      (outcome (is_empty (cpus_of l)) (all_go_down m (cpus_of l) t))
  where
    outcome :
        (x y : Bool)
        → ◌≡◌ {A = Code × List Event}
            (
              if not x || false then (if y then zero_code else minus_one) else minus_one,
              downs (cpus_of l) t,
            )
            (if not x && y then zero_code else minus_one, downs (cpus_of l) t)
    outcome true y = refl
    outcome false true = refl
    outcome false false = refl
