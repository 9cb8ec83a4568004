-- ===== src/FriendLoader/Apic/Wakeup.antt =====
-- Which interprocessor interrupts start a core, and what the function returns.
use Prim.Native.Nat.{bit_or}
use toshokan.Base.{
  ℕ, zero, suc, ◌-◌, ◌/◌, ◌%◌, ◌^◌, ◌<◌, ◌≤◌, ◌≡◌, ◌≢◌, ◌⊎◌, inl, inr, refl, ap, ◌∙◌, true, false,
  not, ◌||◌, List, ◌∷◌, ltb, ◌==◌, if◌then◌else◌, Bool-cases, arith,
}
use toshokan.FriendLoader.Apic.{
  Command, assert_init, deassert_init, startup, Event, Apic, clear_esr, Sent, send_startup,
  is_failed, startup_loop, send_init, wakeup_secondary_cpu, commands,
}
use toshokan.Base.Masks.{bit_and-le, bit_or-lt, bit_or-ge}

commands-clear_esr : (a : Apic) (t : List Event) → commands (clear_esr a t) ≡ commands t
unfolding commands
commands-clear_esr a t = elim (Bool-cases (ltb 3 a.maxlvt)) [
  | inl e ↦ rw e refl
  | inr e ↦ rw e refl
]

-- One more STARTUP.
commands-send_startup :
    (a : Apic) (p e : ℕ) (t : List Event)
    → commands (send_startup a p e t).trace ≡ (startup (e / 2 ^ 12), p) ∷ commands t
unfolding send_startup commands
commands-send_startup a p e t = elim (Bool-cases (ltb 3 a.maxlvt)) [
  | inl q ↦ rw q refl
  | inr q ↦ rw q refl
]

commands-send_init :
    (a : Apic) (p : ℕ) (t : List Event)
    → commands (send_init a p t).trace ≡ (deassert_init, p) ∷ (assert_init, p) ∷ commands t
unfolding send_init commands
commands-send_init a p t = elim (Bool-cases a.integrated) [
  | inl e ↦ rw (e, commands-clear_esr a t) refl
  | inr e ↦ rw e refl
]

-- Every result of the loop is one of its rounds', or what it started from.
startup_loop-bounded :
    (a : Apic) (p e n b : ℕ) (s : Sent)
    → ((u : List Event) → a.idle u ≤ b)
    → s.send_status ≤ b
    → s.accept_status ≤ 0xEF
    → ((startup_loop a p e n s).send_status ≤ b) × ((startup_loop a p e n s).accept_status ≤ 0xEF)
unfolding startup_loop send_startup
startup_loop-bounded a p e zero b s h x y = (x, y)
startup_loop-bounded a p e (suc n) b s h x y =
    elim (Bool-cases (is_failed (send_startup a p e s.trace))) [
      | inl f ↦ rw f (h _, bit_and-le _ _)
      | inr f ↦ rw f (startup_loop-bounded a p e n b _ h (h _) (bit_and-le _ _))
    ]

-- Two rounds, or one that has failed.
startup_loop-commands :
    (a : Apic) (p e : ℕ) (s : Sent)
    → (commands (startup_loop a p e 2 s).trace
        ≡ (startup (e / 2 ^ 12), p) ∷ (startup (e / 2 ^ 12), p) ∷ commands s.trace)
      ⊎ ((commands (startup_loop a p e 2 s).trace ≡ (startup (e / 2 ^ 12), p) ∷ commands s.trace)
          × (is_failed (startup_loop a p e 2 s) ≡ true))
unfolding startup_loop
startup_loop-commands a p e s =
    let s₁ : Sent = send_startup a p e s.trace in
    let s₂ : Sent = send_startup a p e s₁.trace in
    elim (Bool-cases (is_failed s₁)) [
      | inl f ↦ inr (rw f (commands-send_startup a p e s.trace), rw f f)
      | inr f ↦ elim (Bool-cases (is_failed s₂)) [
        | inl g ↦ inl (
            rw (f, g, commands-send_startup a p e s₁.trace, commands-send_startup a p e s.trace)
              refl)
        | inr g ↦ inl (
            rw (f, g, commands-send_startup a p e s₁.trace, commands-send_startup a p e s.trace)
              refl)
      ]
    ]

send_init-bounded :
    (a : Apic) (p : ℕ) (t : List Event)
    → ((u : List Event) → a.idle u < 2 ^ 32)
    → ((send_init a p t).send_status < 2 ^ 32) × ((send_init a p t).accept_status ≤ 0xEF)
unfolding send_init
send_init-bounded a p t h = (h _, omega arith)

failed-result :
    (x y : ℕ)
    → x < 2 ^ 32
    → y ≤ 0xEF
    → (not (x == 0) || not (y == 0)) ≡ true
    → bit_or x y % 2 ^ 32 ≢ 0
failed-result x y p q h =
    let low = bit_or-lt 32 x y p (omega arith) in let high = bit_or-ge x y in ground arith

-- The commands that start processor `p` at page `v`, given those before, and the result: an INIT
-- that is asserted and then deasserted and, where the APIC is integrated, two STARTUPs, or one where
-- the result is an error.
pub data IsWoken (a : Apic) (p v : ℕ) (old new : List (Command × ℕ)) (r : ℕ) : Type 0 where
  no_startup :
      a.integrated ≡ false
      → new ≡ (deassert_init, p) ∷ (assert_init, p) ∷ old
      → IsWoken a p v old new r
  one_startup :
      a.integrated ≡ true
      → new ≡ (startup v, p) ∷ (deassert_init, p) ∷ (assert_init, p) ∷ old
      → r ≢ 0
      → IsWoken a p v old new r
  two_startups :
      a.integrated ≡ true
      → new ≡ (startup v, p) ∷ (startup v, p) ∷ (deassert_init, p) ∷ (assert_init, p) ∷ old
      → IsWoken a p v old new r

-- Starting a core sends an INIT that is asserted and then deasserted, to the given processor alone,
-- and, where the APIC is integrated, STARTUPs with the page number of `start_eip`: two, or only one
-- where sending that one was reported to have failed, and then the result is not 0.
pub wakeup_secondary_cpu-commands :
    (a : Apic) (p e : ℕ) (t : List Event)
    → ((u : List Event) → a.idle u < 2 ^ 32)
    → IsWoken a p
        (e / 2 ^ 12)
        (commands t)
        (commands (wakeup_secondary_cpu a p e t).1)
        (wakeup_secondary_cpu a p e t).0
unfolding wakeup_secondary_cpu
wakeup_secondary_cpu-commands a p e t h = elim (Bool-cases a.integrated) [
  | inr i ↦
      let num : ◌≡◌ {A = ℕ} (if a.integrated then 2 else 0) 0 = ap (λ b. if b then 2 else 0) i in
      rw num (no_startup i (commands-send_init a p t))
  | inl i ↦
      let two : ℕ = 2 in
      let num : ◌≡◌ {A = ℕ} (if a.integrated then two else 0) two =
        ap (λ b. if b then two else 0) i in
      rw num (elim (startup_loop-commands a p e (send_init a p t)) [
        | inl both ↦ two_startups i (
            both
            ∙ ap (λ c. (startup (e / 2 ^ 12), p) ∷ (startup (e / 2 ^ 12), p) ∷ c)
                (commands-send_init a p t))
        | inr (one, f) ↦
            one_startup i (one ∙ ap (λ c. (startup (e / 2 ^ 12), p) ∷ c) (commands-send_init a p t))
              (nonzero f)
      ])
]
  where
    s : Sent
    s = startup_loop a p e 2 (send_init a p t)

    start : ((send_init a p t).send_status < 2 ^ 32) × ((send_init a p t).accept_status ≤ 0xEF)
    start = send_init-bounded a p t h

    bounds : (s.send_status ≤ 2 ^ 32 - 1) × (s.accept_status ≤ 0xEF)
    bounds =
        startup_loop-bounded a p e 2 (2 ^ 32 - 1) (send_init a p t) (λ u. omega (arith, h u))
          (omega (arith, start.0)) start.1

    nonzero : is_failed s ≡ true → bit_or s.send_status s.accept_status % 2 ^ 32 ≢ 0
    nonzero f = failed-result s.send_status s.accept_status (omega (arith, bounds.0)) bounds.1 f

-- The result is never negative, as an `int`, if a wait gives no more than the busy bit of the
-- command register.
pub wakeup_secondary_cpu-positive :
    (a : Apic) (p e : ℕ) (t : List Event)
    → ((u : List Event) → a.idle u ≤ 0x1000)
    → (wakeup_secondary_cpu a p e t).0 < 2 ^ 31
unfolding wakeup_secondary_cpu send_init
wakeup_secondary_cpu-positive a p e t h =
    let s : Sent = startup_loop a p e (if a.integrated then 2 else 0) (send_init a p t) in
    let b =
      startup_loop-bounded a p e (if a.integrated then 2 else 0) 0x1000 (send_init a p t) h (h _)
        (omega arith) in
    let low =
      bit_or-lt 31 s.send_status s.accept_status (omega (arith, b.0)) (omega (arith, b.1)) in
    omega (arith, low)
