-- ===== src/FriendLoader/Hotplug/Starting.antt =====
-- What starting a core sends, and what cpu_start reports.
use toshokan.Base.{
  ℕ, ◌+◌, ◌^◌, ◌⊎◌, ◌≢◌, ◌≤◌, ◌≡◌, refl, ◌∙◌, Bool, true, false, not, ◌&&◌, ◌||◌, List, ◌∷◌, leb,
  ◌==◌, if◌then◌else◌, inl, inr, Bool-cases, arith,
}
use toshokan.Layout.{trampoline_addr}
use toshokan.FriendLoader.Apic.{
  Event, preempt_disable, down, setup_warm_reset_vector, wakeup_secondary_cpu, commands,
}
use toshokan.FriendLoader.Apic.Wakeup.{
  IsWoken, wakeup_secondary_cpu-commands, wakeup_secondary_cpu-positive,
}
use toshokan.FriendLoader.Kernel.{Code, zero_code, minus_one}
use toshokan.FriendLoader.Hotplug.{Machine, wake, try_start, cpu_start, cpudevice_open}

-- The core is there, is none that Linux keeps, and is not the boot processor.
abbrev pub is_startable : Machine → ℕ → List Event → Bool
is_startable m i t =
    m.present i
    && not (m.online t i && m.down_fails t i)
    && not (i == 0 || m.cpu_present_to_apicid i == 0)

-- What is answered and which commands are sent, after `t`, when core `i` is to be started.
pub data Outcome (m : Machine) (i : ℕ) (t : List Event) (r : Code × List Event) : Type 0 where
  refused :
      is_startable m i t ≡ false → r.0 ≡ minus_one → commands r.1 ≡ commands t → Outcome m i t r
  started :
      is_startable m i t ≡ true
      → r.0 ≡ zero_code
      → (status : ℕ)
      → IsWoken m.apic (m.cpu_present_to_apicid i) 0x70 (commands t) (commands r.1) status
      → Outcome m i t r

-- The events before the core is looked at.
abbrev pub prologue : Machine → List Event → List Event
prologue m t =
    preempt_disable ∷ (if m.non_unique_apic then t else setup_warm_reset_vector trampoline_addr t)

commands-prologue : (m : Machine) (t : List Event) → commands (prologue m t) ≡ commands t
unfolding commands setup_warm_reset_vector
commands-prologue m t = elim (Bool-cases m.non_unique_apic) [
  | inl e ↦ rw e refl
  | inr e ↦ rw e refl
]

wake-startable :
    (m : Machine) (i : ℕ) (t : List Event)
    → ((u : List Event) → m.apic.idle u ≤ 0x1000)
    → (i == 0 || m.cpu_present_to_apicid i == 0) ≡ false
    → ((wake m i t).0 ≡ zero_code)
      × ((status : ℕ) × IsWoken m.apic
            (m.cpu_present_to_apicid i)
            0x70
            (commands t)
            (commands (wake m i t).1)
            status)
unfolding wake
wake-startable m i t h e =
    let p = m.cpu_present_to_apicid i in
    let low = wakeup_secondary_cpu-positive m.apic p trampoline_addr t h in
    let q : leb (2 ^ 31) (wakeup_secondary_cpu m.apic p trampoline_addr t).0 ≡ false =
      grind arith in
    rw (e, q)
      (
        refl,
        (_, wakeup_secondary_cpu-commands m.apic p trampoline_addr t (λ u. omega (arith, h u))),
      )

wake-refused :
    (m : Machine) (i : ℕ) (t : List Event)
    → (i == 0 || m.cpu_present_to_apicid i == 0) ≡ true
    → wake m i t ≡ (minus_one, t)
unfolding wake
wake-refused m i t e = rw e refl

try_start-Outcome :
    (m : Machine) (i : ℕ) (t : List Event)
    → ((u : List Event) → m.apic.idle u ≤ 0x1000)
    → Outcome m i t (try_start m i t)
unfolding try_start commands
try_start-Outcome m i t h =
    let no_boot : Bool = i == 0 || m.cpu_present_to_apicid i == 0 in
    elim (Bool-cases (m.present i)) [
      | inr p ↦ rw p (refused (rw p refl) refl refl)
      | inl p ↦ elim (Bool-cases (m.online t i)) [
        | inl o ↦ elim (Bool-cases (m.down_fails t i)) [
          | inl d ↦ rw (p, o, d) (refused (rw (p, o, d) refl) refl refl)
          | inr d ↦ elim (Bool-cases no_boot) [
            | inl b ↦
                rw (p, o, d, wake-refused m i (down i ∷ t) b)
                  (refused (rw (p, o, d, b) refl) refl refl)
            | inr b ↦
                let w = wake-startable m i (down i ∷ t) h b in
                rw (p, o, d) (started (rw (p, o, d, b) refl) w.0 w.1.0 w.1.1)
          ]
        ]
        | inr o ↦ elim (Bool-cases no_boot) [
          | inl b ↦ rw (p, o, wake-refused m i t b) (refused (rw (p, o, b) refl) refl refl)
          | inr b ↦
              let w = wake-startable m i t h b in
              rw (p, o) (started (rw (p, o, b) refl) w.0 w.1.0 w.1.1)
        ]
      ]
    ]

-- Where a wait gives no more than the busy bit of the command register: cpu_start returns -1 and
-- sends nothing to any core if the core is not there, cannot be taken from Linux, or is the boot
-- processor; otherwise it sends that core the commands that start it at the trampoline, and returns
-- 0, also where the APIC has reported that they were not delivered.
pub cpu_start_lem :
    (m : Machine) (i : ℕ) (t : List Event)
    → ((u : List Event) → m.apic.idle u ≤ 0x1000)
    → Outcome m i (prologue m t) (cpu_start m i t)
unfolding cpu_start commands
cpu_start_lem m i t h = elim (try_start-Outcome m i (prologue m t) h) [
  | refused a b c ↦ refused a b c
  | started a b s c ↦ started a b s c
]

-- Under the same condition: to open the file of a core returns 0 in any case, and sends commands to
-- no processor but the one with the next number, by the identifier of its APIC, which is not 0 then.
pub cpudevice_open-commands :
    (m : Machine) (minor : ℕ) (t : List Event)
    → ((u : List Event) → m.apic.idle u ≤ 0x1000)
    → let p = m.cpu_present_to_apicid (minor + 1) in
      let (c, t') = cpudevice_open m minor t in
      (c ≡ zero_code)
      × ((commands t' ≡ commands t)
          ⊎ ((p ≢ 0) × ((status : ℕ) × IsWoken m.apic p 0x70 (commands t) (commands t') status)))
unfolding cpudevice_open
cpudevice_open-commands m minor t h = elim (cpu_start_lem m (minor + 1) t h) [
  | refused _ _ c ↦ (refl, inl (c ∙ commands-prologue m t))
  | started a _ s w ↦ (refl, inr (no_boot a, (s, rw⁻¹ (commands-prologue m t) w)))
]
  where
    no_boot :
        is_startable m (minor + 1) (prologue m t) ≡ true → m.cpu_present_to_apicid (minor + 1) ≢ 0
    no_boot a = ground arith
