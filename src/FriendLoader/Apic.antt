-- ===== src/FriendLoader/Apic.antt =====
-- wakeup_secondary_cpu_via_init and smpboot_setup_warm_reset_vector of FriendLoader/cpu_hotplug.c:
-- what they write, as a list with the last event first. What the kernel and the hardware answer is
-- a function of the events so far.
pub mod Wakeup
use Prim.Native.Nat.{bit_and, bit_or}
use toshokan.Base.{
  ℕ, zero, suc, ◌/◌, ◌%◌, ◌^◌, Bool, not, ◌||◌, List, [], ◌∷◌, ltb, ◌==◌, if◌then◌else◌,
}

-- The command words that are given to apic_icr_write.
pub data Command : Type 0 where
  assert_init : Command  -- `APIC_INT_LEVELTRIG | APIC_INT_ASSERT | APIC_DM_INIT`
  deassert_init : Command  -- `APIC_INT_LEVELTRIG | APIC_DM_INIT`
  startup : (vector : ℕ) → Command  -- `APIC_DM_STARTUP | vector`

pub data Event : Type 0 where
  icr_write : (c : Command) (phys_apicid : ℕ) → Event
  wait_icr_idle : Event
  esr_write : Event
  esr_read : Event
  barrier : Event
  delay : (us : ℕ) → Event
  cmos_write : (val addr : ℕ) → Event
  trampoline_high : (word : ℕ) → Event
  trampoline_low : (word : ℕ) → Event
  preempt_disable : Event
  preempt_enable : Event
  down : (cpu : ℕ) → Event
  up : (cpu : ℕ) → Event

-- GET_APIC_MAXLVT, APIC_INTEGRATED, the results of safe_apic_wait_icr_idle (a `u32`), and the
-- values read from APIC_ESR.
pub record Apic : Type 0 where
  pub maxlvt : ℕ
  pub integrated : Bool
  pub idle : List Event → ℕ
  pub esr : List Event → ℕ

-- `init_udelay`, which nothing changes.
abbrev pub init_udelay : ℕ
init_udelay = 10000

unfoldable pub setup_warm_reset_vector : ℕ → List Event → List Event
setup_warm_reset_vector start_eip t =
    trampoline_low (bit_and start_eip 0xF)
    ∷ trampoline_high (start_eip / 2 ^ 4 % 2 ^ 16)
    ∷ cmos_write 0xA 0xF
    ∷ t

-- `if (maxlvt > 3) apic_write(APIC_ESR, 0);`
abbrev pub clear_esr : Apic → List Event → List Event
clear_esr a t = if ltb 3 a.maxlvt then esr_write ∷ t else t

-- The delay before the loop is as long as init_udelay says, those inside depend on its being 0.
abbrev pub short_delay : ℕ → Event
short_delay us = delay (if init_udelay == 0 then 10 else us)

pub record Sent : Type 0 where
  pub send_status : ℕ
  pub accept_status : ℕ
  pub trace : List Event

-- One round of the loop over STARTUP.
unfoldable pub send_startup : Apic → ℕ → ℕ → List Event → Sent
send_startup a phys_apicid start_eip t =
    let t₁ =
      short_delay 300
      ∷ icr_write (startup (start_eip / 2 ^ 12)) phys_apicid
      ∷ esr_read
      ∷ clear_esr a t in
    let t₂ = clear_esr a (short_delay 200 ∷ wait_icr_idle ∷ t₁) in
    record {
      send_status = a.idle t₁;
      accept_status = bit_and (a.esr t₂) 0xEF;
      trace = esr_read ∷ t₂;
    }

-- `if (send_status || accept_status) break;`
abbrev pub is_failed : Sent → Bool
is_failed s = not (s.send_status == 0) || not (s.accept_status == 0)

-- The loop, with the number of rounds left.
unfoldable pub startup_loop : Apic → ℕ → ℕ → ℕ → Sent → Sent
startup_loop a phys_apicid start_eip zero s = s
startup_loop a phys_apicid start_eip (suc n) s =
    let s' = send_startup a phys_apicid start_eip s.trace in
    let rest = startup_loop a phys_apicid start_eip n s' in if is_failed s' then s' else rest

-- Both INIT commands, up to `mb()`.
unfoldable pub send_init : Apic → ℕ → List Event → Sent
send_init a phys_apicid t =
    let t₁ = if a.integrated then esr_read ∷ clear_esr a t else t in
    let t₂ =
      icr_write deassert_init phys_apicid
      ∷ delay init_udelay
      ∷ wait_icr_idle
      ∷ icr_write assert_init phys_apicid
      ∷ t₁ in
    record { send_status = a.idle t₂; accept_status = 0; trace = barrier ∷ wait_icr_idle ∷ t₂ }

-- The result is converted from `unsigned long` to `int`: the lower 32 bits of it, here unsigned.
unfoldable pub wakeup_secondary_cpu : Apic → ℕ → ℕ → List Event → ℕ × List Event
unfolding send_init startup_loop
wakeup_secondary_cpu a phys_apicid start_eip t =
    let num_starts = if a.integrated then 2 else 0 in
    let s = startup_loop a phys_apicid start_eip num_starts (send_init a phys_apicid t) in
    (bit_or s.send_status s.accept_status % 2 ^ 32, s.trace)

-- The commands of a trace, the last one first, with the processors that they go to.
unfoldable pub commands : List Event → List (Command × ℕ)
commands [] = []
commands (icr_write c p ∷ t) = (c, p) ∷ commands t
commands (_ ∷ t) = commands t
