-- ===== src/FriendLoader/Hotplug/Tests.antt =====
-- A machine of four processors; number 2 cannot be unplugged. The APIC reports an error for each
-- STARTUP.
use toshokan.Base.{ℕ, ◌+◌, ◌≡◌, ◌≢◌, ◌⊎◌, refl, true, false, not, [], ◌∷◌, ◌==◌, arith}
use toshokan.FriendLoader.Apic.{
  assert_init, deassert_init, startup, Apic, commands, wakeup_secondary_cpu, send_init,
  startup_loop, send_startup,
}
use toshokan.FriendLoader.Apic.Wakeup.{IsWoken, wakeup_secondary_cpu-commands}
use toshokan.FriendLoader.Kernel.{zero_code}
use toshokan.FriendLoader.Hotplug.{Machine, cpu_start, cpudevice_open}
use toshokan.FriendLoader.Hotplug.Starting.{
  Outcome, prologue, cpu_start_lem, cpudevice_open-commands,
}

abbrev apic : Apic
apic = record { maxlvt = 5; integrated = true; idle = λ _. 0; esr = λ _. 4 }

abbrev machine : Machine
machine = record {
  apic = apic;
  non_unique_apic = false;
  present = λ i. true;
  online = λ _ i. true;
  down_fails = λ _ i. i == 2;
  up_fails = λ _ _. false;
  cpu_present_to_apicid = λ i. i + i;
  possible = 4;
  online_cpus = 0 ∷ 1 ∷ 2 ∷ 3 ∷ [];
  hotpluggable = λ i. not (i == 2);
  kmalloc_fails = false;
}

-- The loop stops after the STARTUP that has failed.
one_sent :
    commands (wakeup_secondary_cpu apic 2 0x7_0000 []).1
    ≡ (startup 0x70, 2) ∷ (deassert_init, 2) ∷ (assert_init, 2) ∷ []
unfolding wakeup_secondary_cpu send_init startup_loop send_startup commands
one_sent = refl

wakeup_secondary_cpu-commands_example :
    IsWoken apic 2 0x70 []
      (commands (wakeup_secondary_cpu apic 2 0x7_0000 []).1)
      (wakeup_secondary_cpu apic 2 0x7_0000 []).0
unfolding commands
wakeup_secondary_cpu-commands_example =
    wakeup_secondary_cpu-commands apic 2 0x7_0000 [] (λ _. omega arith)

cpu_start_lem_example : Outcome machine 1 (prologue machine []) (cpu_start machine 1 [])
cpu_start_lem_example = cpu_start_lem machine 1 [] (λ _. omega arith)

cpudevice_open-commands_example :
    let (c, t') = cpudevice_open machine 0 [] in
    (c ≡ zero_code)
    × ((commands t' ≡ commands [])
        ⊎ ((machine.cpu_present_to_apicid 1 ≢ 0)
            × ((status : ℕ) × IsWoken apic 2 0x70 (commands []) (commands t') status)))
cpudevice_open-commands_example = cpudevice_open-commands machine 0 [] (λ _. omega arith)
