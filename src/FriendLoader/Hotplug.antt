-- ===== src/FriendLoader/Hotplug.antt =====
-- The rest of FriendLoader/cpu_hotplug.c, and what opening and closing the file of a core does
-- (FriendLoader/cpudevice.c). Functions take the trace so far and give the longer one.
pub mod Starting
pub mod Listing
pub mod Unplugging
mod Tests
use toshokan.Base.{
  ℕ, zero, suc, ◌+◌, ◌^◌, Bool, true, false, not, ◌&&◌, ◌||◌, List, [], ◌∷◌, set, Option, none,
  some, ltb, leb, ◌==◌, if◌then◌else◌,
}
use toshokan.Base.Int.{ℤ, pos, negsuc, pos_part, ltb_ℤ}
use toshokan.Layout.{trampoline_addr}
use toshokan.FriendLoader.Apic.{
  Event, preempt_disable, preempt_enable, down, up, Apic, setup_warm_reset_vector,
  wakeup_secondary_cpu,
}
use toshokan.FriendLoader.Kernel.{Code, zero_code, minus_one}

-- The hardware, and what the kernel answers: whether get_uv_system_type() gives
-- UV_NON_UNIQUE_APIC, cpu_present, cpu_online, whether cpu_down and cpu_up fail, the identifiers of
-- the APICs, num_possible_cpus(), the processors that for_each_online_cpu visits,
-- cpu_is_hotpluggable, and whether kmalloc fails.
pub record Machine : Type 0 where
  pub apic : Apic
  pub non_unique_apic : Bool
  pub present : ℕ → Bool
  pub online : List Event → ℕ → Bool
  pub down_fails : List Event → ℕ → Bool
  pub up_fails : List Event → ℕ → Bool
  pub cpu_present_to_apicid : ℕ → ℕ
  pub possible : ℕ
  pub online_cpus : List ℕ
  pub hotpluggable : ℕ → Bool
  pub kmalloc_fails : Bool

-- From the identifier of the APIC on. `< 0` is a test of an `int`.
pub wake : Machine → ℕ → List Event → Code × List Event
wake m i t =
    let apicid = m.cpu_present_to_apicid i in
    let (r, t') = wakeup_secondary_cpu m.apic apicid trampoline_addr t in
    if i == 0 || apicid == 0
    then (minus_one, t)
    else if leb (2 ^ 31) r
    then (minus_one, t')
    else (zero_code, t')

-- The body of `do { … } while (0)`.
pub try_start : Machine → ℕ → List Event → Code × List Event
unfolding wake
try_start m i t =
    if not (m.present i)
    then (minus_one, t)
    else if m.online t i
    then (if m.down_fails t i then (minus_one, down i ∷ t) else wake m i (down i ∷ t))
    else wake m i t

pub cpu_start : Machine → ℕ → List Event → Code × List Event
unfolding try_start
cpu_start m i t =
    let t₁ = if m.non_unique_apic then t else setup_warm_reset_vector trampoline_addr t in
    let (rval, t₂) = try_start m i (preempt_disable ∷ t₁) in (rval, preempt_enable ∷ t₂)

pub cpu_replug : Machine → ℕ → List Event → Code × List Event
cpu_replug m i t = (if m.up_fails t i then minus_one else zero_code, up i ∷ t)

-- Either handler prints the outcome and returns 0. `minor` is that of the file, and MINOR_BASE is 0.
pub cpudevice_open : Machine → ℕ → List Event → Code × List Event
unfolding cpu_start
cpudevice_open m minor t = (zero_code, (cpu_start m (minor + 1) t).1)

pub cpudevice_close : Machine → ℕ → List Event → Code × List Event
unfolding cpu_replug
cpudevice_close m minor t = (zero_code, (cpu_replug m (minor + 1) t).1)

-- `unpluged_cpu_list`, an array of num_possible_cpus() entries once it is there.
abbrev pub CpuList : Type 0
CpuList = Option (List ℤ)

abbrev is_cpu : ℤ → Bool
is_cpu x = ltb_ℤ (pos 0) x

pub count_cpus : List ℤ → ℕ
count_cpus [] = 0
count_cpus (x ∷ xs) = if is_cpu x then suc (count_cpus xs) else count_cpus xs

pub get_cpu_num : CpuList → ℤ
unfolding count_cpus
get_cpu_num none = negsuc 0
get_cpu_num (some l) = pos (count_cpus l)

-- kmalloc and memset: every entry is -1.
pub fresh_list : ℕ → List ℤ
fresh_list zero = []
fresh_list (suc n) = negsuc 0 ∷ fresh_list n

abbrev pub is_target : Machine → ℕ → Bool
is_target m cpu = not (cpu == 0) && m.hotpluggable cpu

-- The loop over the online processors. A write beyond the array is not modelled.
pub fill_list : Machine → List ℕ → ℕ → List ℤ → List ℤ
fill_list m [] i l = l
fill_list m (cpu ∷ cpus) i l =
    if is_target m cpu then fill_list m cpus (i + 1) (set l i (pos cpu)) else fill_list m cpus i l

pub record Unplugged : Type 0 where
  pub unpluged_flag : Bool
  pub ret1 : Code
  pub trace : List Event

-- The loop over cpu_down.
pub down_all : Machine → List ℤ → Unplugged → Unplugged
down_all m [] u = u
down_all m (x ∷ xs) u =
    let cpu = pos_part x in
    if is_cpu x
    then down_all m xs (record {
      unpluged_flag = true;
      ret1 = if m.down_fails u.trace cpu then minus_one else u.ret1;
      trace = down cpu ∷ u.trace;
    })
    else down_all m xs u

-- The second half of cpu_unplug.
abbrev pub down_list : Machine → List ℤ → List Event → Code × List Event
unfolding down_all
down_list m l t =
    let u = down_all m l (record { unpluged_flag = false; ret1 = zero_code; trace = t }) in
    (if u.unpluged_flag then u.ret1 else minus_one, u.trace)

pub cpu_unplug : Machine → CpuList → List Event → Code × CpuList × List Event
unfolding fill_list fresh_list
cpu_unplug m none t =
    let l = fill_list m m.online_cpus 0 (fresh_list m.possible) in
    let (c, t') = down_list m l t in
    if m.kmalloc_fails then (minus_one, none, t) else (c, some l, t')
cpu_unplug m (some l) t = let (c, t') = down_list m l t in (c, some l, t')
