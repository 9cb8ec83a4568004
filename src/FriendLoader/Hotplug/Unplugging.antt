-- ===== src/FriendLoader/Hotplug/Unplugging.antt =====
-- What cpu_unplug does and get_cpu_num counts.
use toshokan.Base.{◌≤◌, ◌≡◌, ap, ◌∙◌, false, not, ◌&&◌, List, [], length, none, if◌then◌else◌}
use toshokan.Base.Int.{pos}
use toshokan.FriendLoader.Apic.{Event}
use toshokan.FriendLoader.Kernel.{zero_code, minus_one}
use toshokan.FriendLoader.Hotplug.{Machine, get_cpu_num, fresh_list, fill_list, cpu_unplug}
use toshokan.FriendLoader.Hotplug.Listing.{
  cpus_of, targets, downs, all_go_down, is_empty, count_cpus-cpus_of, fill_list-cpus, down_list_lem,
}

-- A further call takes the same processors down once more, whatever is online by then, and leaves
-- their number as it is.
pub cpu_unplug-again :
    (m m' : Machine) (t u : List Event)
    → m.kmalloc_fails ≡ false
    → length (targets m m.online_cpus) ≤ m.possible
    → let cpus = targets m m.online_cpus in
      let (c, l, t') = cpu_unplug m' (cpu_unplug m none t).1 u in
      (t' ≡ downs cpus u)
      × (get_cpu_num l ≡ pos (length cpus))
      × (c ≡ (if not (is_empty cpus) && all_go_down m' cpus u then zero_code else minus_one))
unfolding cpu_unplug get_cpu_num targets cpus_of
cpu_unplug-again m m' t u a h =
    let l = fill_list m m.online_cpus 0 (fresh_list m.possible) in
    let e = fill_list-cpus m m.online_cpus [] m.possible h in
    rw a (
      ap (λ r. r.1) (down_list_lem m' l u) ∙ ap (λ cpus. downs cpus u) e,
      ap pos (count_cpus-cpus_of l ∙ ap length e),
      ap (λ r. r.0) (down_list_lem m' l u)
          ∙ ap
              (λ cpus.
                if not (is_empty cpus) && all_go_down m' cpus u then zero_code else minus_one)
              e,
    )
