-- ===== src/Provider/Tests.antt =====
-- Runs of the collector's merge and rules on concrete states.
use proxmox_desk_display.Provider.Calls.{add_capability, api_error}
use proxmox_desk_display.Base.Text.{trim_space}
use proxmox_desk_display.Base.Text.{text_lt}
use proxmox_desk_display.Base.Text.{to_lower}
use proxmox_desk_display.Display.Health.{max_health}
use proxmox_desk_display.Display.Finalize.{finalize}
use proxmox_desk_display.Base.Text.{contains}
use proxmox_desk_display.Provider.Collect.{Sorter, IsSort, collect, max_capabilities}
use proxmox_desk_display.Provider.Rules.{apply_host_alerts, health_from_text, disk_health}
use proxmox_desk_display.Provider.Rules.HostAlerts.{IsRaised, apply_host_alerts-IsRaised}
use proxmox_desk_display.Provider.Rules.Capabilities.{IsRecorded, add_capability-IsRecorded}
use proxmox_desk_display.Provider.Zfs.{
  ZfsNode, ZfsChildren, pool_detail, no_child, child_then, zfs_device_counts,
}
use proxmox_desk_display.Display.Samples.{zero_host}
use proxmox_desk_display.Display.Health.{Health}
use proxmox_desk_display.Display.Hosts.{Host}
use proxmox_desk_display.Display.State.{State}
use proxmox_desk_display.Config.{mock_config}
use proxmox_desk_display.Base.Order.Laws.{sort_stable-perm, sort_stable-Ordered, length-sort_stable}
use proxmox_desk_display.Base.{
  [], ◌∷◌, some, none, true, refl, ◌≡◌, List, map, elems, ◌≤◌, ◌≢◌, any, length, ◌⊎◌, false-ne-true,
  sym, ap, false,
}
use proxmox_desk_display.Base.Order.{sort_stable}
use proxmox_desk_display.Base.Text.{codes, text_eq}
use proxmox_desk_display.Display.Finalize.{new_state}
use proxmox_desk_display.Base.Int.{pos}
use proxmox_desk_display.Display.Inventory.{Capability}
use proxmox_desk_display.Provider.Client.{Client}

-- The stable sort is one that package sort may be.
abbrev pub stable : Sorter
stable = record { sort = λ less xs. sort_stable less xs }

pub stable-IsSort : IsSort stable
stable-IsSort = record {
  perm = λ less xs. sort_stable-perm less xs;
  ordered = λ less w xs. sort_stable-Ordered less w xs;
  count = λ less xs. length-sort_stable less xs;
}

abbrev busy : Host
busy = record zero_host {
  id = codes "home/b";
  name = codes "b";
  online = true;
  memory_pct = 97;
  storage_pct = 82;
  health = Health.ok;
}

abbrev first_source : State
first_source = record (new_state (pos 7)) { hosts = some (busy ∷ []) }

abbrev second_source : State
second_source = record (new_state (pos 7)) {
  hosts = some (record busy { id = codes "home/a" } ∷ []);
}

abbrev sources : List State
sources = first_source ∷ second_source ∷ []

ids_of_hosts :
    map (λ h. h.id) (elems (collect stable (pos 7) sources).hosts)
    ≡ codes "home/a" ∷ codes "home/b" ∷ []
unfolding collect finalize sort_stable text_lt
ids_of_hosts = refl

health_of_busy : (apply_host_alerts mock_config.alerts first_source busy).1.health ≡ Health.critical
unfolding apply_host_alerts mock_config max_health
health_of_busy = refl

apply_host_alerts-IsRaised_example :
    IsRaised mock_config.alerts busy first_source
      (apply_host_alerts mock_config.alerts first_source busy).0
      (apply_host_alerts mock_config.alerts first_source busy).1
apply_host_alerts-IsRaised_example =
    apply_host_alerts-IsRaised mock_config.alerts first_source busy refl

add_capability-IsRecorded_example :
    ((max_capabilities ≤ length (elems {A = Capability} none))
      × (add_capability
            (codes "home")
            []
            []
            (codes "zfs")
            (codes "/api2/json/zfs")
            (some (api_error 404 (codes "not found")))
            none
          ≡ none))
    ⊎ IsRecorded
        (codes "home")
        (codes "zfs")
        (codes "/api2/json/zfs")
        (some (api_error 404 (codes "not found")))
        none
        (add_capability
          (codes "home")
          []
          []
          (codes "zfs")
          (codes "/api2/json/zfs")
          (some (api_error 404 (codes "not found")))
          none)
add_capability-IsRecorded_example =
    add_capability-IsRecorded (codes "home") [] [] (codes "zfs") (codes "/api2/json/zfs")
      (some (api_error 404 (codes "not found"))) none

differ : codes "pci" ≢ codes "zfs"
unfolding text_eq
differ e = false-ne-true (sym (ap (text_eq (codes "pci")) e))

abbrev node : ZfsNode
node = record {
  name = codes "sda";
  state = codes "ONLINE";
  status = [];
  scan = [];
  errors = [];
  leaf = pos 1;
  read = pos 0;
  write = pos 0;
  checksum = pos 0;
}

abbrev mirror : ZfsChildren
mirror = child_then (pool_detail node no_child) (
    child_then (pool_detail (record node { state = codes "FAULTED"; read = pos 3 }) no_child)
      no_child)

counts_of_mirror : zfs_device_counts (pool_detail node mirror) ≡ (2, 2)
unfolding zfs_device_counts trim_space text_eq
counts_of_mirror = refl

-- A service that is not active reads as healthy, and the health of a failed Ceph cluster as unknown.
inactive_is_ok : health_from_text (codes "inactive") ≡ Health.ok
unfolding health_from_text to_lower trim_space text_eq any contains
inactive_is_ok = refl

ceph_error_is_unknown : health_from_text (codes "ERR") ≡ Health.unknown
unfolding health_from_text to_lower trim_space text_eq any contains
ceph_error_is_unknown = refl

unhealthy_is_ok : disk_health (codes "unhealthy") ≡ Health.ok
unfolding disk_health any contains to_lower trim_space
unhealthy_is_ok = refl

abbrev gone : Client
gone = record {
  id = codes "lab";
  name = codes "Lab";
  base_url = codes "https://lab:8006";
  token = [];
  transport = record { insecure_skip_verify = false; root_cas = none; expected = none };
}
