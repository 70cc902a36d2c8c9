-- ===== src/Display/Finalize.antt =====
-- Finalize, CompactForDisplay and NewState (apps/bridge/internal/display/state.go).
pub mod Lists
pub mod Compact
pub mod Summaries
use proxmox_desk_display.Base.{
  ℕ, ◌&&◌, Bool, true, false, not, Option, none, some, List, [], ◌∷◌, Slice, elems, non_nil, length,
  count_if, ltb, if◌then◌else◌,
}
use proxmox_desk_display.Base.Int.{ℤ}
use proxmox_desk_display.Base.Text.{Text, codes, text_eq}
use proxmox_desk_display.Display.Health.{Health, unset, ok, warning, critical, health_eq}
use proxmox_desk_display.Display.Hosts.{Host}
use proxmox_desk_display.Display.Guests.{Guest}
use proxmox_desk_display.Display.Inventory.{Alert}
use proxmox_desk_display.Display.State.{Summary, State}

abbrev pub schema : Text
schema = codes "proxmox-desk-display.v1"

-- The zero value of Summary, with a health.
abbrev pub summary_of : Health → Summary
summary_of h = record {
  health = h;
  hosts_online = 0;
  hosts_total = 0;
  guests_running = 0;
  guests_stopped = 0;
  alerts = 0;
  updates = 0;
}

-- The zero value of State.
abbrev pub zero_state : State
zero_state = record {
  schema = [];
  generated_at = ℤ.pos 0;
  stale = false;
  summary = summary_of unset;
  clusters = none;
  hosts = none;
  storages = none;
  disks = none;
  networks = none;
  services = none;
  zfs_pools = none;
  guests = none;
  snapshots = none;
  tasks = none;
  backup_jobs = none;
  replications = none;
  ha_resources = none;
  certificates = none;
  storage_items = none;
  metric_trends = none;
  cluster_options = none;
  ceph_clusters = none;
  capabilities = none;
  updates = none;
  repositories = none;
  subscriptions = none;
  alerts = none;
}

-- NewState, at the time `now`
unfoldable pub new_state : ℤ → State
new_state now = record zero_state { schema = schema; generated_at = now; summary = summary_of ok }

-- `if s.X == nil { s.X = []T{} }` for each list
unfoldable pub normalize : State → State
normalize s = record s {
  schema = schema;
  hosts = non_nil s.hosts;
  clusters = non_nil s.clusters;
  storages = non_nil s.storages;
  disks = non_nil s.disks;
  networks = non_nil s.networks;
  services = non_nil s.services;
  zfs_pools = non_nil s.zfs_pools;
  guests = non_nil s.guests;
  snapshots = non_nil s.snapshots;
  tasks = non_nil s.tasks;
  backup_jobs = non_nil s.backup_jobs;
  replications = non_nil s.replications;
  ha_resources = non_nil s.ha_resources;
  certificates = non_nil s.certificates;
  storage_items = non_nil s.storage_items;
  metric_trends = non_nil s.metric_trends;
  cluster_options = non_nil s.cluster_options;
  ceph_clusters = non_nil s.ceph_clusters;
  capabilities = non_nil s.capabilities;
  updates = non_nil s.updates;
  repositories = non_nil s.repositories;
  subscriptions = non_nil s.subscriptions;
  alerts = non_nil s.alerts;
}

unfoldable pub is_online : Host → Bool
is_online h = h.online

unfoldable pub is_running : Guest → Bool
is_running g = text_eq g.status (codes "running")

-- The loop over the alerts: the health so far, and whether the function returned in the loop.
unfoldable pub scan_alerts : Health → List Alert → Health × Bool
scan_alerts h [] = (h, false)
scan_alerts h (a ∷ rest) =
    let after = scan_alerts (if health_eq a.severity warning then warning else h) rest in
    if health_eq a.severity critical then (critical, true) else after

-- The test on the hosts, made where the loop over the alerts did not return.
unfoldable pub check_hosts : ℕ → ℕ → Health × Bool → Health
check_hosts online total (h, true) = h
check_hosts online total (h, false) = if ltb 0 total && ltb online total then critical else h

unfoldable pub summarize : State → Summary
unfolding is_online is_running scan_alerts check_hosts
summarize s =
    let hosts = elems s.hosts in
    let guests = elems s.guests in
    record {
      health =
          check_hosts (count_if is_online hosts) (length hosts) (scan_alerts ok (elems s.alerts));
      hosts_online = count_if is_online hosts;
      hosts_total = length hosts;
      guests_running = count_if is_running guests;
      guests_stopped = count_if (λ g. not (is_running g)) guests;
      alerts = length (elems s.alerts);
      updates = length (elems s.updates);
    }

unfoldable pub finalize : State → State
unfolding normalize summarize
finalize s = record (normalize s) { summary = summarize (normalize s) }

unfoldable pub compact_for_display : State → State
unfolding finalize
compact_for_display s = finalize (record s {
  certificates = some [];
  storage_items = some [];
  metric_trends = some [];
  cluster_options = some [];
  ceph_clusters = some [];
  capabilities = some [];
})
