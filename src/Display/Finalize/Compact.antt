-- ===== src/Display/Finalize/Compact.antt =====
-- CompactForDisplay and the lists of a state (apps/bridge/internal/display/state.go).
use proxmox_desk_display.Base.{◌≡◌, refl, non_nil-IsNonNil, elems-non_nil, [], some}
use proxmox_desk_display.Display.State.{State}
use proxmox_desk_display.Display.Finalize.{finalize, compact_for_display}
use proxmox_desk_display.Display.Finalize.Lists.{HasLists, SameDisplayLists}

-- The lists of the detail view are empty.
pub record HasNoDetail (s : State) : Type 0 where
  pub certificates : s.certificates ≡ some []
  pub storage_items : s.storage_items ≡ some []
  pub metric_trends : s.metric_trends ≡ some []
  pub cluster_options : s.cluster_options ≡ some []
  pub ceph_clusters : s.ceph_clusters ≡ some []
  pub capabilities : s.capabilities ≡ some []

compact-SameDisplayLists : (s : State) → SameDisplayLists (compact_for_display s) s
unfolding compact_for_display
compact-SameDisplayLists s = record {
  hosts = elems-non_nil s.hosts;
  clusters = elems-non_nil s.clusters;
  storages = elems-non_nil s.storages;
  disks = elems-non_nil s.disks;
  networks = elems-non_nil s.networks;
  services = elems-non_nil s.services;
  zfs_pools = elems-non_nil s.zfs_pools;
  guests = elems-non_nil s.guests;
  snapshots = elems-non_nil s.snapshots;
  tasks = elems-non_nil s.tasks;
  backup_jobs = elems-non_nil s.backup_jobs;
  replications = elems-non_nil s.replications;
  ha_resources = elems-non_nil s.ha_resources;
  updates = elems-non_nil s.updates;
  repositories = elems-non_nil s.repositories;
  subscriptions = elems-non_nil s.subscriptions;
  alerts = elems-non_nil s.alerts;
}

compact-HasNoDetail : (s : State) → HasNoDetail (compact_for_display s)
unfolding compact_for_display
compact-HasNoDetail s = record {
  certificates = refl;
  storage_items = refl;
  metric_trends = refl;
  cluster_options = refl;
  ceph_clusters = refl;
  capabilities = refl;
}

compact-HasLists : (s : State) → HasLists (compact_for_display s)
unfolding compact_for_display
compact-HasLists s = record {
  hosts = non_nil-IsNonNil s.hosts;
  clusters = non_nil-IsNonNil s.clusters;
  storages = non_nil-IsNonNil s.storages;
  disks = non_nil-IsNonNil s.disks;
  networks = non_nil-IsNonNil s.networks;
  services = non_nil-IsNonNil s.services;
  zfs_pools = non_nil-IsNonNil s.zfs_pools;
  guests = non_nil-IsNonNil s.guests;
  snapshots = non_nil-IsNonNil s.snapshots;
  tasks = non_nil-IsNonNil s.tasks;
  backup_jobs = non_nil-IsNonNil s.backup_jobs;
  replications = non_nil-IsNonNil s.replications;
  ha_resources = non_nil-IsNonNil s.ha_resources;
  updates = non_nil-IsNonNil s.updates;
  repositories = non_nil-IsNonNil s.repositories;
  subscriptions = non_nil-IsNonNil s.subscriptions;
  alerts = non_nil-IsNonNil s.alerts;
  certificates = ([], refl);
  storage_items = ([], refl);
  metric_trends = ([], refl);
  cluster_options = ([], refl);
  ceph_clusters = ([], refl);
  capabilities = ([], refl);
}

-- CompactForDisplay empties the six lists of the detail view and no other list, leaves no list nil,
-- and has the summary, the time and the stale mark that Finalize gives the full state.
pub compact_for_display_keeps :
    (s : State)
    → HasNoDetail (compact_for_display s)
      × SameDisplayLists (compact_for_display s) s
      × HasLists (compact_for_display s)
      × ((compact_for_display s).summary ≡ (finalize s).summary)
      × ((compact_for_display s).generated_at ≡ s.generated_at)
      × ((compact_for_display s).stale ≡ s.stale)
unfolding compact_for_display
compact_for_display_keeps s =
    (compact-HasNoDetail s, compact-SameDisplayLists s, compact-HasLists s, refl, refl, refl)
