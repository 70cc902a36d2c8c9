-- ===== src/Display/Finalize/Lists.antt =====
-- Finalize and the lists of a state (apps/bridge/internal/display/state.go).
use proxmox_desk_display.Base.{
  ◌≡◌, refl, IsNonNil, elems, non_nil-IsNonNil, elems-non_nil, non_nil_idem,
}
use proxmox_desk_display.Display.State.{State}
use proxmox_desk_display.Display.Finalize.{normalize, summarize, finalize}

-- No list of the state is nil, so that none encodes to `null`.
pub record HasLists (s : State) : Type 0 where
  pub hosts : IsNonNil s.hosts
  pub clusters : IsNonNil s.clusters
  pub storages : IsNonNil s.storages
  pub disks : IsNonNil s.disks
  pub networks : IsNonNil s.networks
  pub services : IsNonNil s.services
  pub zfs_pools : IsNonNil s.zfs_pools
  pub guests : IsNonNil s.guests
  pub snapshots : IsNonNil s.snapshots
  pub tasks : IsNonNil s.tasks
  pub backup_jobs : IsNonNil s.backup_jobs
  pub replications : IsNonNil s.replications
  pub ha_resources : IsNonNil s.ha_resources
  pub certificates : IsNonNil s.certificates
  pub storage_items : IsNonNil s.storage_items
  pub metric_trends : IsNonNil s.metric_trends
  pub cluster_options : IsNonNil s.cluster_options
  pub ceph_clusters : IsNonNil s.ceph_clusters
  pub capabilities : IsNonNil s.capabilities
  pub updates : IsNonNil s.updates
  pub repositories : IsNonNil s.repositories
  pub subscriptions : IsNonNil s.subscriptions
  pub alerts : IsNonNil s.alerts

-- Two states list the same things outside the lists of the detail view, whether a list is nil or
-- empty.
pub record SameDisplayLists (s t : State) : Type 0 where
  pub hosts : elems s.hosts ≡ elems t.hosts
  pub clusters : elems s.clusters ≡ elems t.clusters
  pub storages : elems s.storages ≡ elems t.storages
  pub disks : elems s.disks ≡ elems t.disks
  pub networks : elems s.networks ≡ elems t.networks
  pub services : elems s.services ≡ elems t.services
  pub zfs_pools : elems s.zfs_pools ≡ elems t.zfs_pools
  pub guests : elems s.guests ≡ elems t.guests
  pub snapshots : elems s.snapshots ≡ elems t.snapshots
  pub tasks : elems s.tasks ≡ elems t.tasks
  pub backup_jobs : elems s.backup_jobs ≡ elems t.backup_jobs
  pub replications : elems s.replications ≡ elems t.replications
  pub ha_resources : elems s.ha_resources ≡ elems t.ha_resources
  pub updates : elems s.updates ≡ elems t.updates
  pub repositories : elems s.repositories ≡ elems t.repositories
  pub subscriptions : elems s.subscriptions ≡ elems t.subscriptions
  pub alerts : elems s.alerts ≡ elems t.alerts

-- Two states have the same lists of the detail view.
pub record SameDetailLists (s t : State) : Type 0 where
  pub certificates : elems s.certificates ≡ elems t.certificates
  pub storage_items : elems s.storage_items ≡ elems t.storage_items
  pub metric_trends : elems s.metric_trends ≡ elems t.metric_trends
  pub cluster_options : elems s.cluster_options ≡ elems t.cluster_options
  pub ceph_clusters : elems s.ceph_clusters ≡ elems t.ceph_clusters
  pub capabilities : elems s.capabilities ≡ elems t.capabilities

finalize-HasLists : (s : State) → HasLists (finalize s)
unfolding finalize
finalize-HasLists s = record {
  hosts = non_nil-IsNonNil s.hosts;
  clusters = non_nil-IsNonNil s.clusters;
  storages = non_nil-IsNonNil s.storages;
  disks = non_nil-IsNonNil s.disks;
  networks = non_nil-IsNonNil s.networks;
  services = non_nil-IsNonNil s.services;
  zfs_pools = non_nil-IsNonNil s.zfs_pools;
  guests = non_nil-IsNonNil s.guests;
  snapshots = non_nil-IsNonNil s.snapshots;
  tasks = non_nil-IsNonNil s.tasks;
  backup_jobs = non_nil-IsNonNil s.backup_jobs;
  replications = non_nil-IsNonNil s.replications;
  ha_resources = non_nil-IsNonNil s.ha_resources;
  certificates = non_nil-IsNonNil s.certificates;
  storage_items = non_nil-IsNonNil s.storage_items;
  metric_trends = non_nil-IsNonNil s.metric_trends;
  cluster_options = non_nil-IsNonNil s.cluster_options;
  ceph_clusters = non_nil-IsNonNil s.ceph_clusters;
  capabilities = non_nil-IsNonNil s.capabilities;
  updates = non_nil-IsNonNil s.updates;
  repositories = non_nil-IsNonNil s.repositories;
  subscriptions = non_nil-IsNonNil s.subscriptions;
  alerts = non_nil-IsNonNil s.alerts;
}

finalize-SameDisplayLists : (s : State) → SameDisplayLists (finalize s) s
unfolding finalize
finalize-SameDisplayLists s = record {
  hosts = elems-non_nil s.hosts;
  clusters = elems-non_nil s.clusters;
  storages = elems-non_nil s.storages;
  disks = elems-non_nil s.disks;
  networks = elems-non_nil s.networks;
  services = elems-non_nil s.services;
  zfs_pools = elems-non_nil s.zfs_pools;
  guests = elems-non_nil s.guests;
  snapshots = elems-non_nil s.snapshots;
  tasks = elems-non_nil s.tasks;
  backup_jobs = elems-non_nil s.backup_jobs;
  replications = elems-non_nil s.replications;
  ha_resources = elems-non_nil s.ha_resources;
  updates = elems-non_nil s.updates;
  repositories = elems-non_nil s.repositories;
  subscriptions = elems-non_nil s.subscriptions;
  alerts = elems-non_nil s.alerts;
}

finalize-SameDetailLists : (s : State) → SameDetailLists (finalize s) s
unfolding finalize
finalize-SameDetailLists s = record {
  certificates = elems-non_nil s.certificates;
  storage_items = elems-non_nil s.storage_items;
  metric_trends = elems-non_nil s.metric_trends;
  cluster_options = elems-non_nil s.cluster_options;
  ceph_clusters = elems-non_nil s.ceph_clusters;
  capabilities = elems-non_nil s.capabilities;
}

-- Finalize leaves no list nil, keeps what every list holds, and keeps the time and the stale mark.
pub finalize_keeps :
    (s : State)
    → HasLists (finalize s)
      × SameDisplayLists (finalize s) s
      × SameDetailLists (finalize s) s
      × ((finalize s).generated_at ≡ s.generated_at)
      × ((finalize s).stale ≡ s.stale)
unfolding finalize
finalize_keeps s =
    (finalize-HasLists s, finalize-SameDisplayLists s, finalize-SameDetailLists s, refl, refl)

normalize_idem : (s : State) → normalize (normalize s) ≡ normalize s
unfolding normalize
normalize_idem s = λ i. record (normalize s) {
  hosts = non_nil_idem s.hosts i;
  clusters = non_nil_idem s.clusters i;
  storages = non_nil_idem s.storages i;
  disks = non_nil_idem s.disks i;
  networks = non_nil_idem s.networks i;
  services = non_nil_idem s.services i;
  zfs_pools = non_nil_idem s.zfs_pools i;
  guests = non_nil_idem s.guests i;
  snapshots = non_nil_idem s.snapshots i;
  tasks = non_nil_idem s.tasks i;
  backup_jobs = non_nil_idem s.backup_jobs i;
  replications = non_nil_idem s.replications i;
  ha_resources = non_nil_idem s.ha_resources i;
  certificates = non_nil_idem s.certificates i;
  storage_items = non_nil_idem s.storage_items i;
  metric_trends = non_nil_idem s.metric_trends i;
  cluster_options = non_nil_idem s.cluster_options i;
  ceph_clusters = non_nil_idem s.ceph_clusters i;
  capabilities = non_nil_idem s.capabilities i;
  updates = non_nil_idem s.updates i;
  repositories = non_nil_idem s.repositories i;
  subscriptions = non_nil_idem s.subscriptions i;
  alerts = non_nil_idem s.alerts i;
}

-- A second Finalize changes nothing.
pub finalize_idem : (s : State) → finalize (finalize s) ≡ finalize s
unfolding finalize
finalize_idem s = λ i. record (normalize_idem s i) { summary = summarize (normalize_idem s i) }
