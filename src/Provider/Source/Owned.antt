-- ===== src/Provider/Source/Owned.antt =====
-- The source of the records of a state (apps/bridge/internal/proxmox/provider.go).
pub mod Appends
pub mod Lists
pub mod Rules
pub mod ClusterSteps
pub mod Clusters
pub mod Reports
pub mod Stores
pub mod Nodes
pub mod Hosts
pub mod Storages
pub mod Guests
pub mod Tasks
pub mod Whole
use proxmox_desk_display.Base.{◌≡◌, All, elems}
use proxmox_desk_display.Base.Text.{Text}
use proxmox_desk_display.Display.State.{State}

-- The lists of a state.
pub data Field : Type 0 where
  clusters hosts storages disks networks services zfs_pools guests snapshots tasks backup_jobs :
      Field
  replications ha_resources certificates storage_items metric_trends cluster_options : Field
  ceph_clusters capabilities updates repositories subscriptions alerts : Field

-- The records of one list bear the id.
abbrev pub OwnedIn : Text → State → Field → Type 0
OwnedIn id s Field.clusters = All (λ x. x.source_id ≡ id) (elems s.clusters)
OwnedIn id s Field.hosts = All (λ x. x.source_id ≡ id) (elems s.hosts)
OwnedIn id s Field.storages = All (λ x. x.source_id ≡ id) (elems s.storages)
OwnedIn id s Field.disks = All (λ x. x.source_id ≡ id) (elems s.disks)
OwnedIn id s Field.networks = All (λ x. x.source_id ≡ id) (elems s.networks)
OwnedIn id s Field.services = All (λ x. x.source_id ≡ id) (elems s.services)
OwnedIn id s Field.zfs_pools = All (λ x. x.source_id ≡ id) (elems s.zfs_pools)
OwnedIn id s Field.guests = All (λ x. x.source_id ≡ id) (elems s.guests)
OwnedIn id s Field.snapshots = All (λ x. x.source_id ≡ id) (elems s.snapshots)
OwnedIn id s Field.tasks = All (λ x. x.source_id ≡ id) (elems s.tasks)
OwnedIn id s Field.backup_jobs = All (λ x. x.source_id ≡ id) (elems s.backup_jobs)
OwnedIn id s Field.replications = All (λ x. x.source_id ≡ id) (elems s.replications)
OwnedIn id s Field.ha_resources = All (λ x. x.source_id ≡ id) (elems s.ha_resources)
OwnedIn id s Field.certificates = All (λ x. x.source_id ≡ id) (elems s.certificates)
OwnedIn id s Field.storage_items = All (λ x. x.source_id ≡ id) (elems s.storage_items)
OwnedIn id s Field.metric_trends = All (λ x. x.source_id ≡ id) (elems s.metric_trends)
OwnedIn id s Field.cluster_options = All (λ x. x.source_id ≡ id) (elems s.cluster_options)
OwnedIn id s Field.ceph_clusters = All (λ x. x.source_id ≡ id) (elems s.ceph_clusters)
OwnedIn id s Field.capabilities = All (λ x. x.source_id ≡ id) (elems s.capabilities)
OwnedIn id s Field.updates = All (λ x. x.source_id ≡ id) (elems s.updates)
OwnedIn id s Field.repositories = All (λ x. x.source_id ≡ id) (elems s.repositories)
OwnedIn id s Field.subscriptions = All (λ x. x.source_id ≡ id) (elems s.subscriptions)
OwnedIn id s Field.alerts = All (λ x. x.source_id ≡ id) (elems s.alerts)

-- Every record of a state bears the id.
abbrev pub IsOwned : Text → State → Type 0
IsOwned id s = (f : Field) → OwnedIn id s f
