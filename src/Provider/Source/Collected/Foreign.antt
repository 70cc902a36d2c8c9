-- ===== src/Provider/Source/Collected/Foreign.antt =====
-- The records of one source, and those of sources outside the clients
-- (apps/bridge/internal/proxmox/provider.go).
use proxmox_desk_display.Display.Inventory.{Subscription, Alert}
use proxmox_desk_display.Base.{[], ◌∷◌, true, false, refl, ◌≡◌, List, any, Bool, not, All, elems}
use proxmox_desk_display.Provider.Source.Steps.{Scan}
use proxmox_desk_display.Base.Text.{Text, text_eq}
use proxmox_desk_display.Display.State.{State}
use proxmox_desk_display.Provider.Source.Owned.{Field, IsOwned}
use proxmox_desk_display.Display.Hosts.{Host, Cluster, Storage, Disk, Network, Service, ZfsPool}
use proxmox_desk_display.Display.Guests.{Guest, Snapshot}
use proxmox_desk_display.Display.Jobs.{Task, BackupJob, Replication, HaResource}
use proxmox_desk_display.Display.Inventory.{
  Certificate, StorageItem, MetricTrend, ClusterOption, CephCluster, Capability, Update, Repository,
  Subscription,
}

-- The ids of the clients.
unfoldable pub client_ids : List Scan → List Text
client_ids [] = []
client_ids (w ∷ rest) = w.client.id ∷ client_ids rest

-- The id of a record is of none of the clients.
abbrev pub is_foreign : List Text → Text → Bool
is_foreign ids id = not (any (text_eq id) ids)

-- No record of one list of a state is of a source outside the clients.
abbrev pub NoneForeign : List Text → State → Field → Type 0
NoneForeign ids s Field.clusters =
    any (λ (x : Cluster). is_foreign ids x.source_id) (elems s.clusters) ≡ false
NoneForeign ids s Field.hosts =
    any (λ (x : Host). is_foreign ids x.source_id) (elems s.hosts) ≡ false
NoneForeign ids s Field.storages =
    any (λ (x : Storage). is_foreign ids x.source_id) (elems s.storages) ≡ false
NoneForeign ids s Field.disks =
    any (λ (x : Disk). is_foreign ids x.source_id) (elems s.disks) ≡ false
NoneForeign ids s Field.networks =
    any (λ (x : Network). is_foreign ids x.source_id) (elems s.networks) ≡ false
NoneForeign ids s Field.services =
    any (λ (x : Service). is_foreign ids x.source_id) (elems s.services) ≡ false
NoneForeign ids s Field.zfs_pools =
    any (λ (x : ZfsPool). is_foreign ids x.source_id) (elems s.zfs_pools) ≡ false
NoneForeign ids s Field.guests =
    any (λ (x : Guest). is_foreign ids x.source_id) (elems s.guests) ≡ false
NoneForeign ids s Field.snapshots =
    any (λ (x : Snapshot). is_foreign ids x.source_id) (elems s.snapshots) ≡ false
NoneForeign ids s Field.tasks =
    any (λ (x : Task). is_foreign ids x.source_id) (elems s.tasks) ≡ false
NoneForeign ids s Field.backup_jobs =
    any (λ (x : BackupJob). is_foreign ids x.source_id) (elems s.backup_jobs) ≡ false
NoneForeign ids s Field.replications =
    any (λ (x : Replication). is_foreign ids x.source_id) (elems s.replications) ≡ false
NoneForeign ids s Field.ha_resources =
    any (λ (x : HaResource). is_foreign ids x.source_id) (elems s.ha_resources) ≡ false
NoneForeign ids s Field.certificates =
    any (λ (x : Certificate). is_foreign ids x.source_id) (elems s.certificates) ≡ false
NoneForeign ids s Field.storage_items =
    any (λ (x : StorageItem). is_foreign ids x.source_id) (elems s.storage_items) ≡ false
NoneForeign ids s Field.metric_trends =
    any (λ (x : MetricTrend). is_foreign ids x.source_id) (elems s.metric_trends) ≡ false
NoneForeign ids s Field.cluster_options =
    any (λ (x : ClusterOption). is_foreign ids x.source_id) (elems s.cluster_options) ≡ false
NoneForeign ids s Field.ceph_clusters =
    any (λ (x : CephCluster). is_foreign ids x.source_id) (elems s.ceph_clusters) ≡ false
NoneForeign ids s Field.capabilities =
    any (λ (x : Capability). is_foreign ids x.source_id) (elems s.capabilities) ≡ false
NoneForeign ids s Field.updates =
    any (λ (x : Update). is_foreign ids x.source_id) (elems s.updates) ≡ false
NoneForeign ids s Field.repositories =
    any (λ (x : Repository). is_foreign ids x.source_id) (elems s.repositories) ≡ false
NoneForeign ids s Field.subscriptions =
    any (λ (x : Subscription). is_foreign ids x.source_id) (elems s.subscriptions) ≡ false
NoneForeign ids s Field.alerts =
    any (λ (x : Alert). is_foreign ids x.source_id) (elems s.alerts) ≡ false

owned-none :
    {A : Type 0} (source : A → Text) (ids : List Text) (id : Text)
    → any (text_eq id) ids ≡ true
    → (xs : List A) → All (λ x. source x ≡ id) xs
    → any (λ x. is_foreign ids (source x)) xs ≡ false
unfolding any
owned-none source ids id known [] h = refl
owned-none source ids id known (x ∷ xs) (e, h) =
    rw (e, known, owned-none source ids id known xs h) refl

pub state-none :
    (ids : List Text) (id : Text)
    → any (text_eq id) ids ≡ true
    → (s : State) → IsOwned id s
    → (f : Field) → NoneForeign ids s f
state-none ids id known s own Field.clusters =
    owned-none (λ x. x.source_id) ids id known (elems s.clusters) (own Field.clusters)
state-none ids id known s own Field.hosts =
    owned-none (λ x. x.source_id) ids id known (elems s.hosts) (own Field.hosts)
state-none ids id known s own Field.storages =
    owned-none (λ x. x.source_id) ids id known (elems s.storages) (own Field.storages)
state-none ids id known s own Field.disks =
    owned-none (λ x. x.source_id) ids id known (elems s.disks) (own Field.disks)
state-none ids id known s own Field.networks =
    owned-none (λ x. x.source_id) ids id known (elems s.networks) (own Field.networks)
state-none ids id known s own Field.services =
    owned-none (λ x. x.source_id) ids id known (elems s.services) (own Field.services)
state-none ids id known s own Field.zfs_pools =
    owned-none (λ x. x.source_id) ids id known (elems s.zfs_pools) (own Field.zfs_pools)
state-none ids id known s own Field.guests =
    owned-none (λ x. x.source_id) ids id known (elems s.guests) (own Field.guests)
state-none ids id known s own Field.snapshots =
    owned-none (λ x. x.source_id) ids id known (elems s.snapshots) (own Field.snapshots)
state-none ids id known s own Field.tasks =
    owned-none (λ x. x.source_id) ids id known (elems s.tasks) (own Field.tasks)
state-none ids id known s own Field.backup_jobs =
    owned-none (λ x. x.source_id) ids id known (elems s.backup_jobs) (own Field.backup_jobs)
state-none ids id known s own Field.replications =
    owned-none (λ x. x.source_id) ids id known (elems s.replications) (own Field.replications)
state-none ids id known s own Field.ha_resources =
    owned-none (λ x. x.source_id) ids id known (elems s.ha_resources) (own Field.ha_resources)
state-none ids id known s own Field.certificates =
    owned-none (λ x. x.source_id) ids id known (elems s.certificates) (own Field.certificates)
state-none ids id known s own Field.storage_items =
    owned-none (λ x. x.source_id) ids id known (elems s.storage_items) (own Field.storage_items)
state-none ids id known s own Field.metric_trends =
    owned-none (λ x. x.source_id) ids id known (elems s.metric_trends) (own Field.metric_trends)
state-none ids id known s own Field.cluster_options =
    owned-none (λ x. x.source_id) ids id known (elems s.cluster_options) (own Field.cluster_options)
state-none ids id known s own Field.ceph_clusters =
    owned-none (λ x. x.source_id) ids id known (elems s.ceph_clusters) (own Field.ceph_clusters)
state-none ids id known s own Field.capabilities =
    owned-none (λ x. x.source_id) ids id known (elems s.capabilities) (own Field.capabilities)
state-none ids id known s own Field.updates =
    owned-none (λ x. x.source_id) ids id known (elems s.updates) (own Field.updates)
state-none ids id known s own Field.repositories =
    owned-none (λ x. x.source_id) ids id known (elems s.repositories) (own Field.repositories)
state-none ids id known s own Field.subscriptions =
    owned-none (λ x. x.source_id) ids id known (elems s.subscriptions) (own Field.subscriptions)
state-none ids id known s own Field.alerts =
    owned-none (λ x. x.source_id) ids id known (elems s.alerts) (own Field.alerts)
