-- ===== src/Provider/Source/Owned/Appends.antt =====
-- What an append to one list of a state keeps (apps/bridge/internal/proxmox/provider.go).
use proxmox_desk_display.Base.{
  [], ◌∷◌, true, false, refl, inl, inr, ◌≡◌, Slice, List, keep_if, All, Bool, Option, elems, map,
  Bool-cases, All-append, if◌then◌else◌, leb, length,
}
use proxmox_desk_display.Base.Text.{Text}
use proxmox_desk_display.Provider.Calls.{add_capability, CallError}
use proxmox_desk_display.Provider.Client.{Client}
use proxmox_desk_display.Display.State.{State}
use proxmox_desk_display.Display.Hosts.{Cluster, Host, Storage, Disk, Network, Service, ZfsPool}
use proxmox_desk_display.Display.Guests.{Guest, Snapshot}
use proxmox_desk_display.Display.Jobs.{Task, BackupJob, Replication, HaResource}
use proxmox_desk_display.Display.Inventory.{
  Certificate, StorageItem, MetricTrend, ClusterOption, CephCluster, Update, Repository,
  Subscription, Alert, Capability,
}
use proxmox_desk_display.Provider.Rules.{push_alert}
use proxmox_desk_display.Provider.Source.Steps.{appended, with_capability}
use proxmox_desk_display.Provider.Source.Owned.{IsOwned, Field}
use proxmox_desk_display.Provider.Collect.{max_capabilities}

pub All-appended :
    {A : Type 0} (P : A → Type 0) (xs : Slice A) (ys : List A)
    → All P (elems xs)
    → All P ys
    → All P (elems (appended xs ys))
All-appended P xs [] h k = h
All-appended P xs (y ∷ ys) h k = All-append P (elems xs) (y ∷ ys) h k

pub All-map :
    {A B : Type 0} (P : B → Type 0) (f : A → B) (xs : List A)
    → ((x : A) → P (f x))
    → All P (map f xs)
All-map P f [] h = tt
All-map P f (x ∷ xs) h = (h x, All-map P f xs h)

pub All-keep_if :
    {A : Type 0} (P : A → Type 0) (p : A → Bool) (xs : List A) → All P xs → All P (keep_if p xs)
unfolding keep_if
All-keep_if P p [] h = tt
All-keep_if P p (x ∷ xs) h = elim (Bool-cases (p x)) [
  | inl e ↦ rw e (h.0, All-keep_if P p xs h.1)
  | inr e ↦ rw e (All-keep_if P p xs h.1)
]

module _ (id : Text) (s : State) where
  pub appended_clusters :
      (xs : List Cluster)
      → All (λ x. x.source_id ≡ id) xs
      → IsOwned id s
      → IsOwned id (record s { clusters = appended s.clusters xs })
  appended_clusters xs new own Field.clusters =
      All-appended (λ x. x.source_id ≡ id) s.clusters xs (own Field.clusters) new
  appended_clusters xs new own f = own f

  pub appended_hosts :
      (xs : List Host)
      → All (λ x. x.source_id ≡ id) xs
      → IsOwned id s
      → IsOwned id (record s { hosts = appended s.hosts xs })
  appended_hosts xs new own Field.hosts =
      All-appended (λ x. x.source_id ≡ id) s.hosts xs (own Field.hosts) new
  appended_hosts xs new own f = own f

  pub appended_storages :
      (xs : List Storage)
      → All (λ x. x.source_id ≡ id) xs
      → IsOwned id s
      → IsOwned id (record s { storages = appended s.storages xs })
  appended_storages xs new own Field.storages =
      All-appended (λ x. x.source_id ≡ id) s.storages xs (own Field.storages) new
  appended_storages xs new own f = own f

  pub appended_disks :
      (xs : List Disk)
      → All (λ x. x.source_id ≡ id) xs
      → IsOwned id s
      → IsOwned id (record s { disks = appended s.disks xs })
  appended_disks xs new own Field.disks =
      All-appended (λ x. x.source_id ≡ id) s.disks xs (own Field.disks) new
  appended_disks xs new own f = own f

  pub appended_networks :
      (xs : List Network)
      → All (λ x. x.source_id ≡ id) xs
      → IsOwned id s
      → IsOwned id (record s { networks = appended s.networks xs })
  appended_networks xs new own Field.networks =
      All-appended (λ x. x.source_id ≡ id) s.networks xs (own Field.networks) new
  appended_networks xs new own f = own f

  pub appended_services :
      (xs : List Service)
      → All (λ x. x.source_id ≡ id) xs
      → IsOwned id s
      → IsOwned id (record s { services = appended s.services xs })
  appended_services xs new own Field.services =
      All-appended (λ x. x.source_id ≡ id) s.services xs (own Field.services) new
  appended_services xs new own f = own f

  pub appended_zfs_pools :
      (xs : List ZfsPool)
      → All (λ x. x.source_id ≡ id) xs
      → IsOwned id s
      → IsOwned id (record s { zfs_pools = appended s.zfs_pools xs })
  appended_zfs_pools xs new own Field.zfs_pools =
      All-appended (λ x. x.source_id ≡ id) s.zfs_pools xs (own Field.zfs_pools) new
  appended_zfs_pools xs new own f = own f

  pub appended_guests :
      (xs : List Guest)
      → All (λ x. x.source_id ≡ id) xs
      → IsOwned id s
      → IsOwned id (record s { guests = appended s.guests xs })
  appended_guests xs new own Field.guests =
      All-appended (λ x. x.source_id ≡ id) s.guests xs (own Field.guests) new
  appended_guests xs new own f = own f

  pub appended_snapshots :
      (xs : List Snapshot)
      → All (λ x. x.source_id ≡ id) xs
      → IsOwned id s
      → IsOwned id (record s { snapshots = appended s.snapshots xs })
  appended_snapshots xs new own Field.snapshots =
      All-appended (λ x. x.source_id ≡ id) s.snapshots xs (own Field.snapshots) new
  appended_snapshots xs new own f = own f

  pub appended_tasks :
      (xs : List Task)
      → All (λ x. x.source_id ≡ id) xs
      → IsOwned id s
      → IsOwned id (record s { tasks = appended s.tasks xs })
  appended_tasks xs new own Field.tasks =
      All-appended (λ x. x.source_id ≡ id) s.tasks xs (own Field.tasks) new
  appended_tasks xs new own f = own f

  pub appended_backup_jobs :
      (xs : List BackupJob)
      → All (λ x. x.source_id ≡ id) xs
      → IsOwned id s
      → IsOwned id (record s { backup_jobs = appended s.backup_jobs xs })
  appended_backup_jobs xs new own Field.backup_jobs =
      All-appended (λ x. x.source_id ≡ id) s.backup_jobs xs (own Field.backup_jobs) new
  appended_backup_jobs xs new own f = own f

  pub appended_replications :
      (xs : List Replication)
      → All (λ x. x.source_id ≡ id) xs
      → IsOwned id s
      → IsOwned id (record s { replications = appended s.replications xs })
  appended_replications xs new own Field.replications =
      All-appended (λ x. x.source_id ≡ id) s.replications xs (own Field.replications) new
  appended_replications xs new own f = own f

  pub appended_ha_resources :
      (xs : List HaResource)
      → All (λ x. x.source_id ≡ id) xs
      → IsOwned id s
      → IsOwned id (record s { ha_resources = appended s.ha_resources xs })
  appended_ha_resources xs new own Field.ha_resources =
      All-appended (λ x. x.source_id ≡ id) s.ha_resources xs (own Field.ha_resources) new
  appended_ha_resources xs new own f = own f

  pub appended_certificates :
      (xs : List Certificate)
      → All (λ x. x.source_id ≡ id) xs
      → IsOwned id s
      → IsOwned id (record s { certificates = appended s.certificates xs })
  appended_certificates xs new own Field.certificates =
      All-appended (λ x. x.source_id ≡ id) s.certificates xs (own Field.certificates) new
  appended_certificates xs new own f = own f

  pub appended_storage_items :
      (xs : List StorageItem)
      → All (λ x. x.source_id ≡ id) xs
      → IsOwned id s
      → IsOwned id (record s { storage_items = appended s.storage_items xs })
  appended_storage_items xs new own Field.storage_items =
      All-appended (λ x. x.source_id ≡ id) s.storage_items xs (own Field.storage_items) new
  appended_storage_items xs new own f = own f

  pub appended_metric_trends :
      (xs : List MetricTrend)
      → All (λ x. x.source_id ≡ id) xs
      → IsOwned id s
      → IsOwned id (record s { metric_trends = appended s.metric_trends xs })
  appended_metric_trends xs new own Field.metric_trends =
      All-appended (λ x. x.source_id ≡ id) s.metric_trends xs (own Field.metric_trends) new
  appended_metric_trends xs new own f = own f

  pub appended_cluster_options :
      (xs : List ClusterOption)
      → All (λ x. x.source_id ≡ id) xs
      → IsOwned id s
      → IsOwned id (record s { cluster_options = appended s.cluster_options xs })
  appended_cluster_options xs new own Field.cluster_options =
      All-appended (λ x. x.source_id ≡ id) s.cluster_options xs (own Field.cluster_options) new
  appended_cluster_options xs new own f = own f

  pub appended_ceph_clusters :
      (xs : List CephCluster)
      → All (λ x. x.source_id ≡ id) xs
      → IsOwned id s
      → IsOwned id (record s { ceph_clusters = appended s.ceph_clusters xs })
  appended_ceph_clusters xs new own Field.ceph_clusters =
      All-appended (λ x. x.source_id ≡ id) s.ceph_clusters xs (own Field.ceph_clusters) new
  appended_ceph_clusters xs new own f = own f

  pub appended_updates :
      (xs : List Update)
      → All (λ x. x.source_id ≡ id) xs
      → IsOwned id s
      → IsOwned id (record s { updates = appended s.updates xs })
  appended_updates xs new own Field.updates =
      All-appended (λ x. x.source_id ≡ id) s.updates xs (own Field.updates) new
  appended_updates xs new own f = own f

  pub appended_repositories :
      (xs : List Repository)
      → All (λ x. x.source_id ≡ id) xs
      → IsOwned id s
      → IsOwned id (record s { repositories = appended s.repositories xs })
  appended_repositories xs new own Field.repositories =
      All-appended (λ x. x.source_id ≡ id) s.repositories xs (own Field.repositories) new
  appended_repositories xs new own f = own f

  pub appended_subscriptions :
      (xs : List Subscription)
      → All (λ x. x.source_id ≡ id) xs
      → IsOwned id s
      → IsOwned id (record s { subscriptions = appended s.subscriptions xs })
  appended_subscriptions xs new own Field.subscriptions =
      All-appended (λ x. x.source_id ≡ id) s.subscriptions xs (own Field.subscriptions) new
  appended_subscriptions xs new own f = own f

  pub appended_alerts :
      (xs : List Alert)
      → All (λ x. x.source_id ≡ id) xs
      → IsOwned id s
      → IsOwned id (record s { alerts = appended s.alerts xs })
  appended_alerts xs new own Field.alerts =
      All-appended (λ x. x.source_id ≡ id) s.alerts xs (own Field.alerts) new
  appended_alerts xs new own f = own f

  pub push_alert-IsOwned :
      (a : Alert) → a.source_id ≡ id → IsOwned id s → IsOwned id (push_alert a s)
  unfolding push_alert
  push_alert-IsOwned a e own Field.alerts =
      All-append (λ x. x.source_id ≡ id) (elems s.alerts) (a ∷ []) (own Field.alerts) (e, tt)
  push_alert-IsOwned a e own f = own f

  -- An alert that is raised or not.
  pub may_push-IsOwned :
      (b : Bool) (a : Alert)
      → a.source_id ≡ id
      → IsOwned id s
      → IsOwned id (if b then push_alert a s else s)
  may_push-IsOwned true a e own = push_alert-IsOwned a e own
  may_push-IsOwned false a e own = own

add_capability-owned :
    (id host_id guest_id name endpoint : Text) (e : Option CallError) (xs : Slice Capability)
    → All (λ x. x.source_id ≡ id) (elems xs)
    → All (λ x. x.source_id ≡ id) (elems (add_capability id host_id guest_id name endpoint e xs))
unfolding add_capability
add_capability-owned id host_id guest_id name endpoint e xs h =
    elim (Bool-cases (leb max_capabilities (length (elems xs)))) [
      | inl p ↦ rw p h
      | inr p ↦ rw p (All-append (λ x. x.source_id ≡ id) (elems xs) _ h (refl, tt))
    ]

pub with_capability-IsOwned :
    (client : Client) (s : State) (host_id guest_id name endpoint : Text) (e : Option CallError)
    → IsOwned client.id s
    → IsOwned client.id (with_capability client host_id guest_id name endpoint e s)
with_capability-IsOwned client s host_id guest_id name endpoint e own Field.capabilities =
    add_capability-owned client.id host_id guest_id name endpoint e s.capabilities
      (own Field.capabilities)
with_capability-IsOwned client s host_id guest_id name endpoint e own f = own f
