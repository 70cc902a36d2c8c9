-- ===== src/Provider/Source/Collected/Gathered.antt =====
-- The records that Collect gathers of sources and merges
-- (apps/bridge/internal/proxmox/provider.go).
use mathlib.Core.List.{Permᴰ}
use proxmox_desk_display.Display.Inventory.{Subscription, Alert}
use proxmox_desk_display.Base.{
  [], ◌∷◌, false, refl, ◌≡◌, List, any, Bool, ◌++◌, ℕ, arith, Slice, All, elems, ◌∙◌,
}
use proxmox_desk_display.Provider.Collect.{gather}
use proxmox_desk_display.Provider.Source.Steps.{Scan}
use proxmox_desk_display.Base.Text.{Text}
use proxmox_desk_display.Display.State.{State}
use proxmox_desk_display.Provider.Collect.Listing.{IsWhole, IsTop}
use proxmox_desk_display.Provider.Source.Owned.{Field}
use proxmox_desk_display.Base.Order.Perms.{any-Perm}
use proxmox_desk_display.Display.Hosts.{Host, Cluster, Storage, Disk, Network, Service, ZfsPool}
use proxmox_desk_display.Provider.Collect.Merged.{IsMerged}
use proxmox_desk_display.Display.Guests.{Guest, Snapshot}
use proxmox_desk_display.Display.Jobs.{Task, BackupJob, Replication, HaResource}
use proxmox_desk_display.Display.Inventory.{
  Certificate, StorageItem, MetricTrend, ClusterOption, CephCluster, Capability, Update, Repository,
  Subscription,
}
use proxmox_desk_display.Provider.Source.Collected.Foreign.{NoneForeign, is_foreign}

any_append-none :
    {A : Type 0} (p : A → Bool) (xs ys : List A)
    → any p xs ≡ false
    → any p ys ≡ false
    → any p (xs ++ ys) ≡ false
unfolding any
any_append-none p [] ys h k = k
any_append-none p (x ∷ xs) ys h k = ground (arith, any_append-none p xs ys)

any_front-none :
    {A : Type 0} (p : A → Bool) (xs ys : List A) → any p (xs ++ ys) ≡ false → any p xs ≡ false
unfolding any
any_front-none p [] ys h = refl
any_front-none p (x ∷ xs) ys h = ground (arith, any_front-none p xs ys)

gather-none :
    {A : Type 0} (p : A → Bool) (f : State → Slice A) (states : List State)
    → All (λ s. any p (elems (f s)) ≡ false) states
    → any p (gather f states) ≡ false
unfolding gather any
gather-none p f [] h = refl
gather-none p f (s ∷ rest) (h, hs) =
    any_append-none p (elems (f s)) (gather f rest) h (gather-none p f rest hs)

whole-none :
    {A : Type 0} {less : A → A → Bool} {all shown : List A} (p : A → Bool)
    → any p all ≡ false
    → IsWhole less all shown
    → any p shown ≡ false
whole-none p h w = any-Perm p w.perm ∙ h

top-none :
    {A : Type 0} {less : A → A → Bool} {max : ℕ} {all shown : List A} (p : A → Bool)
    → any p all ≡ false
    → IsTop less max all shown
    → any p shown ≡ false
top-none {shown = shown} p h t = any_front-none p shown t.dropped (any-Perm p t.perm ∙ h)

-- What holds of every source holds of what is merged of them.
pub merged-none :
    (ids : List Text) (states : List State) (shown : State)
    → ((f : Field) → All (λ s. NoneForeign ids s f) states)
    → IsMerged states shown
    → (f : Field) → NoneForeign ids shown f
merged-none ids states shown h m Field.clusters =
    whole-none (λ (x : Cluster). is_foreign ids x.source_id)
      (gather-none (λ (x : Cluster). is_foreign ids x.source_id) (λ s. s.clusters) states
        (h Field.clusters))
      m.clusters
merged-none ids states shown h m Field.hosts =
    whole-none (λ (x : Host). is_foreign ids x.source_id)
      (gather-none (λ (x : Host). is_foreign ids x.source_id) (λ s. s.hosts) states (h Field.hosts))
      m.hosts
merged-none ids states shown h m Field.storages =
    whole-none (λ (x : Storage). is_foreign ids x.source_id)
      (gather-none (λ (x : Storage). is_foreign ids x.source_id) (λ s. s.storages) states
        (h Field.storages))
      m.storages
merged-none ids states shown h m Field.disks =
    whole-none (λ (x : Disk). is_foreign ids x.source_id)
      (gather-none (λ (x : Disk). is_foreign ids x.source_id) (λ s. s.disks) states (h Field.disks))
      m.disks
merged-none ids states shown h m Field.networks =
    top-none (λ (x : Network). is_foreign ids x.source_id)
      (gather-none (λ (x : Network). is_foreign ids x.source_id) (λ s. s.networks) states
        (h Field.networks))
      m.networks
merged-none ids states shown h m Field.services =
    top-none (λ (x : Service). is_foreign ids x.source_id)
      (gather-none (λ (x : Service). is_foreign ids x.source_id) (λ s. s.services) states
        (h Field.services))
      m.services
merged-none ids states shown h m Field.zfs_pools =
    whole-none (λ (x : ZfsPool). is_foreign ids x.source_id)
      (gather-none (λ (x : ZfsPool). is_foreign ids x.source_id) (λ s. s.zfs_pools) states
        (h Field.zfs_pools))
      m.zfs_pools
merged-none ids states shown h m Field.guests =
    whole-none (λ (x : Guest). is_foreign ids x.source_id)
      (gather-none (λ (x : Guest). is_foreign ids x.source_id) (λ s. s.guests) states
        (h Field.guests))
      m.guests
merged-none ids states shown h m Field.snapshots =
    top-none (λ (x : Snapshot). is_foreign ids x.source_id)
      (gather-none (λ (x : Snapshot). is_foreign ids x.source_id) (λ s. s.snapshots) states
        (h Field.snapshots))
      m.snapshots
merged-none ids states shown h m Field.tasks =
    top-none (λ (x : Task). is_foreign ids x.source_id)
      (gather-none (λ (x : Task). is_foreign ids x.source_id) (λ s. s.tasks) states (h Field.tasks))
      m.tasks
merged-none ids states shown h m Field.backup_jobs =
    whole-none (λ (x : BackupJob). is_foreign ids x.source_id)
      (gather-none (λ (x : BackupJob). is_foreign ids x.source_id) (λ s. s.backup_jobs) states
        (h Field.backup_jobs))
      m.backup_jobs
merged-none ids states shown h m Field.replications =
    whole-none (λ (x : Replication). is_foreign ids x.source_id)
      (gather-none (λ (x : Replication). is_foreign ids x.source_id) (λ s. s.replications) states
        (h Field.replications))
      m.replications
merged-none ids states shown h m Field.ha_resources =
    whole-none (λ (x : HaResource). is_foreign ids x.source_id)
      (gather-none (λ (x : HaResource). is_foreign ids x.source_id) (λ s. s.ha_resources) states
        (h Field.ha_resources))
      m.ha_resources
merged-none ids states shown h m Field.certificates =
    whole-none (λ (x : Certificate). is_foreign ids x.source_id)
      (gather-none (λ (x : Certificate). is_foreign ids x.source_id) (λ s. s.certificates) states
        (h Field.certificates))
      m.certificates
merged-none ids states shown h m Field.storage_items =
    top-none (λ (x : StorageItem). is_foreign ids x.source_id)
      (gather-none (λ (x : StorageItem). is_foreign ids x.source_id) (λ s. s.storage_items) states
        (h Field.storage_items))
      m.storage_items
merged-none ids states shown h m Field.metric_trends =
    top-none (λ (x : MetricTrend). is_foreign ids x.source_id)
      (gather-none (λ (x : MetricTrend). is_foreign ids x.source_id) (λ s. s.metric_trends) states
        (h Field.metric_trends))
      m.metric_trends
merged-none ids states shown h m Field.cluster_options =
    top-none (λ (x : ClusterOption). is_foreign ids x.source_id)
      (gather-none (λ (x : ClusterOption). is_foreign ids x.source_id) (λ s. s.cluster_options)
        states (h Field.cluster_options))
      m.cluster_options
merged-none ids states shown h m Field.ceph_clusters =
    whole-none (λ (x : CephCluster). is_foreign ids x.source_id)
      (gather-none (λ (x : CephCluster). is_foreign ids x.source_id) (λ s. s.ceph_clusters) states
        (h Field.ceph_clusters))
      m.ceph_clusters
merged-none ids states shown h m Field.capabilities =
    top-none (λ (x : Capability). is_foreign ids x.source_id)
      (gather-none (λ (x : Capability). is_foreign ids x.source_id) (λ s. s.capabilities) states
        (h Field.capabilities))
      m.capabilities
merged-none ids states shown h m Field.updates =
    top-none (λ (x : Update). is_foreign ids x.source_id)
      (gather-none (λ (x : Update). is_foreign ids x.source_id) (λ s. s.updates) states
        (h Field.updates))
      m.updates
merged-none ids states shown h m Field.repositories =
    top-none (λ (x : Repository). is_foreign ids x.source_id)
      (gather-none (λ (x : Repository). is_foreign ids x.source_id) (λ s. s.repositories) states
        (h Field.repositories))
      m.repositories
merged-none ids states shown h m Field.subscriptions =
    whole-none (λ (x : Subscription). is_foreign ids x.source_id)
      (gather-none (λ (x : Subscription). is_foreign ids x.source_id) (λ s. s.subscriptions) states
        (h Field.subscriptions))
      m.subscriptions
merged-none ids states shown h m Field.alerts =
    whole-none (λ (x : Alert). is_foreign ids x.source_id)
      (gather-none (λ (x : Alert). is_foreign ids x.source_id) (λ s. s.alerts) states
        (h Field.alerts))
      m.alerts

-- Each loop over the hosts of a run visits each of them once.
abbrev pub VisitsAll : Scan → Type 0
VisitsAll w = (k : ℕ) (hosts : List (Text × Host)) → Permᴰ (w.order k hosts) hosts
