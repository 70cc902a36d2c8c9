-- ===== src/Provider/Collect.antt =====
-- Collect (apps/bridge/internal/proxmox/provider.go): the states of the sources, in the order in which
-- their goroutines ended, become one state. Package sort is an argument: sort.Slice is not stable, so
-- that of its result is known only what the record IsSort states.
pub mod Listing
pub mod Merged
pub mod Unreachable
use mathlib.Core.List.{Perm}
use proxmox_desk_display.Display.Guests.{Guest, Snapshot}
use proxmox_desk_display.Base.{
  [], ◌∷◌, some, true, false, ◌≡◌, Bool, ℕ, List, ◌&&◌, not, ltb, Slice, elems, if◌then◌else◌, ◌++◌,
  length, take,
}
use proxmox_desk_display.Base.Text.{Text, text_lt}
use proxmox_desk_display.Base.Int.{ℤ, ltb_ℤ, eqb_ℤ}
use proxmox_desk_display.Display.Jobs.{Task, BackupJob, Replication, HaResource}
use proxmox_desk_display.Display.Inventory.{
  StorageItem, Alert, Certificate, MetricTrend, ClusterOption, CephCluster, Capability, Update,
  Repository, Subscription,
}
use proxmox_desk_display.Display.State.{State}
use proxmox_desk_display.Base.Order.Keys.{by_key}
use proxmox_desk_display.Base.Order.{StrictWeak, Ordered}
use proxmox_desk_display.Display.Health.{severity_rank}
use proxmox_desk_display.Display.Finalize.{new_state, finalize}
use proxmox_desk_display.Display.Hosts.{Cluster, Host, Storage, Disk, Network, Service, ZfsPool}

pub record Sorter : Type 1 where
  pub sort : {A : Type 0} → (A → A → Bool) → List A → List A

-- What package sort documents of its result, for a strict weak order.
pub record IsSort (s : Sorter) : Type 1 where
  pub perm : {A : Type 0} (less : A → A → Bool) (xs : List A) → Perm (s.sort less xs) xs
  pub ordered :
      {A : Type 0} (less : A → A → Bool)
      → StrictWeak less
      → (xs : List A) → Ordered less (s.sort less xs)
  pub count : {A : Type 0} (less : A → A → Bool) (xs : List A) → length (s.sort less xs) ≡ length xs

abbrev pub max_display_tasks : ℕ
max_display_tasks = 48

abbrev pub max_display_updates : ℕ
max_display_updates = 64

abbrev pub max_display_repos : ℕ
max_display_repos = 48

abbrev pub max_display_snapshots : ℕ
max_display_snapshots = 96

abbrev pub max_display_services : ℕ
max_display_services = 96

abbrev pub max_display_networks : ℕ
max_display_networks = 64

abbrev pub max_storage_items : ℕ
max_storage_items = 256

abbrev pub max_metric_trends : ℕ
max_metric_trends = 384

abbrev pub max_capabilities : ℕ
max_capabilities = 512

abbrev pub max_cluster_options : ℕ
max_cluster_options = 64

-- `a.ID < b.ID`
abbrev pub by_id : {A : Type 0} → (A → Text) → A → A → Bool
by_id id a b = text_lt (id a) (id b)

-- A pinned guest comes first, since `a` is pinned where the two differ and `a` is less.
abbrev pub pinned_first : Bool → Bool → Bool
pinned_first a b = a && not b

abbrev pub bool_eq : Bool → Bool → Bool
bool_eq true b = b
bool_eq false b = not b

abbrev pub later : ℤ → ℤ → Bool
later a b = ltb_ℤ b a

unfoldable pub guest_less : Guest → Guest → Bool
guest_less = by_key bool_eq pinned_first (λ (g : Guest). g.pinned) (by_id (λ (g : Guest). g.id))

unfoldable pub snapshot_less : Snapshot → Snapshot → Bool
snapshot_less = by_key eqb_ℤ later (λ (x : Snapshot). x.snap_time) (by_id (λ (x : Snapshot). x.id))

unfoldable pub task_less : Task → Task → Bool
task_less = by_key eqb_ℤ later (λ (t : Task). t.started_at) (by_id (λ (t : Task). t.id))

unfoldable pub storage_item_less : StorageItem → StorageItem → Bool
storage_item_less =
    by_key eqb_ℤ later (λ (x : StorageItem). x.created_at) (by_id (λ (x : StorageItem). x.id))

unfoldable pub alert_less : Alert → Alert → Bool
alert_less a b = ltb (severity_rank b.severity) (severity_rank a.severity)

-- The appends of the loop over the results, for one list.
unfoldable pub gather : {A : Type 0} → (State → Slice A) → List State → List A
gather f [] = []
gather f (s ∷ rest) = elems (f s) ++ gather f rest

-- `if len(xs) > max { xs = xs[:max] }`
unfoldable pub cut : {A : Type 0} → ℕ → List A → List A
cut max xs = if ltb max (length xs) then take max xs else xs

-- The state before Finalize, which makes an empty slice of a nil one.
unfoldable pub merged : Sorter → ℤ → List State → State
unfolding gather cut
merged s now sources = record (new_state now) {
  clusters = some (s.sort (by_id (λ (x : Cluster). x.id)) (gather (λ x. x.clusters) sources));
  hosts = some (s.sort (by_id (λ (x : Host). x.id)) (gather (λ x. x.hosts) sources));
  guests = some (s.sort guest_less (gather (λ x. x.guests) sources));
  storages = some (s.sort (by_id (λ (x : Storage). x.id)) (gather (λ x. x.storages) sources));
  disks = some (s.sort (by_id (λ (x : Disk). x.id)) (gather (λ x. x.disks) sources));
  networks = some (
      cut max_display_networks
        (s.sort (by_id (λ (x : Network). x.id)) (gather (λ x. x.networks) sources)));
  services = some (
      cut max_display_services
        (s.sort (by_id (λ (x : Service). x.id)) (gather (λ x. x.services) sources)));
  zfs_pools = some (s.sort (by_id (λ (x : ZfsPool). x.id)) (gather (λ x. x.zfs_pools) sources));
  snapshots =
      some (cut max_display_snapshots (s.sort snapshot_less (gather (λ x. x.snapshots) sources)));
  tasks = some (cut max_display_tasks (s.sort task_less (gather (λ x. x.tasks) sources)));
  backup_jobs =
      some (s.sort (by_id (λ (x : BackupJob). x.id)) (gather (λ x. x.backup_jobs) sources));
  replications =
      some (s.sort (by_id (λ (x : Replication). x.id)) (gather (λ x. x.replications) sources));
  ha_resources =
      some (s.sort (by_id (λ (x : HaResource). x.id)) (gather (λ x. x.ha_resources) sources));
  certificates =
      some (s.sort (by_id (λ (x : Certificate). x.id)) (gather (λ x. x.certificates) sources));
  storage_items =
      some
        (cut max_storage_items (s.sort storage_item_less (gather (λ x. x.storage_items) sources)));
  metric_trends = some (
      cut max_metric_trends
        (s.sort (by_id (λ (x : MetricTrend). x.id)) (gather (λ x. x.metric_trends) sources)));
  cluster_options = some (
      cut max_cluster_options
        (s.sort (by_id (λ (x : ClusterOption). x.id)) (gather (λ x. x.cluster_options) sources)));
  ceph_clusters =
      some (s.sort (by_id (λ (x : CephCluster). x.id)) (gather (λ x. x.ceph_clusters) sources));
  capabilities = some (
      cut max_capabilities
        (s.sort (by_id (λ (x : Capability). x.id)) (gather (λ x. x.capabilities) sources)));
  updates = some (
      cut max_display_updates
        (s.sort (by_id (λ (x : Update). x.id)) (gather (λ x. x.updates) sources)));
  repositories = some (
      cut max_display_repos
        (s.sort (by_id (λ (x : Repository). x.id)) (gather (λ x. x.repositories) sources)));
  subscriptions =
      some (s.sort (by_id (λ (x : Subscription). x.id)) (gather (λ x. x.subscriptions) sources));
  alerts = some (s.sort alert_less (gather (λ x. x.alerts) sources));
}

unfoldable pub collect : Sorter → ℤ → List State → State
unfolding merged
collect s now sources = finalize (merged s now sources)
