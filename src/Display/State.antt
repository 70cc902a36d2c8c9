-- ===== src/Display/State.antt =====
-- The collected state and its detail view (apps/bridge/internal/display/state.go). Times are
-- nanoseconds since the epoch.
use proxmox_desk_display.Base.{ℕ, Bool, Slice}
use proxmox_desk_display.Base.Int.{ℤ}
use proxmox_desk_display.Base.Text.{Text}
use proxmox_desk_display.Display.Health.{Health}
use proxmox_desk_display.Display.Hosts.{Cluster, Host, Storage, Disk, Network, Service, ZfsPool}
use proxmox_desk_display.Display.Guests.{Guest, Snapshot}
use proxmox_desk_display.Display.Jobs.{Task, BackupJob, Replication, HaResource}
use proxmox_desk_display.Display.Inventory.{
  Certificate, StorageItem, MetricTrend, ClusterOption, CephCluster, Capability, Update, Repository,
  Subscription, Alert,
}

pub record Summary : Type 0 where
  pub health : Health
  pub hosts_online : ℕ
  pub hosts_total : ℕ
  pub guests_running : ℕ
  pub guests_stopped : ℕ
  pub alerts : ℕ
  pub updates : ℕ

pub record State : Type 0 where
  pub schema : Text
  pub generated_at : ℤ
  pub stale : Bool
  pub summary : Summary
  pub clusters : Slice Cluster
  pub hosts : Slice Host
  pub storages : Slice Storage
  pub disks : Slice Disk
  pub networks : Slice Network
  pub services : Slice Service
  pub zfs_pools : Slice ZfsPool
  pub guests : Slice Guest
  pub snapshots : Slice Snapshot
  pub tasks : Slice Task
  pub backup_jobs : Slice BackupJob
  pub replications : Slice Replication
  pub ha_resources : Slice HaResource
  pub certificates : Slice Certificate
  pub storage_items : Slice StorageItem
  pub metric_trends : Slice MetricTrend
  pub cluster_options : Slice ClusterOption
  pub ceph_clusters : Slice CephCluster
  pub capabilities : Slice Capability
  pub updates : Slice Update
  pub repositories : Slice Repository
  pub subscriptions : Slice Subscription
  pub alerts : Slice Alert

pub record DetailState : Type 0 where
  pub schema : Text
  pub generated_at : ℤ
  pub stale : Bool
  pub zfs_pools : Slice ZfsPool
  pub certificates : Slice Certificate
  pub storage_items : Slice StorageItem
  pub metric_trends : Slice MetricTrend
  pub cluster_options : Slice ClusterOption
  pub ceph_clusters : Slice CephCluster
  pub capabilities : Slice Capability
