-- ===== src/Provider/Collect/Merged.antt =====
-- A collected state and the states of the sources (apps/bridge/internal/proxmox/provider.go).
use proxmox_desk_display.Base.{List, elems}
use proxmox_desk_display.Provider.Collect.{
  Sorter, IsSort, by_id, collect, gather, merged, guest_less, max_display_networks,
  max_display_services, snapshot_less, max_display_snapshots, task_less, max_display_tasks,
  storage_item_less, max_storage_items, max_metric_trends, max_cluster_options, max_capabilities,
  max_display_updates, max_display_repos, alert_less,
}
use proxmox_desk_display.Display.State.{State}
use proxmox_desk_display.Provider.Collect.Listing.{
  IsWhole, sort-IsWhole, by_id-StrictWeak, guest_less-StrictWeak, IsTop, sort-IsTop,
  snapshot_less-StrictWeak, task_less-StrictWeak, storage_item_less-StrictWeak,
  alert_less-StrictWeak,
}
use proxmox_desk_display.Base.Int.{ℤ}
use proxmox_desk_display.Display.Hosts.{Cluster, Host, Storage, Disk, Network, Service, ZfsPool}
use proxmox_desk_display.Display.Finalize.{finalize}
use proxmox_desk_display.Display.Finalize.Lists.{HasLists, finalize_keeps}
use proxmox_desk_display.Display.Jobs.{BackupJob, Replication, HaResource}
use proxmox_desk_display.Display.Inventory.{
  Certificate, MetricTrend, ClusterOption, CephCluster, Capability, Update, Repository,
  Subscription,
}

-- Each list of the collected state and the lists of the sources.
pub record IsMerged (sources : List State) (state : State) : Type 0 where
  pub clusters :
      IsWhole
        (by_id (λ (x : Cluster). x.id))
        (gather (λ s. s.clusters) sources)
        (elems state.clusters)
  pub hosts :
      IsWhole (by_id (λ (x : Host). x.id)) (gather (λ s. s.hosts) sources) (elems state.hosts)
  pub guests : IsWhole guest_less (gather (λ s. s.guests) sources) (elems state.guests)
  pub storages :
      IsWhole
        (by_id (λ (x : Storage). x.id))
        (gather (λ s. s.storages) sources)
        (elems state.storages)
  pub disks :
      IsWhole (by_id (λ (x : Disk). x.id)) (gather (λ s. s.disks) sources) (elems state.disks)
  pub networks :
      IsTop
        (by_id (λ (x : Network). x.id))
        max_display_networks
        (gather (λ s. s.networks) sources)
        (elems state.networks)
  pub services :
      IsTop
        (by_id (λ (x : Service). x.id))
        max_display_services
        (gather (λ s. s.services) sources)
        (elems state.services)
  pub zfs_pools :
      IsWhole
        (by_id (λ (x : ZfsPool). x.id))
        (gather (λ s. s.zfs_pools) sources)
        (elems state.zfs_pools)
  pub snapshots :
      IsTop snapshot_less max_display_snapshots
        (gather (λ s. s.snapshots) sources)
        (elems state.snapshots)
  pub tasks : IsTop task_less max_display_tasks (gather (λ s. s.tasks) sources) (elems state.tasks)
  pub backup_jobs :
      IsWhole
        (by_id (λ (x : BackupJob). x.id))
        (gather (λ s. s.backup_jobs) sources)
        (elems state.backup_jobs)
  pub replications :
      IsWhole
        (by_id (λ (x : Replication). x.id))
        (gather (λ s. s.replications) sources)
        (elems state.replications)
  pub ha_resources :
      IsWhole
        (by_id (λ (x : HaResource). x.id))
        (gather (λ s. s.ha_resources) sources)
        (elems state.ha_resources)
  pub certificates :
      IsWhole
        (by_id (λ (x : Certificate). x.id))
        (gather (λ s. s.certificates) sources)
        (elems state.certificates)
  pub storage_items :
      IsTop storage_item_less max_storage_items
        (gather (λ s. s.storage_items) sources)
        (elems state.storage_items)
  pub metric_trends :
      IsTop
        (by_id (λ (x : MetricTrend). x.id))
        max_metric_trends
        (gather (λ s. s.metric_trends) sources)
        (elems state.metric_trends)
  pub cluster_options :
      IsTop
        (by_id (λ (x : ClusterOption). x.id))
        max_cluster_options
        (gather (λ s. s.cluster_options) sources)
        (elems state.cluster_options)
  pub ceph_clusters :
      IsWhole
        (by_id (λ (x : CephCluster). x.id))
        (gather (λ s. s.ceph_clusters) sources)
        (elems state.ceph_clusters)
  pub capabilities :
      IsTop
        (by_id (λ (x : Capability). x.id))
        max_capabilities
        (gather (λ s. s.capabilities) sources)
        (elems state.capabilities)
  pub updates :
      IsTop
        (by_id (λ (x : Update). x.id))
        max_display_updates
        (gather (λ s. s.updates) sources)
        (elems state.updates)
  pub repositories :
      IsTop
        (by_id (λ (x : Repository). x.id))
        max_display_repos
        (gather (λ s. s.repositories) sources)
        (elems state.repositories)
  pub subscriptions :
      IsWhole
        (by_id (λ (x : Subscription). x.id))
        (gather (λ s. s.subscriptions) sources)
        (elems state.subscriptions)
  pub alerts : IsWhole alert_less (gather (λ s. s.alerts) sources) (elems state.alerts)

module _ (s : Sorter) (laws : IsSort s) (now : ℤ) (sources : List State) where
  collected : IsMerged sources (collect s now sources)
  unfolding collect finalize
  collected = record {
    clusters =
        sort-IsWhole s laws (by_id (λ (x : Cluster). x.id))
          (by_id-StrictWeak (λ (x : Cluster). x.id)) (gather (λ x. x.clusters) sources);
    hosts =
        sort-IsWhole s laws (by_id (λ (x : Host). x.id)) (by_id-StrictWeak (λ (x : Host). x.id))
          (gather (λ x. x.hosts) sources);
    guests = sort-IsWhole s laws guest_less guest_less-StrictWeak (gather (λ x. x.guests) sources);
    storages =
        sort-IsWhole s laws (by_id (λ (x : Storage). x.id))
          (by_id-StrictWeak (λ (x : Storage). x.id)) (gather (λ x. x.storages) sources);
    disks =
        sort-IsWhole s laws (by_id (λ (x : Disk). x.id)) (by_id-StrictWeak (λ (x : Disk). x.id))
          (gather (λ x. x.disks) sources);
    networks =
        sort-IsTop s laws (by_id (λ (x : Network). x.id)) (by_id-StrictWeak (λ (x : Network). x.id))
          max_display_networks (gather (λ x. x.networks) sources);
    services =
        sort-IsTop s laws (by_id (λ (x : Service). x.id)) (by_id-StrictWeak (λ (x : Service). x.id))
          max_display_services (gather (λ x. x.services) sources);
    zfs_pools =
        sort-IsWhole s laws (by_id (λ (x : ZfsPool). x.id))
          (by_id-StrictWeak (λ (x : ZfsPool). x.id)) (gather (λ x. x.zfs_pools) sources);
    snapshots =
        sort-IsTop s laws snapshot_less snapshot_less-StrictWeak max_display_snapshots
          (gather (λ x. x.snapshots) sources);
    tasks =
        sort-IsTop s laws task_less task_less-StrictWeak max_display_tasks
          (gather (λ x. x.tasks) sources);
    backup_jobs =
        sort-IsWhole s laws (by_id (λ (x : BackupJob). x.id))
          (by_id-StrictWeak (λ (x : BackupJob). x.id)) (gather (λ x. x.backup_jobs) sources);
    replications =
        sort-IsWhole s laws (by_id (λ (x : Replication). x.id))
          (by_id-StrictWeak (λ (x : Replication). x.id)) (gather (λ x. x.replications) sources);
    ha_resources =
        sort-IsWhole s laws (by_id (λ (x : HaResource). x.id))
          (by_id-StrictWeak (λ (x : HaResource). x.id)) (gather (λ x. x.ha_resources) sources);
    certificates =
        sort-IsWhole s laws (by_id (λ (x : Certificate). x.id))
          (by_id-StrictWeak (λ (x : Certificate). x.id)) (gather (λ x. x.certificates) sources);
    storage_items =
        sort-IsTop s laws storage_item_less storage_item_less-StrictWeak max_storage_items
          (gather (λ x. x.storage_items) sources);
    metric_trends =
        sort-IsTop s laws (by_id (λ (x : MetricTrend). x.id))
          (by_id-StrictWeak (λ (x : MetricTrend). x.id)) max_metric_trends
          (gather (λ x. x.metric_trends) sources);
    cluster_options =
        sort-IsTop s laws (by_id (λ (x : ClusterOption). x.id))
          (by_id-StrictWeak (λ (x : ClusterOption). x.id)) max_cluster_options
          (gather (λ x. x.cluster_options) sources);
    ceph_clusters =
        sort-IsWhole s laws (by_id (λ (x : CephCluster). x.id))
          (by_id-StrictWeak (λ (x : CephCluster). x.id)) (gather (λ x. x.ceph_clusters) sources);
    capabilities =
        sort-IsTop s laws (by_id (λ (x : Capability). x.id))
          (by_id-StrictWeak (λ (x : Capability). x.id)) max_capabilities
          (gather (λ x. x.capabilities) sources);
    updates =
        sort-IsTop s laws (by_id (λ (x : Update). x.id)) (by_id-StrictWeak (λ (x : Update). x.id))
          max_display_updates (gather (λ x. x.updates) sources);
    repositories =
        sort-IsTop s laws (by_id (λ (x : Repository). x.id))
          (by_id-StrictWeak (λ (x : Repository). x.id)) max_display_repos
          (gather (λ x. x.repositories) sources);
    subscriptions =
        sort-IsWhole s laws (by_id (λ (x : Subscription). x.id))
          (by_id-StrictWeak (λ (x : Subscription). x.id)) (gather (λ x. x.subscriptions) sources);
    alerts = sort-IsWhole s laws alert_less alert_less-StrictWeak (gather (λ x. x.alerts) sources);
  }

  pub collect-IsMerged : IsMerged sources (collect s now sources) × HasLists (collect s now sources)
  unfolding collect
  collect-IsMerged = (collected, (finalize_keeps (merged s now sources)).0)
