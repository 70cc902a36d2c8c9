-- ===== src/Provider/Source/Clusters.antt =====
-- The calls of collectSource on the cluster (apps/bridge/internal/proxmox/provider.go).
use proxmox_desk_display.Base.{[], ◌∷◌, some, none, List, if◌then◌else◌, Option, ◌++◌, map}
use proxmox_desk_display.Provider.Source.Steps.{
  Scan, with_capability, alert_of, is_bad, appended, raise_cluster, warn_cluster,
}
use proxmox_desk_display.Provider.Api.{
  answered, failed, Call, cluster_status, cluster_options, cluster_backup_jobs,
  cluster_ha_resources, cluster_storage,
}
use proxmox_desk_display.Base.Text.{Text, codes, text_eq}
use proxmox_desk_display.Display.State.{State}
use proxmox_desk_display.Provider.Api.Clusters.{HaItem, StorageConfig}
use proxmox_desk_display.Display.Inventory.{CephCluster, Alert}
use proxmox_desk_display.Display.Hosts.{Cluster}
use proxmox_desk_display.Provider.Convert.Jobs.{ha_resource_display, backup_job_display}
use proxmox_desk_display.Provider.Rules.{push_alert}
use proxmox_desk_display.Provider.Json.{first_non_empty}
use proxmox_desk_display.Provider.Convert.Clusters.{
  ceph_cluster, apply_cluster_status, cluster_options_display,
}
use proxmox_desk_display.Display.Health.{Health}
use proxmox_desk_display.Display.Jobs.{HaResource}

module _ (w : Scan) where
  abbrev pub quorum_alert : Alert
  quorum_alert =
      alert_of w.client.id (w.client.id ++ codes "/cluster-quorum") [] [] Health.critical
        (w.client.name ++ codes " quorum") (codes "cluster is not quorate")

  unfoldable pub check_quorum : State × Cluster → State × Cluster
  check_quorum (s, c) =
      if c.quorate
      then (s, c)
      else (push_alert quorum_alert s, record c { health = Health.critical })

  unfoldable pub scan_status : State × Cluster → State × Cluster
  unfolding check_quorum
  scan_status (s, c) =
      let add =
        with_capability w.client [] [] (codes "cluster_status")
          (codes "/api2/json/cluster/status") in
      elim (cluster_status w.api) [
        | failed e ↦ (add (some e) s, warn_cluster (codes "cluster status unavailable") c)
        | answered statuses ↦ check_quorum (add none s, apply_cluster_status statuses c)
      ]

  unfoldable pub scan_options : State × Cluster → State × Cluster
  scan_options (s, c) =
      let add =
        with_capability w.client [] [] (codes "cluster_options")
          (codes "/api2/json/cluster/options") in
      elim (cluster_options w.api) [
        | failed e ↦ (add (some e) s, warn_cluster (codes "cluster options unavailable") c)
        | answered options ↦ (
          record (add none s) {
            cluster_options =
                appended s.cluster_options
                  (cluster_options_display w.sorter w.floats w.client options);
          },
          c,
        )
      ]

  unfoldable pub scan_backup_jobs : State × Cluster → State × Cluster
  scan_backup_jobs (s, c) =
      let add =
        with_capability w.client [] [] (codes "backup_jobs") (codes "/api2/json/cluster/backup") in
      elim (cluster_backup_jobs w.api) [
        | failed e ↦ (add (some e) s, warn_cluster (codes "backup jobs unavailable") c)
        | answered jobs ↦ (
          record (add none s) {
            backup_jobs = appended s.backup_jobs (map (backup_job_display w.client) jobs);
          },
          c,
        )
      ]

  abbrev pub ha_alert : HaResource → Alert
  ha_alert r =
      alert_of w.client.id (r.id ++ codes "/ha") [] [] r.health
        (w.client.name ++ codes " HA " ++ r.sid)
        (first_non_empty (r.state ∷ r.request_state ∷ codes "not ok" ∷ []))

  -- One turn of the loop over the HA resources.
  unfoldable pub add_ha_resource : HaItem → State × Cluster → State × Cluster
  add_ha_resource item (s, c) =
      let r = ha_resource_display w.client item in
      let raised = if is_bad r.health then push_alert (ha_alert r) s else s in
      (
        record raised { ha_resources = appended raised.ha_resources (r ∷ []) },
        if is_bad r.health then raise_cluster r.health c else c,
      )

  unfoldable pub add_ha_resources : List HaItem → State × Cluster → State × Cluster
  unfolding add_ha_resource
  add_ha_resources [] acc = acc
  add_ha_resources (item ∷ rest) acc = add_ha_resources rest (add_ha_resource item acc)

  unfoldable pub scan_ha : State × Cluster → State × Cluster
  unfolding add_ha_resources
  scan_ha (s, c) =
      let add =
        with_capability w.client [] [] (codes "ha_resources")
          (codes "/api2/json/cluster/ha/resources") in
      elim (cluster_ha_resources w.api) [
        | failed e ↦ (add (some e) s, warn_cluster (codes "HA unavailable") c)
        | answered items ↦ add_ha_resources items (add none s, c)
      ]

  abbrev pub ceph_alert : CephCluster → Alert
  ceph_alert ceph =
      alert_of w.client.id (ceph.id ++ codes "/health") [] [] ceph.health
        (w.client.name ++ codes " Ceph")
        (first_non_empty (ceph.health_text ∷ codes "not healthy" ∷ []))

  unfoldable pub add_ceph : CephCluster → State × Cluster → State × Cluster
  add_ceph ceph (s, c) =
      let raised = if is_bad ceph.health then push_alert (ceph_alert ceph) s else s in
      (
        record raised { ceph_clusters = appended raised.ceph_clusters (ceph ∷ []) },
        if is_bad ceph.health then raise_cluster ceph.health c else c,
      )

  unfoldable pub scan_ceph : State × Cluster → State × Cluster
  unfolding add_ceph
  scan_ceph (s, c) =
      let add =
        with_capability w.client [] [] (codes "ceph") (codes "/api2/json/cluster/ceph/status") in
      elim (ceph_cluster w.floats w.api w.client) [
        | failed e ↦ (add (some e) s, c)
        | answered ceph ↦ add_ceph ceph (add none s, c)
      ]

  unfoldable pub scan_storage_config : State × Cluster → State × Cluster
  scan_storage_config (s, c) =
      let add =
        with_capability w.client [] [] (codes "storage_config") (codes "/api2/json/storage") in
      elim (cluster_storage w.api) [
        | failed e ↦ (add (some e) s, warn_cluster (codes "storage config unavailable") c)
        | answered configs ↦ (add none s, c)
      ]

  -- The calls on the cluster, in their order.
  unfoldable pub scan_cluster : State × Cluster → State × Cluster
  unfolding scan_status scan_options scan_backup_jobs scan_ha scan_ceph scan_storage_config
  scan_cluster acc =
      scan_storage_config (scan_ceph (scan_ha (scan_backup_jobs (scan_options (scan_status acc)))))

-- storageConfigByName, empty where the call failed; a later entry replaces an earlier one.
abbrev pub storage_configs : Call (List StorageConfig) → List StorageConfig
storage_configs (failed e) = []
storage_configs (answered configs) = configs

unfoldable pub config_of : Text → List StorageConfig → Option StorageConfig
config_of name [] = none
config_of name (cfg ∷ rest) = elim (config_of name rest) [
  | some later ↦ some later
  | none ↦ if text_eq cfg.storage name then some cfg else none
]
