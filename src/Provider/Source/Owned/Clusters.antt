-- ===== src/Provider/Source/Owned/Clusters.antt =====
-- The source of what the calls on the cluster add (apps/bridge/internal/proxmox/provider.go).
use proxmox_desk_display.Base.{
  [], ◌∷◌, none, refl, inl, inr, Bool-cases, List, ◌≡◌, ◌∙◌, if◌then◌else◌,
}
use proxmox_desk_display.Provider.Source.Steps.{Scan, is_bad, appended, raise_cluster}
use proxmox_desk_display.Display.State.{State}
use proxmox_desk_display.Provider.Source.Clusters.{
  check_quorum, scan_status, scan_options, scan_backup_jobs, add_ha_resources, scan_ha,
  add_ha_resource, add_ceph, scan_ceph, scan_storage_config, scan_cluster, ha_alert,
}
use proxmox_desk_display.Provider.Source.Owned.{IsOwned}
use proxmox_desk_display.Display.Hosts.{Cluster}
use proxmox_desk_display.Provider.Convert.Clusters.{apply_cluster_status, ceph_cluster}
use proxmox_desk_display.Provider.Convert.Jobs.{ha_resource_display}
use proxmox_desk_display.Provider.Api.{
  Call-cases, cluster_status, cluster_backup_jobs, cluster_ha_resources, cluster_options,
  cluster_storage,
}
use proxmox_desk_display.Provider.Api.Clusters.{HaItem}
use proxmox_desk_display.Provider.Rules.{push_alert}
use proxmox_desk_display.Provider.Source.Owned.ClusterSteps.{
  scan_storage_config-IsOwned, raised_cluster-source, noted, scan_ceph-IsOwned,
  apply_cluster_status-source, scan_ha-IsOwned, scan_backup_jobs-IsOwned, scan_options-IsOwned,
  scan_status-IsOwned,
}

module _ (w : Scan) where
  -- The calls on the cluster add records of the source.
  pub scan_cluster-IsOwned :
      (s : State) (c : Cluster)
      → IsOwned w.client.id s
      → IsOwned w.client.id (scan_cluster w (s, c)).0
  unfolding scan_cluster
  scan_cluster-IsOwned s c own = scan_storage_config-IsOwned w _ _ (
      scan_ceph-IsOwned w _ _ (
        scan_ha-IsOwned w _ _ (
          scan_backup_jobs-IsOwned w _ _
            (scan_options-IsOwned w _ _ (scan_status-IsOwned w s c own)))))

  checked-source : (s : State) (c : Cluster) → (check_quorum w (s, c)).1.source_id ≡ c.source_id
  unfolding check_quorum
  checked-source s c = elim (Bool-cases c.quorate) [ inl p ↦ rw p refl | inr p ↦ rw p refl ]

  add_ha_resources-source :
      (items : List HaItem) (s : State) (c : Cluster)
      → (add_ha_resources w items (s, c)).1.source_id ≡ c.source_id
  unfolding add_ha_resources add_ha_resource
  add_ha_resources-source [] s c = refl
  add_ha_resources-source (item ∷ rest) s c =
      let r = ha_resource_display w.client item in
      let raised = if is_bad r.health then push_alert (ha_alert w r) s else s in
      add_ha_resources-source rest
        (record raised { ha_resources = appended raised.ha_resources (r ∷ []) })
        (if is_bad r.health then raise_cluster r.health c else c)
      ∙ raised_cluster-source (is_bad r.health) r.health c

  scan_status-source : (s : State) (c : Cluster) → (scan_status w (s, c)).1.source_id ≡ c.source_id
  unfolding scan_status
  scan_status-source s c = elim (Call-cases (cluster_status w.api)) [
    | inl (e, p) ↦ rw (p, scan_status) refl
    | inr (a, p) ↦
        rw (p, scan_status)
          (checked-source (noted w "cluster_status" "/api2/json/cluster/status" none s)
              (apply_cluster_status a c)
            ∙ apply_cluster_status-source a c)
  ]

  scan_options-source :
      (s : State) (c : Cluster) → (scan_options w (s, c)).1.source_id ≡ c.source_id
  unfolding scan_options
  scan_options-source s c = elim (Call-cases (cluster_options w.api)) [
    | inl (e, p) ↦ rw (p, scan_options) refl
    | inr (a, p) ↦ rw (p, scan_options) (refl)
  ]

  scan_backup_jobs-source :
      (s : State) (c : Cluster) → (scan_backup_jobs w (s, c)).1.source_id ≡ c.source_id
  unfolding scan_backup_jobs
  scan_backup_jobs-source s c = elim (Call-cases (cluster_backup_jobs w.api)) [
    | inl (e, p) ↦ rw (p, scan_backup_jobs) refl
    | inr (a, p) ↦ rw (p, scan_backup_jobs) (refl)
  ]

  scan_ha-source : (s : State) (c : Cluster) → (scan_ha w (s, c)).1.source_id ≡ c.source_id
  unfolding scan_ha
  scan_ha-source s c = elim (Call-cases (cluster_ha_resources w.api)) [
    | inl (e, p) ↦ rw (p, scan_ha) refl
    | inr (a, p) ↦
        rw (p, scan_ha)
          (add_ha_resources-source a
            (noted w "ha_resources" "/api2/json/cluster/ha/resources" none s) c)
  ]

  scan_ceph-source : (s : State) (c : Cluster) → (scan_ceph w (s, c)).1.source_id ≡ c.source_id
  unfolding scan_ceph add_ceph
  scan_ceph-source s c = elim (Call-cases (ceph_cluster w.floats w.api w.client)) [
    | inl (e, p) ↦ rw (p, scan_ceph) refl
    | inr (a, p) ↦ rw (p, scan_ceph) (raised_cluster-source (is_bad a.health) a.health c)
  ]

  scan_storage_config-source :
      (s : State) (c : Cluster) → (scan_storage_config w (s, c)).1.source_id ≡ c.source_id
  unfolding scan_storage_config
  scan_storage_config-source s c = elim (Call-cases (cluster_storage w.api)) [
    | inl (e, p) ↦ rw (p, scan_storage_config) refl
    | inr (a, p) ↦ rw (p, scan_storage_config) (refl)
  ]

  pub scan_cluster-source :
      (s : State) (c : Cluster) → (scan_cluster w (s, c)).1.source_id ≡ c.source_id
  unfolding scan_cluster
  scan_cluster-source s c =
      let r1 = scan_status w (s, c) in
      let r2 = scan_options w r1 in
      let r3 = scan_backup_jobs w r2 in
      let r4 = scan_ha w r3 in
      let r5 = scan_ceph w r4 in
      scan_storage_config-source r5.0 r5.1
      ∙ scan_ceph-source r4.0 r4.1
      ∙ scan_ha-source r3.0 r3.1
      ∙ scan_backup_jobs-source r2.0 r2.1
      ∙ scan_options-source r1.0 r1.1
      ∙ scan_status-source s c
