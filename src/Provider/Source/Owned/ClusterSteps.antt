-- ===== src/Provider/Source/Owned/ClusterSteps.antt =====
-- The source of the records of each stage about the cluster
-- (apps/bridge/internal/proxmox/provider.go).
use proxmox_desk_display.Base.{
  [], ◌∷◌, some, none, refl, inl, inr, Option, Bool-cases, List, ◌≡◌, sym, ◌∙◌, String, map,
  if◌then◌else◌, All, ◌++◌, true, false, Bool, ℕ, ◌&&◌, ◌==◌,
}
use proxmox_desk_display.Provider.Source.Steps.{
  Scan, with_capability, is_bad, appended, raise_cluster,
}
use proxmox_desk_display.Display.State.{State}
use proxmox_desk_display.Provider.Source.Clusters.{
  check_quorum, scan_status, scan_options, scan_backup_jobs, add_ha_resources, scan_ha,
  add_ha_resource, add_ceph, scan_ceph, scan_storage_config, quorum_alert, ha_alert, ceph_alert,
}
use proxmox_desk_display.Provider.Source.Owned.{IsOwned}
use proxmox_desk_display.Base.Text.{Text, text_lt, codes, text_eq}
use proxmox_desk_display.Display.Hosts.{Cluster}
use proxmox_desk_display.Provider.Convert.Clusters.{
  cluster_options_display, apply_cluster_status, ceph_cluster, ceph_display, option_keys,
  count_statuses, with_nodes, count_status,
}
use proxmox_desk_display.Provider.Convert.Jobs.{backup_job_display, ha_resource_display}
use proxmox_desk_display.Provider.Api.{
  Call-cases, cluster_status, cluster_backup_jobs, cluster_ha_resources, answered, cluster_options,
  failed, cluster_storage, ceph_status,
}
use proxmox_desk_display.Provider.Calls.{CallError}
use proxmox_desk_display.Provider.Source.Owned.Appends.{
  push_alert-IsOwned, appended_backup_jobs, with_capability-IsOwned, appended_ha_resources,
  may_push-IsOwned, appended_cluster_options, appended_ceph_clusters,
}
use proxmox_desk_display.Provider.Api.Clusters.{HaItem, BackupItem, ClusterStatus}
use proxmox_desk_display.Display.Inventory.{CephCluster, ClusterOption}
use proxmox_desk_display.Provider.Json.{Any, compact_value, value_of}
use proxmox_desk_display.Provider.Rules.{push_alert}
use proxmox_desk_display.Display.Health.{Health}
use proxmox_desk_display.Base.Int.{ℤ, is_above_zero, ltb_ℤ, pos}

answered-ne-failed : {A : Type 0} (a : A) (e : CallError) → answered a ≡ failed e → ⊥
answered-ne-failed a e h = cc

pub raised_cluster-source :
    (b : Bool) (l : Health) (c : Cluster)
    → (if b then raise_cluster l c else c).source_id ≡ c.source_id
raised_cluster-source true l c = refl
raised_cluster-source false l c = refl

count_status-source :
    (x : ClusterStatus) (c : Cluster) (n m : ℕ)
    → (count_status x (c, n, m)).0.source_id ≡ c.source_id
unfolding count_status
count_status-source x c n m = elim (Bool-cases (text_eq x.type (codes "cluster"))) [
  | inl p ↦ rw p refl
  | inr p ↦ elim (Bool-cases (text_eq x.type (codes "node"))) [
    | inl q ↦ rw (p, q) refl
    | inr q ↦ rw (p, q) refl
  ]
]

count_statuses-source :
    (xs : List ClusterStatus) (acc : Cluster × ℕ × ℕ)
    → (count_statuses xs acc).0.source_id ≡ acc.0.source_id
unfolding count_statuses
count_statuses-source [] acc = refl
count_statuses-source (x ∷ xs) acc =
    count_statuses-source xs (count_status x acc) ∙ count_status-source x acc.0 acc.1 acc.2

with_nodes-source :
    (c : Cluster) (total online : ℤ) → (with_nodes c total online).source_id ≡ c.source_id
unfolding with_nodes
with_nodes-source c total online = elim (Bool-cases (is_above_zero total && ltb_ℤ online total)) [
  | inl p ↦ rw p refl
  | inr p ↦ rw p refl
]

pub apply_cluster_status-source :
    (xs : List ClusterStatus) (c : Cluster) → (apply_cluster_status xs c).source_id ≡ c.source_id
unfolding apply_cluster_status
apply_cluster_status-source xs c =
    let r = count_statuses xs (c, 0, 0) in
    with_nodes-source r.0 (if r.1 == 0 then r.0.nodes_expected else pos r.1) (pos r.2)
    ∙ count_statuses-source xs (c, 0, 0)

module _ (w : Scan) where
  -- The state with the outcome of a call on the cluster.
  abbrev pub noted : String → String → Option CallError → State → State
  noted name endpoint e s = with_capability w.client [] [] (codes name) (codes endpoint) e s

  noted-IsOwned :
      (s : State) (name endpoint : String) (e : Option CallError)
      → IsOwned w.client.id s
      → IsOwned w.client.id (noted name endpoint e s)
  noted-IsOwned s name endpoint e own =
      with_capability-IsOwned w.client s [] [] (codes name) (codes endpoint) e own

  -- The option of a key, as clusterOptionsDisplay makes it.
  abbrev option_for : List (Text × Any) → Text → ClusterOption
  option_for options key = record {
    id = w.client.id ++ codes "/" ++ key;
    source_id = w.client.id;
    key = key;
    value = compact_value w.floats (value_of key options);
  }

  options_owned :
      (options : List (Text × Any)) (keys : List Text)
      → All (λ (x : ClusterOption). x.source_id ≡ w.client.id) (map (option_for options) keys)
  options_owned options [] = tt
  options_owned options (k ∷ keys) = (refl, options_owned options keys)

  jobs_owned :
      (jobs : List BackupItem)
      → All (λ x. x.source_id ≡ w.client.id) (map (backup_job_display w.client) jobs)
  unfolding backup_job_display
  jobs_owned [] = tt
  jobs_owned (j ∷ jobs) = (refl, jobs_owned jobs)

  check_quorum-IsOwned :
      (s : State) (c : Cluster)
      → IsOwned w.client.id s
      → IsOwned w.client.id (check_quorum w (s, c)).0
  unfolding check_quorum
  check_quorum-IsOwned s c own = elim (Bool-cases c.quorate) [
    | inl p ↦ rw p own
    | inr p ↦ rw p (push_alert-IsOwned w.client.id s (quorum_alert w) refl own)
  ]

  pub scan_status-IsOwned :
      (s : State) (c : Cluster)
      → IsOwned w.client.id s
      → IsOwned w.client.id (scan_status w (s, c)).0
  unfolding scan_status
  scan_status-IsOwned s c own = elim (Call-cases (cluster_status w.api)) [
    | inl (e, p) ↦
        rw (p, scan_status)
          (noted-IsOwned s "cluster_status" "/api2/json/cluster/status" (some e) own)
    | inr (a, p) ↦
        rw (p, scan_status)
          (check_quorum-IsOwned (noted "cluster_status" "/api2/json/cluster/status" none s)
            (apply_cluster_status a c)
            (noted-IsOwned s "cluster_status" "/api2/json/cluster/status" none own))
  ]

  pub scan_options-IsOwned :
      (s : State) (c : Cluster)
      → IsOwned w.client.id s
      → IsOwned w.client.id (scan_options w (s, c)).0
  unfolding scan_options cluster_options_display
  scan_options-IsOwned s c own = elim (Call-cases (cluster_options w.api)) [
    | inl (e, p) ↦
        rw (p, scan_options)
          (noted-IsOwned s "cluster_options" "/api2/json/cluster/options" (some e) own)
    | inr (a, p) ↦
        rw (p, scan_options)
          (appended_cluster_options w.client.id
            (noted "cluster_options" "/api2/json/cluster/options" none s)
            (cluster_options_display w.sorter w.floats w.client a)
            (options_owned a (w.sorter.sort text_lt (option_keys a)))
            (noted-IsOwned s "cluster_options" "/api2/json/cluster/options" none own))
  ]

  pub scan_backup_jobs-IsOwned :
      (s : State) (c : Cluster)
      → IsOwned w.client.id s
      → IsOwned w.client.id (scan_backup_jobs w (s, c)).0
  unfolding scan_backup_jobs backup_job_display
  scan_backup_jobs-IsOwned s c own = elim (Call-cases (cluster_backup_jobs w.api)) [
    | inl (e, p) ↦
        rw (p, scan_backup_jobs)
          (noted-IsOwned s "backup_jobs" "/api2/json/cluster/backup" (some e) own)
    | inr (a, p) ↦
        rw (p, scan_backup_jobs)
          (appended_backup_jobs w.client.id (noted "backup_jobs" "/api2/json/cluster/backup" none s)
            (map (backup_job_display w.client) a) (jobs_owned a)
            (noted-IsOwned s "backup_jobs" "/api2/json/cluster/backup" none own))
  ]

  add_ha_resources-IsOwned :
      (items : List HaItem) (s : State) (c : Cluster)
      → IsOwned w.client.id s
      → IsOwned w.client.id (add_ha_resources w items (s, c)).0
  unfolding add_ha_resources add_ha_resource ha_resource_display
  add_ha_resources-IsOwned [] s c own = own
  add_ha_resources-IsOwned (item ∷ rest) s c own =
      let r = ha_resource_display w.client item in
      let raised = if is_bad r.health then push_alert (ha_alert w r) s else s in
      add_ha_resources-IsOwned rest
        (record raised { ha_resources = appended raised.ha_resources (r ∷ []) })
        (if is_bad r.health then raise_cluster r.health c else c)
        (appended_ha_resources w.client.id raised (r ∷ []) (refl, tt)
          (may_push-IsOwned w.client.id s (is_bad r.health) (ha_alert w r) refl own))

  pub scan_ha-IsOwned :
      (s : State) (c : Cluster) → IsOwned w.client.id s → IsOwned w.client.id (scan_ha w (s, c)).0
  unfolding scan_ha
  scan_ha-IsOwned s c own = elim (Call-cases (cluster_ha_resources w.api)) [
    | inl (e, p) ↦
        rw (p, scan_ha)
          (noted-IsOwned s "ha_resources" "/api2/json/cluster/ha/resources" (some e) own)
    | inr (a, p) ↦
        rw (p, scan_ha)
          (add_ha_resources-IsOwned a
            (noted "ha_resources" "/api2/json/cluster/ha/resources" none s) c
            (noted-IsOwned s "ha_resources" "/api2/json/cluster/ha/resources" none own))
  ]

  add_ceph-IsOwned :
      (ceph : CephCluster) (s : State) (c : Cluster)
      → ceph.source_id ≡ w.client.id
      → IsOwned w.client.id s
      → IsOwned w.client.id (add_ceph w ceph (s, c)).0
  unfolding add_ceph
  add_ceph-IsOwned ceph s c e own =
      let raised = if is_bad ceph.health then push_alert (ceph_alert w ceph) s else s in
      appended_ceph_clusters w.client.id raised (ceph ∷ []) (e, tt)
        (may_push-IsOwned w.client.id s (is_bad ceph.health) (ceph_alert w ceph) refl own)

  ceph_cluster-owned :
      (ceph : CephCluster)
      → ceph_cluster w.floats w.api w.client ≡ answered ceph
      → ceph.source_id ≡ w.client.id
  unfolding ceph_cluster ceph_display
  ceph_cluster-owned ceph h = elim (Call-cases (ceph_status w.api)) [
    | inl (e, p) ↦ absurd (answered-ne-failed ceph e (sym h ∙ rw (p, ceph_cluster) refl))
    | inr (a, p) ↦ cc (h, p)
  ]

  pub scan_ceph-IsOwned :
      (s : State) (c : Cluster) → IsOwned w.client.id s → IsOwned w.client.id (scan_ceph w (s, c)).0
  unfolding scan_ceph
  scan_ceph-IsOwned s c own = elim (Call-cases (ceph_cluster w.floats w.api w.client)) [
    | inl (e, p) ↦
        rw (p, scan_ceph) (noted-IsOwned s "ceph" "/api2/json/cluster/ceph/status" (some e) own)
    | inr (a, p) ↦
        rw (p, scan_ceph)
          (add_ceph-IsOwned a (noted "ceph" "/api2/json/cluster/ceph/status" none s) c
            (ceph_cluster-owned a p)
            (noted-IsOwned s "ceph" "/api2/json/cluster/ceph/status" none own))
  ]

  pub scan_storage_config-IsOwned :
      (s : State) (c : Cluster)
      → IsOwned w.client.id s
      → IsOwned w.client.id (scan_storage_config w (s, c)).0
  unfolding scan_storage_config
  scan_storage_config-IsOwned s c own = elim (Call-cases (cluster_storage w.api)) [
    | inl (e, p) ↦
        rw (p, scan_storage_config)
          (noted-IsOwned s "storage_config" "/api2/json/storage" (some e) own)
    | inr (a, p) ↦
        rw (p, scan_storage_config) (noted-IsOwned s "storage_config" "/api2/json/storage" none own)
  ]
