-- ===== src/Provider/Source/Owned/Whole.antt =====
-- The source of what a whole run of collectSource adds (apps/bridge/internal/proxmox/provider.go).
use mathlib.Core.List.{Permᴰ}
use proxmox_desk_display.Base.{[], ◌∷◌, refl, inl, inr, ◌≡◌, List, ◌∙◌, ℕ}
use proxmox_desk_display.Base.Text.{Text}
use proxmox_desk_display.Provider.Source.Steps.{Scan, appended}
use proxmox_desk_display.Display.State.{State}
use proxmox_desk_display.Provider.Source.Tasks.{scan_replications, scan_all_tasks, finish_hosts}
use proxmox_desk_display.Display.Hosts.{Host}
use proxmox_desk_display.Provider.Api.Clusters.{Resource}
use proxmox_desk_display.Provider.Source.Owned.{IsOwned, Field}
use proxmox_desk_display.Provider.Source.Owned.Hosts.{
  HostsOwned, All-PermD, hosts_of-HostsOwned, scan_nodes-Owned,
}
use proxmox_desk_display.Provider.Api.{Call-cases, cluster_resources, cluster_storage}
use proxmox_desk_display.Provider.Rules.{apply_host_alerts}
use proxmox_desk_display.Provider.Source.Owned.Appends.{appended_clusters}
use proxmox_desk_display.Base.Int.{ℤ}
use proxmox_desk_display.Display.Finalize.{new_state}
use proxmox_desk_display.Provider.Source.Owned.Clusters.{scan_cluster-IsOwned, scan_cluster-source}
use proxmox_desk_display.Provider.Source.Owned.Rules.{apply_host_alerts-Owned}
use proxmox_desk_display.Provider.Source.{
  scan_resources, scan_source, collect_source, first_cluster,
}
use proxmox_desk_display.Provider.Collect.Unreachable.{unreachable}
use proxmox_desk_display.Provider.Source.Clusters.{storage_configs, scan_cluster}
use proxmox_desk_display.Provider.Calls.{error_text}
use proxmox_desk_display.Provider.Source.Nodes.{hosts_of, scan_nodes}
use proxmox_desk_display.Provider.Source.Storages.{add_storages}
use proxmox_desk_display.Provider.Source.Owned.Storages.{add_storages-Owned}
use proxmox_desk_display.Provider.Source.Owned.Tasks.{
  appended_host, add_guests-Owned, new_state-IsOwned, scan_replications-IsOwned,
  scan_all_tasks-Owned,
}

module _ (w : Scan) where
  finish_hosts-IsOwned :
      (hosts : List (Text × Host)) (s : State)
      → HostsOwned w hosts
      → IsOwned w.client.id s
      → IsOwned w.client.id (finish_hosts w hosts s)
  unfolding finish_hosts
  finish_hosts-IsOwned [] s hs own = own
  finish_hosts-IsOwned ((node, h) ∷ rest) s (e, hs) own =
      let r = apply_host_alerts w.alerts s h in
      let k = apply_host_alerts-Owned w.client.id w.alerts s h own e in
      finish_hosts-IsOwned rest (record r.0 { hosts = appended r.0.hosts (r.1 ∷ []) }) hs
        (appended_host w.client.id r.0 r.1 k.1 k.0)

  scan_resources-Owned :
      ((k : ℕ) (hosts : List (Text × Host)) → Permᴰ (w.order k hosts) hosts)
      → (rs : List Resource) (s : State) → IsOwned w.client.id s
      → IsOwned w.client.id (scan_resources w rs s).state
        × HostsOwned w (scan_resources w rs s).hosts
  unfolding scan_resources
  scan_resources-Owned perm rs s own =
      let configs = storage_configs (cluster_storage w.api) in
      let hosts = hosts_of w rs [] in
      let first = w.order 0 hosts in
      let owned =
        All-PermD (λ (e : Text × Host). e.1.source_id ≡ w.client.id) (perm 0 hosts)
          (hosts_of-HostsOwned w rs [] tt) in
      let nodes = scan_nodes w first s in
      let k = scan_nodes-Owned w first s owned own in
      let stored = add_storages w configs rs nodes in
      let l = add_storages-Owned w configs rs nodes.0 nodes.1 k.0 k.1 in
      add_guests-Owned w rs (record { state = stored.0; hosts = stored.1; guests = [] }) l.0 l.1

  scan_source-IsOwned :
      ((k : ℕ) (hosts : List (Text × Host)) → Permᴰ (w.order k hosts) hosts)
      → (rs : List Resource) → IsOwned w.client.id (scan_source w rs)
  unfolding scan_source first_cluster
  scan_source-IsOwned perm rs =
      let empty = new_state w.started in
      let start = scan_cluster w (empty, first_cluster w.client) in
      let own =
        scan_cluster-IsOwned w empty (first_cluster w.client)
          (new_state-IsOwned w.client.id w.started) in
      let found = scan_resources w rs start.0 in
      let f = scan_resources-Owned perm rs start.0 own in
      let ended = scan_replications w found.guests (found.state, start.1) in
      let e =
        scan_replications-IsOwned w found.guests found.state start.1 f.0
          (scan_cluster-source w empty (first_cluster w.client) ∙ refl) in
      let listed = record ended.0 { clusters = appended ended.0.clusters (ended.1 ∷ []) } in
      let own' = appended_clusters w.client.id ended.0 (ended.1 ∷ []) (e.1, tt) e.0 in
      let second = w.order 1 found.hosts in
      let P = λ (x : Text × Host). x.1.source_id ≡ w.client.id in
      let tasks = scan_all_tasks w found.guests second listed in
      let t =
        scan_all_tasks-Owned w found.guests second listed (All-PermD P (perm 1 found.hosts) f.1)
          own' in
      finish_hosts-IsOwned (w.order 2 tasks.1) tasks.0 (All-PermD P (perm 2 tasks.1) t.1) t.0

  unreachable-IsOwned :
      (message : Text) (at : ℤ) → IsOwned w.client.id (unreachable w.client message at)
  unfolding unreachable new_state
  unreachable-IsOwned message at Field.hosts = (refl, tt)
  unreachable-IsOwned message at Field.alerts = (refl, tt)
  unreachable-IsOwned message at f = tt

  -- Whatever the API answers to each call of collectSource, and in whatever order Go visits its map of
  -- hosts, every record of the state that it returns, in each of the lists, bears the id of the
  -- source, also where the source does not answer.
  pub collect_source-IsOwned :
      ((k : ℕ) (hosts : List (Text × Host)) → Permᴰ (w.order k hosts) hosts)
      → IsOwned w.client.id (collect_source w)
  unfolding collect_source
  collect_source-IsOwned perm = elim (Call-cases (cluster_resources w.api)) [
    | inl (e, p) ↦ rw (p, collect_source) (unreachable-IsOwned (error_text e) w.started)
    | inr (rs, p) ↦ rw (p, collect_source) (scan_source-IsOwned perm rs)
  ]
