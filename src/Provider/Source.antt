-- ===== src/Provider/Source.antt =====
-- collectSource (apps/bridge/internal/proxmox/provider.go): the calls of one source, in their order, and
-- the state that they fill. The map hostByNode is a list of nodes and hosts; Go visits a map in any
-- order, so that each of the three loops over it takes its order from an argument.
pub mod Steps
pub mod Clusters
pub mod Nodes
pub mod Storages
pub mod Guests
pub mod Tasks
pub mod Owned
pub mod Collected
pub mod Tests
use proxmox_desk_display.Base.{[], ◌∷◌, true, List}
use proxmox_desk_display.Provider.Client.{Client}
use proxmox_desk_display.Provider.Source.Steps.{Scan, appended}
use proxmox_desk_display.Display.Hosts.{Cluster}
use proxmox_desk_display.Provider.Source.Nodes.{hosts_of, scan_nodes}
use proxmox_desk_display.Provider.Source.Clusters.{scan_cluster, storage_configs}
use proxmox_desk_display.Display.State.{State}
use proxmox_desk_display.Base.Int.{pos}
use proxmox_desk_display.Provider.Source.Tasks.{scan_replications, scan_all_tasks, finish_hosts}
use proxmox_desk_display.Provider.Api.{answered, failed, cluster_resources, cluster_storage}
use proxmox_desk_display.Provider.Source.Storages.{add_storages}
use proxmox_desk_display.Display.Health.{Health}
use proxmox_desk_display.Provider.Source.Guests.{add_guests, Scanned}
use proxmox_desk_display.Provider.Api.Clusters.{Resource}
use proxmox_desk_display.Display.Finalize.{new_state}
use proxmox_desk_display.Provider.Collect.Unreachable.{unreachable}
use proxmox_desk_display.Provider.Calls.{error_text}

-- The cluster before any call.
unfoldable pub first_cluster : Client → Cluster
first_cluster client = record {
  id = client.id;
  source_id = client.id;
  name = client.name;
  version = pos 0;
  quorate = true;
  nodes_online = pos 0;
  nodes_total = pos 0;
  nodes_expected = pos 0;
  health = Health.ok;
  data_warnings = [];
}

module _ (w : Scan) where
  -- The loops over the resources: nodes, storages and guests.
  unfoldable pub scan_resources : List Resource → State → Scanned
  unfolding hosts_of scan_nodes add_storages add_guests
  scan_resources resources s =
      let nodes = scan_nodes w (w.order 0 (hosts_of w resources [])) s in
      let stored = add_storages w (storage_configs (cluster_storage w.api)) resources nodes in
      add_guests w resources (record { state = stored.0; hosts = stored.1; guests = [] })

  -- collectSource after the resources have come.
  unfoldable pub scan_source : List Resource → State
  unfolding first_cluster scan_cluster scan_resources scan_replications scan_all_tasks finish_hosts
  scan_source resources =
      let start = scan_cluster w (new_state w.started, first_cluster w.client) in
      let found = scan_resources resources start.0 in
      let ended = scan_replications w found.guests (found.state, start.1) in
      let listed = record ended.0 { clusters = appended ended.0.clusters (ended.1 ∷ []) } in
      let tasks = scan_all_tasks w found.guests (w.order 1 found.hosts) listed in
      finish_hosts w (w.order 2 tasks.1) tasks.0

  unfoldable pub collect_source : State
  unfolding scan_source
  collect_source = elim (cluster_resources w.api) [
    | failed e ↦ unreachable w.client (error_text e) w.started
    | answered resources ↦ scan_source resources
  ]
