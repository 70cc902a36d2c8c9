-- ===== src/Provider/Source/Nodes/Hosts.antt =====
-- The hosts of a source and the status of a node (apps/bridge/internal/proxmox/provider.go).
use proxmox_desk_display.Base.{[], ◌∷◌, some, none, List, if◌then◌else◌, ◌||◌, ◌++◌}
use proxmox_desk_display.Provider.Source.Steps.{Scan}
use proxmox_desk_display.Provider.Api.Clusters.{Resource}
use proxmox_desk_display.Base.Text.{Text, text_eq, is_empty, codes}
use proxmox_desk_display.Provider.Api.Nodes.{NodeStatus}
use proxmox_desk_display.Display.State.{State}
use proxmox_desk_display.Provider.Json.{first_non_empty, pct_float, pct_int64, display_name}
use proxmox_desk_display.Display.Hosts.{Host}
use proxmox_desk_display.Provider.Api.{failed, answered, node_status}
use proxmox_desk_display.Base.Int.{is_above_zero}
use proxmox_desk_display.Provider.Convert.Jobs.{updated}
use proxmox_desk_display.Display.Health.{Health}
use proxmox_desk_display.Display.Samples.{zero_host}

module _ (w : Scan) where
  -- nodeName
  unfoldable pub node_name : Resource → Text
  node_name r =
      let name = first_non_empty (r.node ∷ r.name ∷ []) in
      if is_empty name then w.client.name else name

  unfoldable pub host_of : Resource → Host
  unfolding node_name
  host_of r =
      let online = text_eq r.status (codes "online") || is_empty r.status in
      record zero_host {
        id = w.client.id ++ codes "/" ++ node_name r;
        name = display_name w.client.name (node_name r);
        source_id = w.client.id;
        node = node_name r;
        online = online;
        cpu_pct = pct_float w.floats r.cpu;
        max_cpu = r.max_cpu;
        memory_pct = pct_int64 w.floats r.mem r.max_mem;
        memory_used_bytes = r.mem;
        memory_total_bytes = r.max_mem;
        storage_pct = pct_int64 w.floats r.disk r.max_disk;
        storage_used_bytes = r.disk;
        storage_total_bytes = r.max_disk;
        storage_max_pct = pct_int64 w.floats r.disk r.max_disk;
        uptime_sec = r.uptime;
        health = if online then Health.ok else Health.critical;
      }

  -- `hostByNode[node] = host`
  unfoldable pub put_host : Text → Host → List (Text × Host) → List (Text × Host)
  put_host node h [] = (node, h) ∷ []
  put_host node h ((k, g) ∷ rest) =
      if text_eq k node then (k, h) ∷ rest else (k, g) ∷ put_host node h rest

  unfoldable pub hosts_of : List Resource → List (Text × Host) → List (Text × Host)
  unfolding host_of put_host
  hosts_of [] hosts = hosts
  hosts_of (r ∷ rest) hosts =
      hosts_of rest
        (if text_eq r.type (codes "node") then put_host (node_name r) (host_of r) hosts else hosts)

  -- The part on nodeStatus.
  unfoldable pub with_status : NodeStatus → Host → Host
  with_status s h = record h {
    cpu_pct = elim s.cpu [ none ↦ h.cpu_pct | some v ↦ pct_float w.floats v ];
    memory_pct =
        if is_above_zero s.memory_total
        then pct_int64 w.floats s.memory_used s.memory_total
        else h.memory_pct;
    memory_used_bytes = if is_above_zero s.memory_total then s.memory_used else h.memory_used_bytes;
    memory_total_bytes =
        if is_above_zero s.memory_total then s.memory_total else h.memory_total_bytes;
    memory_available_bytes =
        if is_above_zero s.memory_total then s.memory_available else h.memory_available_bytes;
    swap_pct =
        if is_above_zero s.swap_total
        then pct_int64 w.floats s.swap_used s.swap_total
        else h.swap_pct;
    swap_used_bytes = if is_above_zero s.swap_total then s.swap_used else h.swap_used_bytes;
    swap_total_bytes = if is_above_zero s.swap_total then s.swap_total else h.swap_total_bytes;
    storage_pct =
        if is_above_zero s.root_fs_total
        then pct_int64 w.floats s.root_fs_used s.root_fs_total
        else h.storage_pct;
    storage_used_bytes =
        if is_above_zero s.root_fs_total then s.root_fs_used else h.storage_used_bytes;
    storage_total_bytes =
        if is_above_zero s.root_fs_total then s.root_fs_total else h.storage_total_bytes;
    io_wait_pct = pct_float w.floats s.wait;
    ksm_shared_bytes = s.ksm_shared;
    uptime_sec = updated s.uptime h.uptime_sec;
    max_cpu = updated s.cpu_info_cpus h.max_cpu;
    cpu_model = s.cpu_info_model;
    load_avg = s.load_avg;
    pve_version = s.pve_version;
    kernel_version = first_non_empty (s.k_version ∷ s.current_kernel_release ∷ []);
  }

  unfoldable pub scan_node_status : Text → State × Host → State × Host
  unfolding with_status
  scan_node_status node (s, h) = elim (node_status w.api node) [
    | failed e ↦ (s, h)
    | answered status ↦ (s, with_status status h)
  ]
