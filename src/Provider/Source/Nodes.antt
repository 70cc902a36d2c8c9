-- ===== src/Provider/Source/Nodes.antt =====
-- The nodes of a source and what each reports (apps/bridge/internal/proxmox/provider.go).
mod Hosts
mod Reports
mod Stores
unfoldable pub use Hosts.*
unfoldable pub use Reports.*
unfoldable pub use Stores.*
use proxmox_desk_display.Base.{
  [], ◌∷◌, some, none, List, if◌then◌else◌, ltb, ◌+◌, ◌||◌, ◌++◌, map, keep_if, not, length,
}
use proxmox_desk_display.Provider.Source.Steps.{
  Scan, with_capability, alert_of, node_endpoint, appended, is_bad, warn_host,
}
use proxmox_desk_display.Provider.Api.Clusters.{Resource}
use proxmox_desk_display.Base.Text.{Text, text_eq, is_empty, codes}
use proxmox_desk_display.Provider.Api.Nodes.{NodeStatus, NodeCertificate, ZfsItem, NodeDisk}
use proxmox_desk_display.Display.State.{State}
use proxmox_desk_display.Provider.Json.{first_non_empty, pct_float, pct_int64, display_name}
use proxmox_desk_display.Display.Hosts.{Host, ZfsPool}
use proxmox_desk_display.Provider.Api.{
  failed, answered, node_status, node_pci, node_network, node_services, node_zfs_pool_detail,
  node_disks, node_certificates, node_rrd_data, node_zfs_pools, node_apt_updates,
  node_apt_repositories, node_subscription,
}
use proxmox_desk_display.Provider.Convert.Nodes.{
  certificate_display, zfs_pool_display, disk_display, apply_zfs_pool_detail, subscription_display,
  network_display, update_display, service_display,
}
use proxmox_desk_display.Base.Int.{is_above_zero}
use proxmox_desk_display.Provider.Rules.{push_alert, raise_host}
use proxmox_desk_display.Provider.Convert.Jobs.{updated}
use proxmox_desk_display.Base.Numbers.{itoa, decimal}
use proxmox_desk_display.Display.Health.{Health, health_eq, max_health}
use proxmox_desk_display.Provider.Trends.{node_metric_trends}
use proxmox_desk_display.Provider.Summaries.{
  summarize_gpus, is_shown, summarize_network, summarize_services,
}
use proxmox_desk_display.Provider.Convert.Repositories.{repositories_display}
use proxmox_desk_display.Display.Samples.{zero_host}
use proxmox_desk_display.Display.Inventory.{Certificate, Alert}

module _ (w : Scan) where
  -- One turn of the first loop over hostByNode.
  unfoldable pub scan_node : Text → State × Host → State × Host
  unfolding scan_node_status scan_certificates scan_node_rrd scan_pci scan_network scan_services
      scan_zfs scan_updates scan_repositories scan_subscription scan_disks
  scan_node node acc =
      let reported = scan_services w node (
        scan_network w node (
          scan_pci w node
            (scan_node_rrd w node (scan_certificates w node (scan_node_status w node acc))))) in
      scan_disks w node (
        scan_subscription w node
          (scan_repositories w node (scan_updates w node (scan_zfs w node reported))))

  unfoldable pub scan_nodes : List (Text × Host) → State → State × List (Text × Host)
  unfolding scan_node
  scan_nodes [] s = (s, [])
  scan_nodes ((node, h) ∷ rest) s =
      let r = scan_node node (s, h) in
      let others = scan_nodes rest r.0 in (others.0, (node, r.1) ∷ others.1)
