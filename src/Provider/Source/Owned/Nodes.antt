-- ===== src/Provider/Source/Owned/Nodes.antt =====
-- The source of what the calls on a node add (apps/bridge/internal/proxmox/provider.go).
use proxmox_desk_display.Provider.Source.Steps.{Scan}
use proxmox_desk_display.Display.State.{State}
use proxmox_desk_display.Provider.Source.Nodes.{
  scan_node_status, scan_certificates, scan_node_rrd, scan_pci, scan_network, scan_services,
  scan_zfs, scan_updates, scan_repositories, scan_subscription, scan_node,
}
use proxmox_desk_display.Display.Hosts.{Host}
use proxmox_desk_display.Base.Text.{Text}
use proxmox_desk_display.Provider.Source.Owned.Reports.{
  Kept, scan_services-Kept, scan_network-Kept, scan_pci-Kept, scan_node_rrd-Kept,
  scan_certificates-Kept, scan_node_status-Kept,
}
use proxmox_desk_display.Provider.Source.Owned.Stores.{
  scan_disks-Kept, scan_subscription-Kept, scan_repositories-Kept, scan_updates-Kept, scan_zfs-Kept,
}

module _ (w : Scan) where
  pub scan_node-Kept :
      (node : Text) (s : State) (h : Host) → Kept w (s, h) → Kept w (scan_node w node (s, h))
  unfolding scan_node
  scan_node-Kept node s h k =
      let r1 = scan_node_status w node (s, h) in
      let r2 = scan_certificates w node r1 in
      let r3 = scan_node_rrd w node r2 in
      let r4 = scan_pci w node r3 in
      let r5 = scan_network w node r4 in
      let r6 = scan_services w node r5 in
      let r7 = scan_zfs w node r6 in
      let r8 = scan_updates w node r7 in
      let r9 = scan_repositories w node r8 in
      let r10 = scan_subscription w node r9 in
      scan_disks-Kept w node r10.0 r10.1 (
        scan_subscription-Kept w node r9.0 r9.1 (
          scan_repositories-Kept w node r8.0 r8.1 (
            scan_updates-Kept w node r7.0 r7.1 (
              scan_zfs-Kept w node r6.0 r6.1 (
                scan_services-Kept w node r5.0 r5.1 (
                  scan_network-Kept w node r4.0 r4.1 (
                    scan_pci-Kept w node r3.0 r3.1 (
                      scan_node_rrd-Kept w node r2.0 r2.1 (
                        scan_certificates-Kept w node r1.0 r1.1
                          (scan_node_status-Kept w node s h k))))))))))
