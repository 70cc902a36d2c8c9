-- ===== src/Provider/Source/Nodes/Stores.antt =====
-- Pools, updates, repositories, the subscription and the disks of a node (apps/bridge/internal/proxmox/provider.go).
use proxmox_desk_display.Base.{[], ◌∷◌, some, none, List, if◌then◌else◌, ◌+◌, ◌++◌, map, length}
use proxmox_desk_display.Provider.Source.Steps.{
  Scan, with_capability, alert_of, node_endpoint, appended, is_bad, warn_host,
}
use proxmox_desk_display.Base.Text.{Text, codes}
use proxmox_desk_display.Provider.Api.Nodes.{ZfsItem, NodeDisk}
use proxmox_desk_display.Display.State.{State}
use proxmox_desk_display.Provider.Json.{first_non_empty}
use proxmox_desk_display.Display.Hosts.{Host, ZfsPool}
use proxmox_desk_display.Provider.Api.{
  failed, answered, node_zfs_pool_detail, node_disks, node_zfs_pools, node_apt_updates,
  node_apt_repositories, node_subscription,
}
use proxmox_desk_display.Provider.Convert.Nodes.{
  zfs_pool_display, disk_display, apply_zfs_pool_detail, subscription_display, update_display,
}
use proxmox_desk_display.Provider.Rules.{push_alert, raise_host}
use proxmox_desk_display.Display.Health.{Health, health_eq, max_health}
use proxmox_desk_display.Provider.Convert.Repositories.{repositories_display}
use proxmox_desk_display.Display.Inventory.{Alert}

module _ (w : Scan) where
  -- The details of a pool, or the capability that says why there are none.
  unfoldable pub detail_pool : Text → ZfsPool → State × Host → State × ZfsPool
  detail_pool node pool (s, h) = elim (node_zfs_pool_detail w.api node pool.name) [
    | answered detail ↦ (s, apply_zfs_pool_detail detail pool)
    | failed e ↦ (
      with_capability w.client h.id [] (codes "zfs_pool_detail")
          (node_endpoint node "/disks/zfs/" ++ pool.name) (some e) s,
      pool,
    )
  ]

  abbrev pub pool_alert : Host → ZfsPool → Alert
  pool_alert h pool =
      alert_of w.client.id (pool.id ++ codes "/zfs") h.id [] pool.health
        (h.name ++ codes " ZFS " ++ pool.name)
        (first_non_empty (pool.health_text ∷ pool.status ∷ codes "not healthy" ∷ []))

  unfoldable pub add_pool : Text → ZfsItem → State × Host → State × Host
  unfolding detail_pool
  add_pool node item (s, h) =
      let r = detail_pool node (zfs_pool_display w.floats w.client h item) (s, h) in
      let pool = r.1 in
      let raised = if is_bad pool.health then push_alert (pool_alert h pool) r.0 else r.0 in
      (
        record raised { zfs_pools = appended raised.zfs_pools (pool ∷ []) },
        if is_bad pool.health then raise_host pool.health h else h,
      )

  unfoldable pub add_pools : Text → List ZfsItem → State × Host → State × Host
  unfolding add_pool
  add_pools node [] acc = acc
  add_pools node (item ∷ rest) acc = add_pools node rest (add_pool node item acc)

  unfoldable pub scan_zfs : Text → State × Host → State × Host
  unfolding add_pools
  scan_zfs node (s, h) =
      let add =
        with_capability w.client h.id [] (codes "zfs_pools") (node_endpoint node "/disks/zfs") in
      elim (node_zfs_pools w.api node) [
        | failed e ↦ (add (some e) s, warn_host (codes "zfs unavailable") h)
        | answered pools ↦ add_pools node pools (add none s, h)
      ]

  unfoldable pub scan_updates : Text → State × Host → State × Host
  scan_updates node (s, h) =
      let add =
        with_capability w.client h.id [] (codes "apt_updates") (node_endpoint node "/apt/update") in
      elim (node_apt_updates w.api node) [
        | failed e ↦ (add (some e) s, warn_host (codes "updates unavailable") h)
        | answered updates ↦ (
          record (add none s) {
            updates = appended s.updates (map (update_display w.client h) updates);
          },
          record h { updates_available = length updates },
        )
      ]

  unfoldable pub scan_repositories : Text → State × Host → State × Host
  scan_repositories node (s, h) =
      let add =
        with_capability w.client h.id [] (codes "apt_repositories")
          (node_endpoint node "/apt/repositories") in
      elim (node_apt_repositories w.api node) [
        | failed e ↦ (add (some e) s, warn_host (codes "repositories unavailable") h)
        | answered repos ↦ (
          record (add none s) {
            repositories = appended s.repositories (repositories_display w.floats w.client h repos);
          },
          h,
        )
      ]

  unfoldable pub scan_subscription : Text → State × Host → State × Host
  scan_subscription node (s, h) =
      let add =
        with_capability w.client h.id [] (codes "subscription")
          (node_endpoint node "/subscription") in
      elim (node_subscription w.api node) [
        | failed e ↦ (add (some e) s, warn_host (codes "subscription unavailable") h)
        | answered sub ↦ (
          record (add none s) {
            subscriptions = appended s.subscriptions (subscription_display w.client h sub ∷ []);
          },
          record h {
            subscription_status = sub.status;
            health =
                if health_eq (subscription_display w.client h sub).health Health.warning
                then max_health h.health Health.warning
                else h.health;
          },
        )
      ]

  unfoldable pub add_disk : Text → NodeDisk → State × Host → State × Host
  add_disk node disk (s, h) =
      let d = disk_display w.floats w.client h node disk in
      let counted = record h { disk_count = h.disk_count + 1 } in
      (
        record s { disks = appended s.disks (d ∷ []) },
        if is_bad d.health
            then raise_host d.health (record counted { disk_issues = h.disk_issues + 1 })
            else counted,
      )

  unfoldable pub add_disks : Text → List NodeDisk → State × Host → State × Host
  unfolding add_disk
  add_disks node [] acc = acc
  add_disks node (d ∷ rest) acc = add_disks node rest (add_disk node d acc)

  unfoldable pub scan_disks : Text → State × Host → State × Host
  unfolding add_disks
  scan_disks node (s, h) = elim (node_disks w.api node) [
    | failed e ↦ (s, warn_host (codes "disks unavailable") h)
    | answered disks ↦ add_disks node disks (s, h)
  ]
