-- ===== src/Provider/Source/Owned/Stores.antt =====
-- The source of the pools, updates, repositories, subscriptions and disks of a node
-- (apps/bridge/internal/proxmox/provider.go).
use proxmox_desk_display.Base.{
  [], ◌∷◌, some, none, true, false, refl, inl, inr, ◌≡◌, Bool, if◌then◌else◌, List, ◌+◌, map, ◌++◌,
  ◌∙◌,
}
use proxmox_desk_display.Provider.Source.Steps.{
  Scan, with_capability, appended, is_bad, node_endpoint,
}
use proxmox_desk_display.Display.State.{State}
use proxmox_desk_display.Provider.Source.Nodes.{
  detail_pool, add_pools, scan_zfs, scan_updates, scan_repositories, scan_subscription, add_disks,
  scan_disks, add_pool, add_disk, pool_alert,
}
use proxmox_desk_display.Provider.Convert.Nodes.{
  apply_zfs_pool_detail, subscription_display, zfs_pool_display, disk_display, update_display,
}
use proxmox_desk_display.Display.Hosts.{Host, ZfsPool}
use proxmox_desk_display.Base.Text.{Text, codes}
use proxmox_desk_display.Display.Health.{Health}
use proxmox_desk_display.Provider.Zfs.{pool_detail, ZfsPoolDetail}
use proxmox_desk_display.Provider.Convert.Repositories.{repositories_display}
use proxmox_desk_display.Provider.Source.Owned.{IsOwned}
use proxmox_desk_display.Provider.Api.{
  Call-cases, node_zfs_pool_detail, node_zfs_pools, node_apt_updates, node_apt_repositories,
  node_subscription, node_disks,
}
use proxmox_desk_display.Provider.Rules.{raise_host, push_alert}
use proxmox_desk_display.Provider.Api.Nodes.{ZfsItem, NodeDisk}
use proxmox_desk_display.Provider.Source.Owned.Appends.{
  appended_updates, appended_repositories, appended_subscriptions, appended_disks,
  appended_zfs_pools, may_push-IsOwned,
}
use proxmox_desk_display.Provider.Source.Owned.Lists.{repositories_owned, updates_owned}
use proxmox_desk_display.Provider.Source.Owned.Reports.{Kept, noted-IsOwned, raised-source}

module _ (w : Scan) where
  detailed-source :
      (d : ZfsPoolDetail) (pool : ZfsPool)
      → (apply_zfs_pool_detail d pool).source_id ≡ pool.source_id
  unfolding apply_zfs_pool_detail
  detailed-source (pool_detail n children) pool = refl

  detail_pool-IsOwned :
      (node : Text) (pool : ZfsPool) (s : State) (h : Host)
      → IsOwned w.client.id s
      → pool.source_id ≡ w.client.id
      → IsOwned w.client.id (detail_pool w node pool (s, h)).0
        × ((detail_pool w node pool (s, h)).1.source_id ≡ w.client.id)
  unfolding detail_pool
  detail_pool-IsOwned node pool s h own k =
      elim (Call-cases (node_zfs_pool_detail w.api node pool.name)) [
        | inl (e, p) ↦
            rw (p, detail_pool)
              (
                noted-IsOwned w s h.id (codes "zfs_pool_detail")
                    (node_endpoint node "/disks/zfs/" ++ pool.name) (some e) own,
                k,
              )
        | inr (a, p) ↦ rw (p, detail_pool) (own, detailed-source a pool ∙ k)
      ]

  add_pools-Kept :
      (node : Text) (items : List ZfsItem) (s : State) (h : Host)
      → Kept w (s, h)
      → Kept w (add_pools w node items (s, h))
  unfolding add_pools add_pool zfs_pool_display
  add_pools-Kept node [] s h k = k
  add_pools-Kept node (item ∷ rest) s h (own, e) =
      let r = detail_pool w node (zfs_pool_display w.floats w.client h item) (s, h) in
      let detailed =
        detail_pool-IsOwned node (zfs_pool_display w.floats w.client h item) s h own refl in
      let bad = is_bad r.1.health in
      let raised = if bad then push_alert (pool_alert w h r.1) r.0 else r.0 in
      add_pools-Kept node rest (record raised { zfs_pools = appended raised.zfs_pools (r.1 ∷ []) })
        (if bad then raise_host r.1.health h else h)
        (
          appended_zfs_pools w.client.id raised (r.1 ∷ []) (detailed.1, tt)
              (may_push-IsOwned w.client.id r.0 bad (pool_alert w h r.1) refl detailed.0),
          raised-source w bad r.1.health h ∙ e,
        )

  pub scan_zfs-Kept :
      (node : Text) (s : State) (h : Host) → Kept w (s, h) → Kept w (scan_zfs w node (s, h))
  unfolding scan_zfs
  scan_zfs-Kept node s h (own, k) = elim (Call-cases (node_zfs_pools w.api node)) [
    | inl (e, p) ↦
        rw (p, scan_zfs)
          (
            noted-IsOwned w s h.id (codes "zfs_pools") (node_endpoint node "/disks/zfs") (some e)
                own,
            k,
          )
    | inr (a, p) ↦
        rw (p, scan_zfs)
          (add_pools-Kept node a
            (with_capability w.client h.id [] (codes "zfs_pools") (node_endpoint node "/disks/zfs")
              none s)
            h
            (
              noted-IsOwned w s h.id (codes "zfs_pools") (node_endpoint node "/disks/zfs") none own,
              k,
            ))
  ]

  pub scan_updates-Kept :
      (node : Text) (s : State) (h : Host) → Kept w (s, h) → Kept w (scan_updates w node (s, h))
  unfolding scan_updates
  scan_updates-Kept node s h (own, k) = elim (Call-cases (node_apt_updates w.api node)) [
    | inl (e, p) ↦
        rw (p, scan_updates)
          (
            noted-IsOwned w s h.id (codes "apt_updates") (node_endpoint node "/apt/update") (some e)
                own,
            k,
          )
    | inr (a, p) ↦
        rw (p, scan_updates)
          (
            appended_updates w.client.id
                (with_capability w.client h.id [] (codes "apt_updates")
                  (node_endpoint node "/apt/update") none s)
                (map (update_display w.client h) a) (updates_owned w.floats w.client h a)
                (noted-IsOwned w s h.id (codes "apt_updates") (node_endpoint node "/apt/update")
                  none own),
            k,
          )
  ]

  pub scan_repositories-Kept :
      (node : Text) (s : State) (h : Host)
      → Kept w (s, h)
      → Kept w (scan_repositories w node (s, h))
  unfolding scan_repositories repositories_display
  scan_repositories-Kept node s h (own, k) = elim (Call-cases (node_apt_repositories w.api node)) [
    | inl (e, p) ↦
        rw (p, scan_repositories)
          (
            noted-IsOwned w s h.id (codes "apt_repositories")
                (node_endpoint node "/apt/repositories") (some e) own,
            k,
          )
    | inr (a, p) ↦
        rw (p, scan_repositories)
          (
            appended_repositories w.client.id
                (with_capability w.client h.id [] (codes "apt_repositories")
                  (node_endpoint node "/apt/repositories") none s)
                (repositories_display w.floats w.client h a)
                (repositories_owned w.floats w.client h a.infos a.files)
                (noted-IsOwned w s h.id (codes "apt_repositories")
                  (node_endpoint node "/apt/repositories") none own),
            k,
          )
  ]

  pub scan_subscription-Kept :
      (node : Text) (s : State) (h : Host)
      → Kept w (s, h)
      → Kept w (scan_subscription w node (s, h))
  unfolding scan_subscription subscription_display
  scan_subscription-Kept node s h (own, k) = elim (Call-cases (node_subscription w.api node)) [
    | inl (e, p) ↦
        rw (p, scan_subscription)
          (
            noted-IsOwned w s h.id (codes "subscription") (node_endpoint node "/subscription")
                (some e) own,
            k,
          )
    | inr (a, p) ↦
        rw (p, scan_subscription)
          (
            appended_subscriptions w.client.id
                (with_capability w.client h.id [] (codes "subscription")
                  (node_endpoint node "/subscription") none s)
                (subscription_display w.client h a ∷ []) (refl, tt)
                (noted-IsOwned w s h.id (codes "subscription") (node_endpoint node "/subscription")
                  none own),
            k,
          )
  ]

  counted-source :
      (b : Bool) (l : Health) (h : Host)
      → (if b
          then raise_host l
              (record h { disk_count = h.disk_count + 1; disk_issues = h.disk_issues + 1 })
          else record h { disk_count = h.disk_count + 1 }).source_id
        ≡ h.source_id
  counted-source true l h = refl
  counted-source false l h = refl

  add_disks-Kept :
      (node : Text) (disks : List NodeDisk) (s : State) (h : Host)
      → Kept w (s, h)
      → Kept w (add_disks w node disks (s, h))
  unfolding add_disks add_disk disk_display
  add_disks-Kept node [] s h k = k
  add_disks-Kept node (disk ∷ rest) s h (own, e) =
      let d = disk_display w.floats w.client h node disk in
      let counted = record h { disk_count = h.disk_count + 1 } in
      let issue = record counted { disk_issues = h.disk_issues + 1 } in
      add_disks-Kept node rest (record s { disks = appended s.disks (d ∷ []) })
        (if is_bad d.health then raise_host d.health issue else counted)
        (
          appended_disks w.client.id s (d ∷ []) (refl, tt) own,
          counted-source (is_bad d.health) d.health h ∙ e,
        )

  pub scan_disks-Kept :
      (node : Text) (s : State) (h : Host) → Kept w (s, h) → Kept w (scan_disks w node (s, h))
  unfolding scan_disks
  scan_disks-Kept node s h (own, k) = elim (Call-cases (node_disks w.api node)) [
    | inl (e, p) ↦ rw (p, scan_disks) (own, k)
    | inr (a, p) ↦ rw (p, scan_disks) (add_disks-Kept node a s h (own, k))
  ]
