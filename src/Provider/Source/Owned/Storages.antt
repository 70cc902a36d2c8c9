-- ===== src/Provider/Source/Owned/Storages.antt =====
-- The source of what the storages add (apps/bridge/internal/proxmox/provider.go).
use proxmox_desk_display.Base.{
  [], ◌∷◌, some, none, refl, inl, inr, ◌≡◌, arith, Option, List, Bool-cases, ◌++◌, leb, ◌∙◌,
}
use proxmox_desk_display.Provider.Storage.{apply_storage_alerts}
use proxmox_desk_display.Provider.Convert.Storages.{
  apply_storage_item_summary, apply_storage_config, storage_item_display, storage_content_queryable,
}
use proxmox_desk_display.Provider.Source.Steps.{Scan, appended, node_endpoint, with_capability}
use proxmox_desk_display.Base.Text.{Text, codes, text_eq}
use proxmox_desk_display.Display.Inventory.{StorageItem}
use proxmox_desk_display.Provider.Source.Storages.{
  add_items, scan_content, add_storage, add_storages, storage_of, note_storage, configured,
}
use proxmox_desk_display.Display.Hosts.{Storage, Host}
use proxmox_desk_display.Display.State.{State}
use proxmox_desk_display.Provider.Source.Owned.{IsOwned}
use proxmox_desk_display.Provider.Api.Clusters.{StorageContent, StorageConfig, Resource}
use proxmox_desk_display.Provider.Source.Owned.Appends.{
  appended_storage_items, with_capability-IsOwned, appended_storages,
}
use proxmox_desk_display.Provider.Source.Owned.Hosts.{HostsOwned, change_host-HostsOwned}
use proxmox_desk_display.Provider.Source.Clusters.{config_of}
use proxmox_desk_display.Provider.Api.{Call-cases, storage_content}
use proxmox_desk_display.Provider.Source.Owned.Rules.{apply_storage_alerts-Owned}

summarized-source :
    (i : StorageItem) (st : Storage) → (apply_storage_item_summary i st).source_id ≡ st.source_id
unfolding apply_storage_item_summary
summarized-source i st = ground arith

module _ (w : Scan) where
  add_items-Owned :
      (items : List StorageContent) (s : State) (st : Storage)
      → IsOwned w.client.id s
      → st.source_id ≡ w.client.id
      → IsOwned w.client.id (add_items w items (s, st)).0
        × ((add_items w items (s, st)).1.source_id ≡ w.client.id)
  unfolding add_items storage_item_display
  add_items-Owned [] s st own e = (own, e)
  add_items-Owned (item ∷ rest) s st own e =
      let i = storage_item_display w.floats w.client st item in
      add_items-Owned rest (record s { storage_items = appended s.storage_items (i ∷ []) })
        (apply_storage_item_summary i st)
        (appended_storage_items w.client.id s (i ∷ []) (refl, tt) own) (summarized-source i st ∙ e)

  scan_content-Owned :
      (s : State) (st : Storage)
      → IsOwned w.client.id s
      → st.source_id ≡ w.client.id
      → IsOwned w.client.id (scan_content w (s, st)).0
        × ((scan_content w (s, st)).1.source_id ≡ w.client.id)
  unfolding scan_content
  scan_content-Owned s st own e =
      let path = node_endpoint st.node "/storage/" ++ st.name ++ codes "/content" in
      let add = with_capability-IsOwned w.client s st.host_id [] (codes "storage_content") path in
      let s' = with_capability w.client st.host_id [] (codes "storage_content") path none s in
      elim (Bool-cases (storage_content_queryable st)) [
        | inr q ↦ rw q (own, e)
        | inl q ↦ rw q (elim (Call-cases (storage_content w.api st.node st.name)) [
          | inl (d, p) ↦ rw p (add (some d) own, e)
          | inr (a, p) ↦ rw p (add_items-Owned a s' st (add none own) e)
        ])
      ]

  configured-source :
      (cfg : Option StorageConfig) (st : Storage) → (configured w cfg st).source_id ≡ st.source_id
  unfolding apply_storage_config
  configured-source none st = refl
  configured-source (some cfg) st = refl

  note_storage-source : (st : Storage) (h : Host) → (note_storage w st h).source_id ≡ h.source_id
  note_storage-source st h = elim (Bool-cases (leb h.storage_max_pct st.disk_pct)) [
    | inl p ↦ rw p refl
    | inr p ↦ rw p refl
  ]

  add_storage-Owned :
      (configs : List StorageConfig) (r : Resource) (s : State) (hosts : List (Text × Host))
      → IsOwned w.client.id s
      → HostsOwned w hosts
      → IsOwned w.client.id (add_storage w configs r (s, hosts)).0
        × HostsOwned w (add_storage w configs r (s, hosts)).1
  unfolding add_storage storage_of
  add_storage-Owned configs r s hosts own hs =
      let fresh = storage_of w r in
      let st = configured w (config_of fresh.name configs) fresh in
      let listed = scan_content w (s, st) in
      let k =
        scan_content-Owned s st own (configured-source (config_of fresh.name configs) fresh) in
      let checked = apply_storage_alerts w.alerts listed.0 listed.1 in
      let a = apply_storage_alerts-Owned w.client.id w.alerts listed.0 listed.1 k.0 k.1 in
      (
        appended_storages w.client.id checked.0 (checked.1 ∷ []) (a.1, tt) a.0,
        change_host-HostsOwned w fresh.node (note_storage w checked.1) hosts
            (note_storage-source checked.1) hs,
      )

  pub add_storages-Owned :
      (configs : List StorageConfig) (rs : List Resource) (s : State) (hosts : List (Text × Host))
      → IsOwned w.client.id s
      → HostsOwned w hosts
      → IsOwned w.client.id (add_storages w configs rs (s, hosts)).0
        × HostsOwned w (add_storages w configs rs (s, hosts)).1
  unfolding add_storages
  add_storages-Owned configs [] s hosts own hs = (own, hs)
  add_storages-Owned configs (r ∷ rest) s hosts own hs =
      elim (Bool-cases (text_eq r.type (codes "storage"))) [
        | inl p ↦
            rw (p, add_storages)
              (let added = add_storage w configs r (s, hosts) in
                let k = add_storage-Owned configs r s hosts own hs in
                add_storages-Owned configs rest added.0 added.1 k.0 k.1)
        | inr p ↦ rw (p, add_storages) (add_storages-Owned configs rest s hosts own hs)
      ]
