-- ===== src/Provider/Source/Storages.antt =====
-- The storages of a source (apps/bridge/internal/proxmox/provider.go).
use proxmox_desk_display.Base.{[], ◌∷◌, some, none, Option, List, if◌then◌else◌, leb, ◌++◌}
use proxmox_desk_display.Base.Text.{Text, text_eq, codes, trim_prefix}
use proxmox_desk_display.Provider.Source.Steps.{Scan, with_capability, appended, node_endpoint}
use proxmox_desk_display.Display.Hosts.{Host, Storage}
use proxmox_desk_display.Provider.Api.Clusters.{Resource, StorageConfig, StorageContent}
use proxmox_desk_display.Display.State.{State}
use proxmox_desk_display.Provider.Json.{first_non_empty, display_name, pct_int64}
use proxmox_desk_display.Provider.Convert.Storages.{
  apply_storage_config, storage_item_display, apply_storage_item_summary, storage_content_queryable,
}
use proxmox_desk_display.Provider.Source.Clusters.{config_of}
use proxmox_desk_display.Provider.Storage.{apply_storage_alerts}
use proxmox_desk_display.Display.Samples.{zero_storage}
use proxmox_desk_display.Provider.Api.{answered, failed, storage_content}
use proxmox_desk_display.Base.Int.{is_set}
use proxmox_desk_display.Display.Health.{Health}

-- `if host, ok := hostByNode[node]; ok { change(host) }`
unfoldable pub change_host : Text → (Host → Host) → List (Text × Host) → List (Text × Host)
change_host node change [] = []
change_host node change ((k, h) ∷ rest) =
    if text_eq k node then (k, change h) ∷ rest else (k, h) ∷ change_host node change rest

module _ (w : Scan) where
  unfoldable pub storage_node : Resource → Text
  storage_node r = first_non_empty (r.node ∷ codes "pve" ∷ [])

  unfoldable pub storage_of : Resource → Storage
  unfolding storage_node
  storage_of r =
      let node = storage_node r in
      let name =
        first_non_empty
          (r.storage ∷ trim_prefix r.id (codes "storage/" ++ node ++ codes "/") ∷ []) in
      record zero_storage {
        id = w.client.id ++ codes "/" ++ node ++ codes "/" ++ name;
        name = name;
        source_id = w.client.id;
        host_id = w.client.id ++ codes "/" ++ node;
        host_name = display_name w.client.name node;
        node = node;
        status = first_non_empty (r.status ∷ codes "unknown" ∷ []);
        plugin_type = r.plugin_type;
        content = r.content;
        shared = is_set r.shared;
        disk_pct = pct_int64 w.floats r.disk r.max_disk;
        disk_used_bytes = r.disk;
        disk_total_bytes = r.max_disk;
        health = Health.ok;
      }

  abbrev pub configured : Option StorageConfig → Storage → Storage
  configured none st = st
  configured (some cfg) st = apply_storage_config w.floats cfg st

  -- The loop over the items of a storage.
  unfoldable pub add_items : List StorageContent → State × Storage → State × Storage
  add_items [] acc = acc
  add_items (item ∷ rest) (s, st) =
      let i = storage_item_display w.floats w.client st item in
      add_items rest (
        record s { storage_items = appended s.storage_items (i ∷ []) },
        apply_storage_item_summary i st,
      )

  unfoldable pub scan_content : State × Storage → State × Storage
  unfolding add_items
  scan_content (s, st) =
      let add =
        with_capability w.client st.host_id [] (codes "storage_content")
          (node_endpoint st.node "/storage/" ++ st.name ++ codes "/content") in
      if storage_content_queryable st
      then elim (storage_content w.api st.node st.name) [
        | failed e ↦ (add (some e) s, st)
        | answered items ↦ add_items items (add none s, st)
      ]
      else (s, st)

  -- The fullest storage of a host, the last of several.
  abbrev pub note_storage : Storage → Host → Host
  note_storage st h =
      if leb h.storage_max_pct st.disk_pct
      then record h { storage_max_pct = st.disk_pct; storage_max_name = st.name }
      else h

  unfoldable pub add_storage :
      List StorageConfig → Resource → State × List (Text × Host) → State × List (Text × Host)
  unfolding storage_of scan_content change_host
  add_storage configs r (s, hosts) =
      let fresh = storage_of r in
      let listed = scan_content (s, configured (config_of fresh.name configs) fresh) in
      let checked = apply_storage_alerts w.alerts listed.0 listed.1 in
      (
        record checked.0 { storages = appended checked.0.storages (checked.1 ∷ []) },
        change_host fresh.node (note_storage checked.1) hosts,
      )

  unfoldable pub add_storages :
      List StorageConfig → List Resource → State × List (Text × Host) → State × List (Text × Host)
  unfolding add_storage
  add_storages configs [] acc = acc
  add_storages configs (r ∷ rest) acc =
      add_storages configs rest
        (if text_eq r.type (codes "storage") then add_storage configs r acc else acc)
