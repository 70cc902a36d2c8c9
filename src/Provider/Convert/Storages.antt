-- ===== src/Provider/Convert/Storages.antt =====
-- Storages and their contents (apps/bridge/internal/proxmox/provider.go).
use proxmox_desk_display.Base.{
  [], ◌∷◌, some, none, true, false, Bool, Option, ◌+◌, List, ◌++◌, if◌then◌else◌, not, ◌&&◌, ◌||◌,
}
use proxmox_desk_display.Provider.Json.{
  Floats, Any, string_value, value_of, first_non_empty, bool_value,
}
use proxmox_desk_display.Display.Hosts.{Storage}
use proxmox_desk_display.Base.Text.{equal_fold, to_lower, Text, is_empty, codes, text_eq}
use proxmox_desk_display.Display.Inventory.{StorageItem}
use proxmox_desk_display.Provider.Api.Clusters.{StorageConfig, StorageContent}
use proxmox_desk_display.Provider.Client.{Client}
use proxmox_desk_display.Base.Int.{is_above_zero, is_set}
use proxmox_desk_display.Display.Health.{Health}

unfoldable pub apply_storage_config : Floats → StorageConfig → Storage → Storage
apply_storage_config f cfg s = record s {
  plugin_type = first_non_empty (s.plugin_type ∷ cfg.type ∷ []);
  content = first_non_empty (s.content ∷ cfg.content ∷ []);
  path = cfg.path;
  pool = cfg.pool;
  mountpoint = cfg.mountpoint;
  shared = if s.shared then true else bool_value f cfg.shared;
}

unfoldable pub storage_content_queryable : Storage → Bool
storage_content_queryable s =
    let status = to_lower s.status in
    if is_empty s.name
    then false
    else if not (is_empty status)
        && not (text_eq status (codes "available"))
        && not (text_eq status (codes "ok"))
    then false
    else not (is_empty s.content)

-- The state in a verification, where there is one.
unfoldable pub verified_by : Floats → Option (List (Text × Any)) → Text
verified_by f none = []
verified_by f (some m) = string_value f (value_of (codes "state") m)

unfoldable pub verification_state : Floats → StorageContent → Text
unfolding verified_by
verification_state f item =
    let state = verified_by f item.verification in
    if not (is_empty state)
    then state
    else if is_above_zero item.verified
    then codes "verified"
    else []

unfoldable pub storage_item_display : Floats → Client → Storage → StorageContent → StorageItem
unfolding verification_state equal_fold
storage_item_display f client s item =
    let verification = verification_state f item in
    record {
      id = client.id ++ codes "/" ++ s.node ++ codes "/" ++ item.vol_id;
      source_id = client.id;
      host_id = s.host_id;
      host_name = s.host_name;
      node = s.node;
      storage = s.name;
      content = item.content;
      vol_id = item.vol_id;
      vmid = string_value f item.vmid;
      format = item.format;
      size_bytes = item.size;
      created_at = item.c_time;
      notes = item.notes;
      protected = is_set item.protected;
      verification_state = verification;
      health =
          if equal_fold verification (codes "failed") || equal_fold verification (codes "error")
          then Health.warning
          else Health.ok;
    }

unfoldable pub apply_storage_item_summary : StorageItem → Storage → Storage
apply_storage_item_summary item s =
    let counted = record s { content_items = s.content_items + 1 } in
    if text_eq item.content (codes "backup")
    then record counted { backup_count = s.backup_count + 1 }
    else if text_eq item.content (codes "iso")
    then record counted { iso_count = s.iso_count + 1 }
    else if text_eq item.content (codes "vztmpl")
    then record counted { template_count = s.template_count + 1 }
    else if text_eq item.content (codes "images")
    then record counted { image_count = s.image_count + 1 }
    else if text_eq item.content (codes "rootdir")
    then record counted { rootdir_count = s.rootdir_count + 1 }
    else counted
