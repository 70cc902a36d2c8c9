-- ===== src/Provider/Storage.antt =====
-- The alerts of one storage (apps/bridge/internal/proxmox/provider.go).
pub mod Alerts
pub mod Tests
use proxmox_desk_display.Base.{[], ◌∷◌, Bool, if◌then◌else◌, ◌++◌, ◌||◌, ◌&&◌, not}
use proxmox_desk_display.Base.Text.{Text, codes, is_empty, text_eq}
use proxmox_desk_display.Base.Int.{pos, leb_ℤ}
use proxmox_desk_display.Config.{AlertConfig}
use proxmox_desk_display.Display.Health.{Health, health_eq}
use proxmox_desk_display.Display.Hosts.{Storage}
use proxmox_desk_display.Display.Inventory.{Alert}
use proxmox_desk_display.Display.State.{State}
use proxmox_desk_display.Provider.Rules.{push_alert}
use proxmox_desk_display.Base.Numbers.{decimal}

-- The statuses that raise no alert.
abbrev pub is_available : Storage → Bool
is_available st =
    text_eq st.status (codes "available") || text_eq st.status (codes "ok") || is_empty st.status

-- The fields that the three alerts share.
abbrev pub storage_alert : Storage → Text → Health → Text → Text → Alert
storage_alert st suffix severity title message = record {
  id = st.id ++ suffix;
  source_id = st.source_id;
  host_id = st.host_id;
  guest_id = [];
  severity = severity;
  title = title;
  message = message;
}

-- The part of applyStorageAlerts on the status, which sets the health.
unfoldable pub status_rule : State → Storage → State × Storage
unfolding push_alert
status_rule s st =
    if not (is_available st)
    then (
      push_alert
          (storage_alert st (codes "/status") Health.warning
            (st.host_name ++ codes " storage " ++ st.name) (codes "status is " ++ st.status))
          s,
      record st { health = Health.warning },
    )
    else (s, st)

-- The part of applyStorageAlerts on the usage.
unfoldable pub usage_rule : AlertConfig → State → Storage → State × Storage
unfolding push_alert decimal
usage_rule cfg s st =
    let message = codes "storage is " ++ decimal st.disk_pct ++ codes "%" in
    if leb_ℤ cfg.storage_critical_pct (pos st.disk_pct)
    then (
      push_alert
          (storage_alert st (codes "/critical") Health.critical
            (st.host_name ++ codes " " ++ st.name ++ codes " critical") message)
          s,
      record st { health = Health.critical },
    )
    else if leb_ℤ cfg.storage_warning_pct (pos st.disk_pct)
        && not (health_eq st.health Health.critical)
    then (
      push_alert
          (storage_alert st (codes "/warning") Health.warning
            (st.host_name ++ codes " " ++ st.name ++ codes " warning") message)
          s,
      record st { health = Health.warning },
    )
    else (s, st)

unfoldable pub apply_storage_alerts : AlertConfig → State → Storage → State × Storage
unfolding status_rule usage_rule
apply_storage_alerts cfg s st = let r = status_rule s st in usage_rule cfg r.0 r.1
