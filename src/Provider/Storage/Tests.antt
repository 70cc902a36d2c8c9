-- ===== src/Provider/Storage/Tests.antt =====
-- The alerts of a storage that is unknown and nearly full.
use proxmox_desk_display.Display.Samples.{zero_storage}
use proxmox_desk_display.Config.{mock_config}
use proxmox_desk_display.Provider.Storage.{apply_storage_alerts}
use proxmox_desk_display.Provider.Storage.Alerts.{IsWatched, apply_storage_alerts-IsWatched}
use proxmox_desk_display.Base.{[], ◌∷◌, refl, ◌≡◌, map, elems}
use proxmox_desk_display.Display.Hosts.{Storage}
use proxmox_desk_display.Display.State.{State}
use proxmox_desk_display.Base.Text.{codes, text_eq}
use proxmox_desk_display.Display.Finalize.{new_state}
use proxmox_desk_display.Display.Health.{Health}
use proxmox_desk_display.Base.Int.{pos}

abbrev nearly_full : Storage
nearly_full = record zero_storage {
  id = codes "home/a/local";
  name = codes "local";
  host_name = codes "a";
  status = codes "unknown";
  disk_pct = 95;
  health = Health.ok;
}

abbrev empty_state : State
empty_state = new_state (pos 7)

two_alerts :
    map
      (λ a. a.id)
      (elems (apply_storage_alerts mock_config.alerts empty_state nearly_full).0.alerts)
    ≡ codes "home/a/local/status" ∷ codes "home/a/local/critical" ∷ []
unfolding apply_storage_alerts mock_config text_eq new_state
two_alerts = refl

critical_then :
    (apply_storage_alerts mock_config.alerts empty_state nearly_full).1.health ≡ Health.critical
unfolding apply_storage_alerts mock_config text_eq
critical_then = refl

apply_storage_alerts-IsWatched_example :
    IsWatched empty_state
      (apply_storage_alerts mock_config.alerts empty_state nearly_full).0
      nearly_full
      (apply_storage_alerts mock_config.alerts empty_state nearly_full).1
apply_storage_alerts-IsWatched_example =
    apply_storage_alerts-IsWatched mock_config.alerts empty_state nearly_full
