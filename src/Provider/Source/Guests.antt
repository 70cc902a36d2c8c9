-- ===== src/Provider/Source/Guests.antt =====
-- The guests of a source (apps/bridge/internal/proxmox/provider.go).
mod Asked
unfoldable pub use Asked.*
use proxmox_desk_display.Base.{
  [], ◌∷◌, some, none, true, false, Option, List, String, if◌then◌else◌, Bool, ◌++◌, ◌&&◌, not, ◌+◌,
  ◌||◌, map, keep_if, ltb, length,
}
use proxmox_desk_display.Base.Text.{Text, codes, text_eq, is_empty, trim_prefix}
use proxmox_desk_display.Provider.Api.Clusters.{Resource}
use proxmox_desk_display.Provider.Source.Steps.{Scan, appended, with_capability, alert_of}
use proxmox_desk_display.Config.{PinnedGuest}
use proxmox_desk_display.Base.Numbers.{itoa}
use proxmox_desk_display.Display.Guests.{Guest, Snapshot}
use proxmox_desk_display.Display.State.{State}
use proxmox_desk_display.Display.Samples.{zero_guest}
use proxmox_desk_display.Provider.Calls.{CallError}
use proxmox_desk_display.Provider.Api.{
  answered, failed, guest_config, guest_status, guest_rrd_data, guest_snapshots,
  container_interfaces,
}
use proxmox_desk_display.Provider.Api.Guests.{GuestSnapshot}
use proxmox_desk_display.Provider.Guests.Agent.{apply_guest_agent, with_first}
use proxmox_desk_display.Display.Hosts.{Host}
use proxmox_desk_display.Provider.Source.Storages.{change_host}
use proxmox_desk_display.Provider.Json.{first_non_empty, display_name, pct_float, pct_int64}
use proxmox_desk_display.Provider.Rules.{push_alert}
use proxmox_desk_display.Display.Health.{Health}
use proxmox_desk_display.Provider.Guests.Config.{apply_guest_config, apply_guest_status}
use proxmox_desk_display.Provider.Trends.{guest_metric_trends}
use proxmox_desk_display.Provider.Guests.Addresses.{container_ip_addresses}
use proxmox_desk_display.Base.Int.{is_set}
use proxmox_desk_display.Display.Inventory.{Alert}

module _ (w : Scan) where
  abbrev pub status_alert : Option PinnedGuest → Guest → Alert
  status_alert pin g =
      alert_of w.client.id (g.id ++ codes "/unexpected-status") g.host_id g.id Health.warning
        (g.name ++ codes " is " ++ g.status) (codes "expected " ++ expected_of pin)

  -- A pinned guest that is not in the expected status.
  unfoldable pub check_expected : Option PinnedGuest → State × Guest → State × Guest
  check_expected pin (s, g) =
      if is_pinned pin
        && not (is_empty (expected_of pin))
        && not (text_eq g.status (expected_of pin))
      then (push_alert (status_alert pin g) s, record g { health = Health.warning })
      else (s, g)

  -- What a guest resource comes to.
  unfoldable pub scan_guest : Resource → State → State × Guest
  unfolding guest_of ask_config ask_status ask_rrd ask_snapshots ask_guest_agent ask_interfaces
      check_expected
  scan_guest r s =
      let pin = pin_of (w.client.id ++ codes "/" ++ vmid_of w r) w.pinned in
      check_expected pin (
        ask_interfaces w r (
          ask_guest_agent w r (
            ask_snapshots w r
              (ask_rrd w r (ask_status w r (ask_config w r (s, guest_of w r pin)))))))

  abbrev pub count_guest : Guest → Host → Host
  count_guest g h =
      if text_eq g.status (codes "running")
      then record h { guests_running = h.guests_running + 1 }
      else record h { guests_stopped = h.guests_stopped + 1 }

  unfoldable pub add_guest : Resource → Scanned → Scanned
  unfolding scan_guest
  add_guest r acc =
      let x = scan_guest r acc.state in
      record {
        state = record x.0 { guests = appended x.0.guests (x.1 ∷ []) };
        hosts = change_host r.node (count_guest x.1) acc.hosts;
        guests = (x.1.id, x.1) ∷ acc.guests;
      }

  unfoldable pub add_guests : List Resource → Scanned → Scanned
  unfolding add_guest
  add_guests [] acc = acc
  add_guests (r ∷ rest) acc = add_guests rest (
      if text_eq r.type (codes "qemu") || text_eq r.type (codes "lxc")
      then add_guest r acc
      else acc)
