-- ===== src/Display/Tests.antt =====
-- Runs of package display on concrete states.
use proxmox_desk_display.Base.{count_if}
use proxmox_desk_display.Base.Text.{codes, text_eq}
use proxmox_desk_display.Display.Samples.{zero_host, zero_guest, zero_alert, zero_capability}
use proxmox_desk_display.Display.Hosts.{Host}
use proxmox_desk_display.Display.Guests.{Guest}
use proxmox_desk_display.Display.Inventory.{Alert, Capability}
use proxmox_desk_display.Display.State.{State}
use proxmox_desk_display.Display.Health.{ok, warning, critical}
use proxmox_desk_display.Base.{[], ◌∷◌, some, true, ◌≡◌, List, elems, refl}
use proxmox_desk_display.Display.Finalize.{zero_state, finalize}
use proxmox_desk_display.Display.Finalize.Summaries.{health_of, health-finalize}
use proxmox_desk_display.Display.Detail.{
  prioritized_capabilities, detail_for_display, first_n, capability_less, capability_rank,
}
use proxmox_desk_display.Display.Detail.Bounds.{IsDetailOf, detail_for_display-IsDetailOf}
use proxmox_desk_display.Display.Detail.Priority.{IsChoice, prioritized_capabilities-IsChoice}
use proxmox_desk_display.Base.Order.{sort_stable, insert}

abbrev online_host : Host
online_host = record zero_host { id = codes "a"; online = true; health = ok }

abbrev offline_host : Host
offline_host = record zero_host { id = codes "b"; health = critical }

abbrev running_guest : Guest
running_guest = record zero_guest { id = codes "g"; status = codes "running" }

abbrev memory_alert : Alert
memory_alert = record zero_alert { id = codes "m"; severity = warning }

abbrev missing : Capability
missing = record zero_capability { name = codes "zfs"; status = codes "not_found" }

abbrev failing : Capability
failing = record zero_capability { name = codes "disks"; status = codes "error" }

abbrev warned : State
warned = record zero_state {
  hosts = some (online_host ∷ []);
  guests = some (running_guest ∷ zero_guest ∷ []);
  alerts = some (memory_alert ∷ []);
  capabilities = some (missing ∷ failing ∷ []);
}

abbrev down : State
down = record warned { hosts = some (online_host ∷ offline_host ∷ []) }

health_of_warned : (finalize warned).summary.health ≡ warning
unfolding finalize count_if
health_of_warned = refl

health_of_down : (finalize down).summary.health ≡ critical
unfolding finalize count_if
health_of_down = refl

running_of_down : (finalize down).summary.guests_running ≡ 1
unfolding finalize count_if text_eq
running_of_down = refl

health-finalize_example :
    (finalize down).summary.health ≡ health_of (elems down.hosts) (elems down.alerts)
health-finalize_example = health-finalize down

first_shown : prioritized_capabilities (some (missing ∷ failing ∷ [])) 1 ≡ some (failing ∷ [])
unfolding prioritized_capabilities first_n sort_stable insert capability_less capability_rank
    text_eq
first_shown = refl

prioritized_capabilities-IsChoice_example :
    (kept : List Capability) × (prioritized_capabilities (some (missing ∷ failing ∷ [])) 1
      ≡ some kept)
    × IsChoice (missing ∷ failing ∷ []) 1 kept
prioritized_capabilities-IsChoice_example =
    prioritized_capabilities-IsChoice (missing ∷ failing ∷ []) 1

detail_for_display-IsDetailOf_example : IsDetailOf down (detail_for_display down)
detail_for_display-IsDetailOf_example = detail_for_display-IsDetailOf down
