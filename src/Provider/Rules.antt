-- ===== src/Provider/Rules.antt =====
-- The rules of the collector on health, alerts and warnings
-- (apps/bridge/internal/proxmox/provider.go). The loops append to one state; a percentage is a natural
-- number, since every one comes from clampPct.
pub mod HostAlerts
pub mod Capabilities
pub mod Warnings
use proxmox_desk_display.Base.{
  List, Option, Bool, ℕ, [], ◌∷◌, some, none, suc, zero, any, if◌then◌else◌, ◌/◌, elems, ◌++◌,
  length, Slice, ◌||◌, ltb, map, not, ◌==◌, ◌-◌, leb, ◌+◌, ◌%◌,
}
use proxmox_desk_display.Base.Text.{
  Text, codes, text_eq, is_empty, to_lower, trim_space, contains, has_prefix, trim,
}
use proxmox_desk_display.Base.Int.{ℤ, pos, leb_ℤ}
use proxmox_desk_display.Config.{AlertConfig}
use proxmox_desk_display.Display.Health.{Health, max_health, warning, critical, unknown}
use proxmox_desk_display.Display.Hosts.{Host}
use proxmox_desk_display.Display.Inventory.{Alert, Capability}
use proxmox_desk_display.Display.State.{State}
use proxmox_desk_display.Provider.Collect.{max_capabilities}
use proxmox_desk_display.Base.Numbers.{decimal}

-- One of the strings occurs in the text.
unfoldable pub contains_any : List Text → Text → Bool
contains_any words text = any (contains text) words

-- healthFromText
unfoldable pub health_from_text : Text → Health
unfolding contains_any
health_from_text value =
    let text = to_lower (trim_space value) in
    if is_empty text || text_eq text (codes "unknown")
    then Health.unknown
    else if contains_any
        (codes "online" ∷ codes "active" ∷ codes "ok" ∷ codes "pass" ∷ codes "healthy" ∷ []) text
    then Health.ok
    else if contains_any (codes "degraded" ∷ codes "warn" ∷ []) text
    then Health.warning
    else if contains_any
        (codes "fault" ∷ codes "fail" ∷ codes "error" ∷ codes "critical" ∷ codes "offline" ∷ [])
        text
    then Health.critical
    else Health.unknown

-- diskHealth, which does not use the wear-out
unfoldable pub disk_health : Text → Health
unfolding contains_any
disk_health smart =
    let value = to_lower (trim_space smart) in
    if contains_any (codes "fail" ∷ codes "bad" ∷ codes "critical" ∷ []) value
    then Health.critical
    else if contains_any (codes "warn" ∷ []) value
    then Health.warning
    else if contains_any (codes "pass" ∷ codes "ok" ∷ codes "healthy" ∷ []) value
    then Health.ok
    else Health.unknown

-- `append(state.Alerts, a)`
unfoldable pub push_alert : Alert → State → State
push_alert a s = record s { alerts = some (elems s.alerts ++ a ∷ []) }

-- alertForHost; the title's spaces become dashes in the id
unfoldable pub alert_for_host : Host → Health → Text → Text → Alert
alert_for_host h severity title message = record {
  id = h.id ++ codes "/" ++ map (λ c. if c == b' ' then b'-' else c) title;
  source_id = h.source_id;
  host_id = h.id;
  guest_id = [];
  severity = severity;
  title = h.name ++ codes " " ++ title;
  message = message;
}

abbrev pub raise_host : Health → Host → Host
raise_host health h = record h { health = max_health h.health health }

-- The part of applyHostAlerts on the memory.
unfoldable pub memory_rule : AlertConfig → State → Host → State × Host
unfolding push_alert alert_for_host decimal
memory_rule cfg s h =
    let message = codes "memory is " ++ decimal h.memory_pct ++ codes "%" in
    if leb_ℤ cfg.memory_critical_pct (pos h.memory_pct)
    then (
      push_alert (alert_for_host h Health.critical (codes "memory critical") message) s,
      raise_host Health.critical h,
    )
    else if leb_ℤ cfg.memory_warning_pct (pos h.memory_pct)
    then (
      push_alert (alert_for_host h Health.warning (codes "memory warning") message) s,
      raise_host Health.warning h,
    )
    else (s, h)

-- The larger of the two storage percentages.
unfoldable pub host_storage_pct : Host → ℕ
host_storage_pct h =
    if ltb h.storage_pct h.storage_max_pct then h.storage_max_pct else h.storage_pct

-- The alert of a storage rule, made only where no storage is named, which has its own alert.
unfoldable pub push_unnamed : Host → Alert → State → State
push_unnamed h a s = if is_empty h.storage_max_name then push_alert a s else s

-- The part of applyHostAlerts on the storage.
unfoldable pub storage_rule : AlertConfig → State → Host → State × Host
unfolding push_unnamed host_storage_pct
storage_rule cfg s h =
    let pct = host_storage_pct h in
    let message = codes "storage is " ++ decimal pct ++ codes "%" in
    if leb_ℤ cfg.storage_critical_pct (pos pct)
    then (
      push_unnamed h (alert_for_host h Health.critical (codes "storage critical") message) s,
      raise_host Health.critical h,
    )
    else if leb_ℤ cfg.storage_warning_pct (pos pct)
    then (
      push_unnamed h (alert_for_host h Health.warning (codes "storage warning") message) s,
      raise_host Health.warning h,
    )
    else (s, h)

unfoldable pub offline_alert : Host → Alert
offline_alert h = record {
  id = h.id ++ codes "/offline";
  source_id = h.source_id;
  host_id = h.id;
  guest_id = [];
  severity = Health.critical;
  title = h.name ++ codes " offline";
  message = codes "Proxmox node is not online";
}

unfoldable pub apply_host_alerts : AlertConfig → State → Host → State × Host
unfolding memory_rule storage_rule offline_alert
apply_host_alerts cfg s h =
    if not h.online
    then (push_alert (offline_alert h) s, h)
    else (let m = memory_rule cfg s h in storage_rule cfg m.0 m.1)

-- addDataWarning and addClusterWarning, on the list of warnings
unfoldable pub add_warning : Text → List Text → List Text
add_warning message warnings =
    if any (λ w. text_eq w message) warnings then warnings else warnings ++ message ∷ []
