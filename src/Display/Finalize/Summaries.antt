-- ===== src/Display/Finalize/Summaries.antt =====
-- The summary of Finalize (apps/bridge/internal/display/state.go), and a description of it with no loop.
use proxmox_desk_display.Base.{
  ◌+◌, ◌≤◌, ◌≡◌, refl, ◌∙◌, Bool, true, false, not, ◌&&◌, ◌||◌, List, [], ◌∷◌, elems, non_nil,
  elems-non_nil, length, count_if, any, count_if-le-length, ltb, if◌then◌else◌, arith,
}
use mathlib.Core.Path.{ap₂}
use proxmox_desk_display.Display.Health.{Health, ok, warning, critical, health_eq}
use proxmox_desk_display.Display.Hosts.{Host}
use proxmox_desk_display.Display.Inventory.{Alert}
use proxmox_desk_display.Display.State.{Summary, State}
use proxmox_desk_display.Display.Finalize.{
  is_online, is_running, scan_alerts, check_hosts, normalize, finalize,
}

abbrev pub is_critical : Alert → Bool
is_critical a = health_eq a.severity critical

abbrev pub is_warning : Alert → Bool
is_warning a = health_eq a.severity warning

abbrev pub is_offline : Host → Bool
is_offline h = not h.online

-- Critical if an alert is critical or a host is offline, else warning if an alert is a warning.
abbrev pub health_of : List Host → List Alert → Health
health_of hosts alerts =
    if any is_critical alerts || any is_offline hosts
    then critical
    else if any is_warning alerts
    then warning
    else ok

scan_alerts_lem :
    (h : Health) (alerts : List Alert)
    → scan_alerts h alerts ≡ (
        if any is_critical alerts
        then (critical, true)
        else (if any is_warning alerts then warning else h, false))
unfolding scan_alerts any
scan_alerts_lem h [] = refl
scan_alerts_lem h (a ∷ rest) = ground (arith, scan_alerts_lem h rest, scan_alerts_lem warning rest)

count_online_lt :
    (hosts : List Host) → ltb (count_if is_online hosts) (length hosts) ≡ any is_offline hosts
unfolding count_if any is_online
count_online_lt [] = refl
count_online_lt (h ∷ rest) = ground (arith, count_online_lt rest, count_if-le-length is_online rest)

any_offline_nonempty :
    (hosts : List Host) → ltb 0 (length hosts) && any is_offline hosts ≡ any is_offline hosts
unfolding any
any_offline_nonempty [] = refl
any_offline_nonempty (h ∷ rest) = ground arith

health_lem :
    (hosts : List Host) (alerts : List Alert)
    → check_hosts (count_if is_online hosts) (length hosts) (scan_alerts ok alerts)
      ≡ health_of hosts alerts
unfolding check_hosts
health_lem hosts alerts =
    ground (arith, scan_alerts_lem ok alerts, count_online_lt hosts, any_offline_nonempty hosts)

-- Finalize sets the health to critical exactly when an alert is critical or a host is offline, and
-- otherwise to warning exactly when an alert is a warning, and otherwise to ok.
pub health-finalize :
    (s : State) → (finalize s).summary.health ≡ health_of (elems s.hosts) (elems s.alerts)
unfolding finalize normalize
health-finalize s =
    health_lem (elems (non_nil s.hosts)) (elems (non_nil s.alerts))
    ∙ ap₂ health_of (elems-non_nil s.hosts) (elems-non_nil s.alerts)

-- The counters of a summary and the lists of a state.
pub record CountsMatch (s : State) (sum : Summary) : Type 0 where
  pub total : sum.hosts_total ≡ length (elems s.hosts)
  pub online : sum.hosts_online ≡ count_if is_online (elems s.hosts)
  pub online_le : sum.hosts_online ≤ sum.hosts_total
  pub guests : sum.guests_running + sum.guests_stopped ≡ length (elems s.guests)
  pub running : sum.guests_running ≡ count_if is_running (elems s.guests)
  pub alert_count : sum.alerts ≡ length (elems s.alerts)
  pub update_count : sum.updates ≡ length (elems s.updates)
