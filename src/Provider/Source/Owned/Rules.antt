-- ===== src/Provider/Source/Owned/Rules.antt =====
-- The source of the alerts that the rules append (apps/bridge/internal/proxmox/provider.go).
use proxmox_desk_display.Base.{inl, inr, ◌≡◌, Bool-cases, ◌++◌, not, ◌&&◌}
use proxmox_desk_display.Provider.Storage.{
  status_rule, usage_rule, apply_storage_alerts, is_available, storage_alert,
}
use proxmox_desk_display.Provider.Rules.{
  alert_for_host, push_unnamed, memory_rule, storage_rule, apply_host_alerts, offline_alert,
  push_alert, host_storage_pct,
}
use proxmox_desk_display.Base.Text.{Text, codes, is_empty}
use proxmox_desk_display.Display.State.{State}
use proxmox_desk_display.Config.{AlertConfig}
use proxmox_desk_display.Display.Hosts.{Storage, Host}
use proxmox_desk_display.Provider.Source.Owned.{IsOwned}
use proxmox_desk_display.Display.Health.{Health, health_eq}
use proxmox_desk_display.Provider.Source.Owned.Appends.{push_alert-IsOwned}
use proxmox_desk_display.Base.Numbers.{decimal}
use proxmox_desk_display.Base.Int.{leb_ℤ, pos}

status_rule-Owned :
    (id : Text) (s : State) (st : Storage)
    → IsOwned id s
    → st.source_id ≡ id
    → IsOwned id (status_rule s st).0 × ((status_rule s st).1.source_id ≡ id)
unfolding status_rule
status_rule-Owned id s st own e = elim (Bool-cases (is_available st)) [
  | inl p ↦ rw p (own, e)
  | inr p ↦ rw p (
    push_alert-IsOwned id s
        (storage_alert st (codes "/status") Health.warning
          (st.host_name ++ codes " storage " ++ st.name) (codes "status is " ++ st.status))
        e own,
    e,
  )
]

usage_rule-Owned :
    (id : Text) (cfg : AlertConfig) (s : State) (st : Storage)
    → IsOwned id s
    → st.source_id ≡ id
    → IsOwned id (usage_rule cfg s st).0 × ((usage_rule cfg s st).1.source_id ≡ id)
unfolding usage_rule
usage_rule-Owned id cfg s st own e =
    let message = codes "storage is " ++ decimal st.disk_pct ++ codes "%" in
    let title = st.host_name ++ codes " " ++ st.name in
    elim (Bool-cases (leb_ℤ cfg.storage_critical_pct (pos st.disk_pct))) [
      | inl p ↦ rw p (
        push_alert-IsOwned id s
            (storage_alert st (codes "/critical") Health.critical (title ++ codes " critical")
              message)
            e own,
        e,
      )
      | inr p ↦
          elim (Bool-cases (
            leb_ℤ cfg.storage_warning_pct (pos st.disk_pct)
            && not (health_eq st.health Health.critical))) [
              | inl q ↦
                  rw (p, q)
                    (
                      push_alert-IsOwned id s
                          (storage_alert st (codes "/warning") Health.warning
                            (title ++ codes " warning") message)
                          e own,
                      e,
                    )
              | inr q ↦ rw (p, q) (own, e)
            ]
    ]

-- The rules on a storage add alerts about its source.
pub apply_storage_alerts-Owned :
    (id : Text) (cfg : AlertConfig) (s : State) (st : Storage)
    → IsOwned id s
    → st.source_id ≡ id
    → IsOwned id (apply_storage_alerts cfg s st).0
      × ((apply_storage_alerts cfg s st).1.source_id ≡ id)
unfolding apply_storage_alerts
apply_storage_alerts-Owned id cfg s st own e =
    let r = status_rule s st in
    let k = status_rule-Owned id s st own e in usage_rule-Owned id cfg r.0 r.1 k.0 k.1

-- A rule appends an alert about the host's source.
host_alert-IsOwned :
    (id : Text) (s : State) (h : Host) (l : Health) (title message : Text)
    → h.source_id ≡ id
    → IsOwned id s
    → IsOwned id (push_alert (alert_for_host h l title message) s)
unfolding alert_for_host
host_alert-IsOwned id s h l title message e own =
    push_alert-IsOwned id s (alert_for_host h l title message) e own

push_unnamed-IsOwned :
    (id : Text) (s : State) (h : Host) (l : Health) (title message : Text)
    → h.source_id ≡ id
    → IsOwned id s
    → IsOwned id (push_unnamed h (alert_for_host h l title message) s)
unfolding push_unnamed
push_unnamed-IsOwned id s h l title message e own =
    elim (Bool-cases (is_empty h.storage_max_name)) [
      | inl p ↦ rw p (host_alert-IsOwned id s h l title message e own)
      | inr p ↦ rw p own
    ]

memory_rule-Owned :
    (id : Text) (cfg : AlertConfig) (s : State) (h : Host)
    → IsOwned id s
    → h.source_id ≡ id
    → IsOwned id (memory_rule cfg s h).0 × ((memory_rule cfg s h).1.source_id ≡ id)
unfolding memory_rule
memory_rule-Owned id cfg s h own e =
    let message = codes "memory is " ++ decimal h.memory_pct ++ codes "%" in
    elim (Bool-cases (leb_ℤ cfg.memory_critical_pct (pos h.memory_pct))) [
      | inl p ↦
          rw p
            (host_alert-IsOwned id s h Health.critical (codes "memory critical") message e own, e)
      | inr p ↦ elim (Bool-cases (leb_ℤ cfg.memory_warning_pct (pos h.memory_pct))) [
        | inl q ↦
            rw (p, q)
              (host_alert-IsOwned id s h Health.warning (codes "memory warning") message e own, e)
        | inr q ↦ rw (p, q) (own, e)
      ]
    ]

storage_rule-Owned :
    (id : Text) (cfg : AlertConfig) (s : State) (h : Host)
    → IsOwned id s
    → h.source_id ≡ id
    → IsOwned id (storage_rule cfg s h).0 × ((storage_rule cfg s h).1.source_id ≡ id)
unfolding storage_rule
storage_rule-Owned id cfg s h own e =
    let pct = host_storage_pct h in
    let message = codes "storage is " ++ decimal pct ++ codes "%" in
    elim (Bool-cases (leb_ℤ cfg.storage_critical_pct (pos pct))) [
      | inl p ↦
          rw p (
            push_unnamed-IsOwned id s h Health.critical (codes "storage critical") message e own,
            e,
          )
      | inr p ↦ elim (Bool-cases (leb_ℤ cfg.storage_warning_pct (pos pct))) [
        | inl q ↦
            rw (p, q)
              (
                push_unnamed-IsOwned id s h Health.warning (codes "storage warning") message e own,
                e,
              )
        | inr q ↦ rw (p, q) (own, e)
      ]
    ]

-- The rules on a host add alerts about its source.
pub apply_host_alerts-Owned :
    (id : Text) (cfg : AlertConfig) (s : State) (h : Host)
    → IsOwned id s
    → h.source_id ≡ id
    → IsOwned id (apply_host_alerts cfg s h).0 × ((apply_host_alerts cfg s h).1.source_id ≡ id)
unfolding apply_host_alerts offline_alert
apply_host_alerts-Owned id cfg s h own e = elim (Bool-cases (not h.online)) [
  | inl p ↦ rw p (push_alert-IsOwned id s (offline_alert h) e own, e)
  | inr p ↦ rw p (
      let m = memory_rule cfg s h in
      let k = memory_rule-Owned id cfg s h own e in storage_rule-Owned id cfg m.0 m.1 k.0 k.1)
]
