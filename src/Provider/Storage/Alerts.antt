-- ===== src/Provider/Storage/Alerts.antt =====
-- The health of a storage against its alerts (apps/bridge/internal/proxmox/provider.go).
use proxmox_desk_display.Provider.Storage.{
  is_available, storage_alert, status_rule, usage_rule, apply_storage_alerts,
}
use proxmox_desk_display.Provider.Rules.{push_alert}
use proxmox_desk_display.Display.Health.{Health, health_eq, max_health}
use proxmox_desk_display.Display.Hosts.{Storage}
use proxmox_desk_display.Display.State.{State}
use proxmox_desk_display.Display.Inventory.{Alert}
use proxmox_desk_display.Config.{AlertConfig}
use proxmox_desk_display.Base.{
  [], ◌∷◌, refl, inl, inr, ◌≡◌, List, sym, Bool-cases, ◌++◌, elems, ◌≢◌, All, ◌⊎◌, ◌&&◌, not,
}
use proxmox_desk_display.Base.Text.{Text, codes}
use mathlib.Core.List.{append-nil, append_assoc}
use proxmox_desk_display.Base.Int.{leb_ℤ, pos}

-- The worst severity of the alerts.
abbrev pub worst_of : List Alert → Health
worst_of [] = Health.unset
worst_of (a ∷ rest) = max_health a.severity (worst_of rest)

-- The alert is about the storage, and its id begins with the storage's.
pub record IsAlertOf (st : Storage) (a : Alert) : Type 0 where
  pub host : a.host_id ≡ st.host_id
  pub source : a.source_id ≡ st.source_id
  pub suffix : Text
  pub id : a.id ≡ st.id ++ suffix

-- The alerts that a rule appends, and the health that it leaves.
pub record IsWatched (s s' : State) (st st' : Storage) : Type 0 where
  pub new : List Alert
  pub alerts : elems s'.alerts ≡ elems s.alerts ++ new
  pub about : All (IsAlertOf st) new
  pub health :
      ((new ≡ []) × (st' ≡ st)) ⊎ ((new ≢ []) × (st' ≡ record st { health = worst_of new }))

unwatched : (s : State) (st : Storage) → IsWatched s s st st
unwatched s st = record {
  new = [];
  alerts = sym (append-nil (elems s.alerts));
  about = tt;
  health = inl (refl, refl);
}

some-alerts : (a : Alert) (xs : List Alert) → a ∷ xs ≢ []
some-alerts a xs h = cc

-- A rule that sets the health to the severity of the alert it appends.
alerted :
    (s : State) (st : Storage) (suffix : Text) (l : Health) (title message : Text)
    → max_health l Health.unset ≡ l
    → IsWatched s
        (push_alert (storage_alert st suffix l title message) s)
        st
        (record st { health = l })
unfolding push_alert
alerted s st suffix l title message e = record {
  new = storage_alert st suffix l title message ∷ [];
  alerts = refl;
  about = (record { host = refl; source = refl; suffix = suffix; id = refl }, tt);
  health = inr (some-alerts _ [], λ i. record st { health = sym e i });
}

-- The same after the alert on the status.
alerted_twice :
    (s : State) (st : Storage) (a : Alert) (suffix : Text) (l : Health) (title message : Text)
    → IsAlertOf st a
    → max_health a.severity (max_health l Health.unset) ≡ l
    → IsWatched s
        (push_alert (storage_alert st suffix l title message) (push_alert a s))
        st
        (record st { health = l })
unfolding push_alert
alerted_twice s st a suffix l title message about e = record {
  new = a ∷ storage_alert st suffix l title message ∷ [];
  alerts = append_assoc (elems s.alerts) (a ∷ []) _;
  about = (about, (record { host = refl; source = refl; suffix = suffix; id = refl }, tt));
  health = inr (some-alerts a _, λ i. record st { health = sym e i });
}

-- The rule on the usage alone.
usage_rule-IsWatched :
    (cfg : AlertConfig) (s : State) (st : Storage)
    → IsWatched s (usage_rule cfg s st).0 st (usage_rule cfg s st).1
unfolding usage_rule max_health
usage_rule-IsWatched cfg s st =
    elim (Bool-cases (leb_ℤ cfg.storage_critical_pct (pos st.disk_pct))) [
      | inl p ↦ rw p (alerted s st _ Health.critical _ _ refl)
      | inr p ↦
          elim (Bool-cases (
            leb_ℤ cfg.storage_warning_pct (pos st.disk_pct)
            && not (health_eq st.health Health.critical))) [
              | inl q ↦ rw (p, q) (alerted s st _ Health.warning _ _ refl)
              | inr q ↦ rw (p, q) (unwatched s st)
            ]
    ]

status_about :
    (st : Storage) (title message : Text)
    → IsAlertOf st (storage_alert st (codes "/status") Health.warning title message)
status_about st title message = record {
  host = refl;
  source = refl;
  suffix = codes "/status";
  id = refl;
}

-- The rule on the usage of a storage whose status raised an alert.
usage_rule-again :
    (cfg : AlertConfig) (s : State) (st : Storage) (title message : Text)
    → let m = push_alert (storage_alert st (codes "/status") Health.warning title message) s in
      let w = record st { health = Health.warning } in
      IsWatched s (usage_rule cfg m w).0 st (usage_rule cfg m w).1
unfolding usage_rule max_health
usage_rule-again cfg s st title message =
    elim (Bool-cases (leb_ℤ cfg.storage_critical_pct (pos st.disk_pct))) [
      | inl p ↦
          rw p (alerted_twice s st _ _ Health.critical _ _ (status_about st title message) refl)
      | inr p ↦ elim (Bool-cases (leb_ℤ cfg.storage_warning_pct (pos st.disk_pct))) [
        | inl q ↦
            rw (p, q)
              (alerted_twice s st _ _ Health.warning _ _ (status_about st title message) refl)
        | inr q ↦ rw (p, q) (alerted s st _ Health.warning _ _ refl)
      ]
    ]

-- applyStorageAlerts appends alerts, all about the storage and with ids that begin with its id, and
-- takes none away. Of the storage it changes the health and nothing else: where it appends an alert,
-- the new health is the worst severity among the new alerts, and where it appends none, the storage
-- is unchanged.
pub apply_storage_alerts-IsWatched :
    (cfg : AlertConfig) (s : State) (st : Storage)
    → IsWatched s (apply_storage_alerts cfg s st).0 st (apply_storage_alerts cfg s st).1
unfolding apply_storage_alerts status_rule
apply_storage_alerts-IsWatched cfg s st = elim (Bool-cases (is_available st)) [
  | inl p ↦ rw p (usage_rule-IsWatched cfg s st)
  | inr p ↦ rw p (usage_rule-again cfg s st _ _)
]
