-- ===== src/Provider/Rules/HostAlerts.antt =====
-- What applyHostAlerts makes of a host that is online (apps/bridge/internal/proxmox/provider.go).
use proxmox_desk_display.Provider.Rules.{
  apply_host_alerts, memory_rule, storage_rule, push_alert, push_unnamed, alert_for_host,
  host_storage_pct, raise_host,
}
use proxmox_desk_display.Display.Health.{Health, max_health, severity_rank, unset}
use proxmox_desk_display.Display.Hosts.{Host}
use proxmox_desk_display.Display.State.{State}
use proxmox_desk_display.Display.Inventory.{Alert}
use proxmox_desk_display.Config.{AlertConfig}
use proxmox_desk_display.Base.Int.{ℤ, pos, leb_ℤ}
use proxmox_desk_display.Base.{
  [], refl, inl, inr, ◌≡◌, ℕ, ◌≤◌, List, Bool-cases, if◌then◌else◌, elems, arith, ◌++◌, sym, All,
  ◌∷◌, true, max, ◌∙◌, ap, subst, All-append,
}
use mathlib.Core.List.{append-nil, append_assoc}
use proxmox_desk_display.Base.Text.{Text, is_empty, codes}
use proxmox_desk_display.Base.Numbers.{decimal}

-- The level of a percentage: critical from the one threshold on, else a warning from the other on.
abbrev pub level : ℤ → ℤ → ℕ → Health
level critical_pct warning_pct pct =
    if leb_ℤ critical_pct (pos pct)
    then Health.critical
    else if leb_ℤ warning_pct (pos pct)
    then Health.warning
    else unset

-- The alert is about the host, and no worse than the level.
pub record IsAlertOf (h : Host) (worst : Health) (a : Alert) : Type 0 where
  pub host : a.host_id ≡ h.id
  pub source : a.source_id ≡ h.source_id
  pub severity : severity_rank a.severity ≤ severity_rank worst

-- A rule raised the health by a level, and may have appended one alert.
record IsRuled (h : Host) (l : Health) (s s' : State) (h' : Host) : Type 0 where
  new : List Alert
  alerts : elems s'.alerts ≡ elems s.alerts ++ new
  about : All (IsAlertOf h l) new
  raised : h' ≡ raise_host l h

max_health-unset : (a : Health) → max_health a unset ≡ a
unfolding max_health
max_health-unset a = ground arith

raise-unset : (h : Host) → raise_host unset h ≡ h
raise-unset h = λ i. record h { health = max_health-unset h.health i }

-- A rule that raises the health and appends its alert.
pushed :
    (h : Host) (l : Health) (s : State) (title message : Text)
    → IsRuled h l s (push_alert (alert_for_host h l title message) s) (raise_host l h)
unfolding push_alert alert_for_host
pushed h l s title message = record {
  new = _;
  alerts = refl;
  about = (record { host = refl; source = refl; severity = omega arith }, tt);
  raised = refl;
}

-- A rule that does not apply.
unchanged : (h : Host) (s : State) → IsRuled h unset s s h
unchanged h s = record {
  new = [];
  alerts = sym (append-nil (elems s.alerts));
  about = tt;
  raised = sym (raise-unset h);
}

pushed_unnamed :
    (h : Host) (l : Health) (s : State) (title message : Text)
    → IsRuled h l s (push_unnamed h (alert_for_host h l title message) s) (raise_host l h)
unfolding push_unnamed
pushed_unnamed h l s title message = elim (Bool-cases (is_empty h.storage_max_name)) [
  | inl p ↦ rw p (pushed h l s title message)
  | inr p ↦
      rw p
        (record { new = []; alerts = sym (append-nil (elems s.alerts)); about = tt; raised = refl })
]

memory_rule-IsRuled :
    (cfg : AlertConfig) (s : State) (h : Host)
    → IsRuled h
        (level cfg.memory_critical_pct cfg.memory_warning_pct h.memory_pct)
        s
        (memory_rule cfg s h).0
        (memory_rule cfg s h).1
unfolding memory_rule
memory_rule-IsRuled cfg s h = elim (Bool-cases (leb_ℤ cfg.memory_critical_pct (pos h.memory_pct))) [
  | inl p ↦ rw p (
      pushed h Health.critical s (codes "memory critical")
        (codes "memory is " ++ decimal h.memory_pct ++ codes "%"))
  | inr p ↦ elim (Bool-cases (leb_ℤ cfg.memory_warning_pct (pos h.memory_pct))) [
    | inl q ↦
        rw (p, q)
          (pushed h Health.warning s (codes "memory warning")
            (codes "memory is " ++ decimal h.memory_pct ++ codes "%"))
    | inr q ↦ rw (p, q) (unchanged h s)
  ]
]

storage_rule-IsRuled :
    (cfg : AlertConfig) (s : State) (h : Host)
    → IsRuled h
        (level cfg.storage_critical_pct cfg.storage_warning_pct (host_storage_pct h))
        s
        (storage_rule cfg s h).0
        (storage_rule cfg s h).1
unfolding storage_rule
storage_rule-IsRuled cfg s h =
    elim (Bool-cases (leb_ℤ cfg.storage_critical_pct (pos (host_storage_pct h)))) [
      | inl p ↦ rw p (
          pushed_unnamed h Health.critical s (codes "storage critical")
            (codes "storage is " ++ decimal (host_storage_pct h) ++ codes "%"))
      | inr p ↦ elim (Bool-cases (leb_ℤ cfg.storage_warning_pct (pos (host_storage_pct h)))) [
        | inl q ↦
            rw (p, q)
              (pushed_unnamed h Health.warning s (codes "storage warning")
                (codes "storage is " ++ decimal (host_storage_pct h) ++ codes "%"))
        | inr q ↦ rw (p, q) (unchanged h s)
      ]
    ]

pub severity_rank-max_health :
    (a b : Health) → severity_rank (max_health a b) ≡ max (severity_rank a) (severity_rank b)
unfolding max_health
severity_rank-max_health a b = ground arith

IsAlertOf-worse :
    (h k : Host) (l worst : Health)
    → h.id ≡ k.id
    → h.source_id ≡ k.source_id
    → severity_rank l ≤ severity_rank worst
    → (xs : List Alert) → All (IsAlertOf h l) xs
    → All (IsAlertOf k worst) xs
IsAlertOf-worse h k l worst id source le [] about = tt
IsAlertOf-worse h k l worst id source le (x ∷ xs) (a, rest) = (
  record {
    host = a.host ∙ id;
    source = a.source ∙ source;
    severity = omega (arith, a.severity, le);
  },
  IsAlertOf-worse h k l worst id source le xs rest,
)

-- The new health is at least as bad as both levels.
levels-le :
    (a b c : Health)
    → (severity_rank b ≤ severity_rank (max_health (max_health a b) c))
      × (severity_rank c ≤ severity_rank (max_health (max_health a b) c))
levels-le a b c =
    let inner = severity_rank-max_health a b in
    let outer = severity_rank-max_health (max_health a b) c in
    (omega (arith, inner, outer), omega (arith, inner, outer))

-- The health and the alerts after the rules.
pub record IsRaised (cfg : AlertConfig) (h : Host) (s s' : State) (h' : Host) : Type 0 where
  pub health : h' ≡ record h {
    health =
        max_health
          (max_health h.health (level cfg.memory_critical_pct cfg.memory_warning_pct h.memory_pct))
          (level cfg.storage_critical_pct cfg.storage_warning_pct (host_storage_pct h));
  }
  pub new : List Alert
  pub alerts : elems s'.alerts ≡ elems s.alerts ++ new
  pub about : All (IsAlertOf h h'.health) new

online_rules :
    (cfg : AlertConfig) (s : State) (h : Host)
    → h.online ≡ true
    → apply_host_alerts cfg s h ≡ storage_rule cfg (memory_rule cfg s h).0 (memory_rule cfg s h).1
unfolding apply_host_alerts
online_rules cfg s h online = rw (online, apply_host_alerts) refl

-- Of a host that is online applyHostAlerts changes the health and nothing else: to the worst of what it
-- was, of the level of the memory and of the level of the storage. It appends alerts, all about the
-- host and none worse than its new health, and takes none away.
pub apply_host_alerts-IsRaised :
    (cfg : AlertConfig) (s : State) (h : Host)
    → h.online ≡ true
    → IsRaised cfg h s (apply_host_alerts cfg s h).0 (apply_host_alerts cfg s h).1
unfolding host_storage_pct
apply_host_alerts-IsRaised cfg s h online =
    subst (λ r. IsRaised cfg h s r.0 r.1) (sym (online_rules cfg s h online)) ruled
  where
    m : State × Host
    m = memory_rule cfg s h

    lm : Health
    lm = level cfg.memory_critical_pct cfg.memory_warning_pct h.memory_pct

    memory : IsRuled h lm s m.0 m.1
    memory = memory_rule-IsRuled cfg s h

    ls : Health
    ls = level cfg.storage_critical_pct cfg.storage_warning_pct (host_storage_pct h)

    r : State × Host
    r = storage_rule cfg m.0 (raise_host lm h)

    storage : IsRuled (raise_host lm h) ls m.0 r.0 r.1
    storage = storage_rule-IsRuled cfg m.0 (raise_host lm h)

    worst : Health
    worst = max_health (max_health h.health lm) ls

    fore : IsRaised cfg h s r.0 r.1
    fore = record {
      health = storage.raised;
      new = memory.new ++ storage.new;
      alerts =
          storage.alerts
          ∙ ap (λ xs. xs ++ storage.new) memory.alerts
          ∙ append_assoc (elems s.alerts) memory.new storage.new;
      about = rw storage.raised (
          All-append (IsAlertOf h worst) memory.new storage.new
            (IsAlertOf-worse h h lm worst refl refl (levels-le h.health lm ls).0 memory.new
              memory.about)
            (IsAlertOf-worse (raise_host lm h) h ls worst refl refl (levels-le h.health lm ls).1
              storage.new storage.about));
    }

    ruled : IsRaised cfg h s (storage_rule cfg m.0 m.1).0 (storage_rule cfg m.0 m.1).1
    ruled = rw memory.raised fore
