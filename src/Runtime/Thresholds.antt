-- ===== src/Runtime/Thresholds.antt =====
-- The thresholds that UpdateServer sets (apps/bridge/internal/runtime/manager.go).
use proxmox_desk_display.Base.Int.{ℤ, pos, ◌≤ℤ◌, ≤ℤ_trans}
use proxmox_desk_display.Runtime.Source.{clamp}
use proxmox_desk_display.Config.{Config, or_int, apply_defaults, AlertConfig}
use proxmox_desk_display.Base.{◌≡◌, arith, ℕ}
use proxmox_desk_display.Runtime.Manager.{prepared, updated_config, ServerUpdate}
use proxmox_desk_display.ConfigStore.Secrets.{apply_secrets, Secrets}
use proxmox_desk_display.Runtime.Apply.{running_config}

-- The polling and the alert thresholds are in range and in order.
pub record AreSafe (poll stale : ℤ) (alerts : AlertConfig) : Type 0 where
  pub poll_low : pos 5 ≤ℤ poll
  pub stale_low : poll ≤ℤ stale
  pub memory_low : pos 1 ≤ℤ alerts.memory_warning_pct
  pub memory_order : alerts.memory_warning_pct ≤ℤ alerts.memory_critical_pct
  pub memory_high : alerts.memory_critical_pct ≤ℤ pos 100
  pub storage_low : pos 1 ≤ℤ alerts.storage_warning_pct
  pub storage_order : alerts.storage_warning_pct ≤ℤ alerts.storage_critical_pct
  pub storage_high : alerts.storage_critical_pct ≤ℤ pos 100

abbrev pub HasSafeSettings : Config → Type 0
HasSafeSettings c = AreSafe c.server.poll_interval_seconds c.server.stale_after_seconds c.alerts

-- A clamped value is in its range, and a value in the range is not changed.
pub clamp-bounds :
    (v low high : ℤ) → low ≤ℤ high → (low ≤ℤ clamp v low high) × (clamp v low high ≤ℤ high)
unfolding clamp
clamp-bounds v low high h = (ground arith, ground arith)

pub clamp-eq_self : (v low high : ℤ) → low ≤ℤ v → v ≤ℤ high → clamp v low high ≡ v
unfolding clamp
clamp-eq_self v low high l h = ground arith

or_int-eq_self : (n : ℤ) (d : ℕ) → pos 1 ≤ℤ n → or_int n d ≡ n
or_int-eq_self n d h = ground arith

-- A default replaces no setting that is in range.
apply_defaults-alerts : (c : Config) → HasSafeSettings c → (apply_defaults c).alerts ≡ c.alerts
unfolding apply_defaults
apply_defaults-alerts c safe =
    let memory_high =
      ≤ℤ_trans (pos 1) c.alerts.memory_warning_pct c.alerts.memory_critical_pct safe.memory_low
        safe.memory_order in
    let storage_high =
      ≤ℤ_trans (pos 1) c.alerts.storage_warning_pct c.alerts.storage_critical_pct safe.storage_low
        safe.storage_order in
    λ i. record {
      memory_warning_pct = or_int-eq_self c.alerts.memory_warning_pct 85 safe.memory_low i;
      memory_critical_pct = or_int-eq_self c.alerts.memory_critical_pct 95 memory_high i;
      storage_warning_pct = or_int-eq_self c.alerts.storage_warning_pct 80 safe.storage_low i;
      storage_critical_pct = or_int-eq_self c.alerts.storage_critical_pct 90 storage_high i;
    }

apply_defaults-poll :
    (c : Config)
    → HasSafeSettings c
    → (apply_defaults c).server.poll_interval_seconds ≡ c.server.poll_interval_seconds
unfolding apply_defaults
apply_defaults-poll c safe =
    or_int-eq_self c.server.poll_interval_seconds 10
      (≤ℤ_trans (pos 1) (pos 5) _ (omega arith) safe.poll_low)

apply_defaults-stale :
    (c : Config)
    → HasSafeSettings c
    → (apply_defaults c).server.stale_after_seconds ≡ c.server.stale_after_seconds
unfolding apply_defaults
apply_defaults-stale c safe = or_int-eq_self c.server.stale_after_seconds 45 (
    ≤ℤ_trans (pos 1) (pos 5) _ (omega arith)
      (≤ℤ_trans (pos 5) c.server.poll_interval_seconds _ safe.poll_low safe.stale_low))

pub apply_defaults-HasSafeSettings :
    (c : Config) → HasSafeSettings c → HasSafeSettings (apply_defaults c)
apply_defaults-HasSafeSettings c safe =
    rw (apply_defaults-poll c safe, apply_defaults-stale c safe, apply_defaults-alerts c safe) safe

-- The configuration that `apply` installs has the settings that it was given, where they are safe.
pub running_config-HasSafeSettings :
    (c : Config) (s : Secrets) → HasSafeSettings c → HasSafeSettings (running_config c s)
unfolding prepared apply_secrets
running_config-HasSafeSettings c s safe = apply_defaults-HasSafeSettings c safe

-- The settings of an update that passes the two guards.
pub updated_config-HasSafeSettings :
    (input : ServerUpdate) (c : Config)
    → pos 5 ≤ℤ input.poll_interval_seconds
    → input.poll_interval_seconds ≤ℤ input.stale_after_seconds
    → HasSafeSettings (updated_config input c)
unfolding updated_config
updated_config-HasSafeSettings input c p q =
    let (ml, mh) = clamp-bounds input.memory_warning_pct (pos 1) (pos 100) (omega arith) in
    let (sl, sh) = clamp-bounds input.storage_warning_pct (pos 1) (pos 100) (omega arith) in
    let (mo, mt) = clamp-bounds input.memory_critical_pct _ (pos 100) mh in
    let (so, st) = clamp-bounds input.storage_critical_pct _ (pos 100) sh in
    record {
      poll_low = p;
      stale_low = q;
      memory_low = ml;
      memory_order = mo;
      memory_high = mt;
      storage_low = sl;
      storage_order = so;
      storage_high = st;
    }
