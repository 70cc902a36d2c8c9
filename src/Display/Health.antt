-- ===== src/Display/Health.antt =====
-- The health levels (apps/bridge/internal/display/state.go) and how the collector ranks and joins
-- them (apps/bridge/internal/proxmox/provider.go).
use proxmox_desk_display.Base.{ℕ, Bool, true, false, ltb, if◌then◌else◌}

-- `unset` is the zero value of the string type, the empty string.
pub data Health : Type 0 where
  unset ok warning critical unknown : Health

-- `a == b`
abbrev pub health_eq : Health → Health → Bool
health_eq unset unset = true
health_eq ok ok = true
health_eq warning warning = true
health_eq critical critical = true
health_eq unknown unknown = true
health_eq _ _ = false

unfoldable pub severity_rank : Health → ℕ
severity_rank critical = 3
severity_rank warning = 2
severity_rank ok = 1
severity_rank _ = 0

unfoldable pub max_health : Health → Health → Health
unfolding severity_rank
max_health a b = if ltb (severity_rank a) (severity_rank b) then b else a
