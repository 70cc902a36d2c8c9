-- ===== src/Config/Defaults.antt =====
-- The defaults of a configuration (apps/bridge/internal/config/config.go).
use proxmox_desk_display.Base.{ℕ, ◌≡◌, refl, List, [], ◌∷◌, map, arith}
use proxmox_desk_display.Config.{Config, ProxmoxHost, or_text, or_int, default_tls, apply_defaults}
use proxmox_desk_display.Base.Text.{Text, codes}
use proxmox_desk_display.Base.Int.{ℤ}

map-default_tls_idem :
    (hosts : List ProxmoxHost) → map default_tls (map default_tls hosts) ≡ map default_tls hosts
unfolding default_tls
map-default_tls_idem [] = refl
map-default_tls_idem (h ∷ rest) = ground (arith, map-default_tls_idem rest)

pub or_text_idem : (s d : Text) → or_text (or_text s d) d ≡ or_text s d
or_text_idem [] d = ground arith
or_text_idem (c ∷ s) d = refl

or_int_idem : (n : ℤ) (d : ℕ) → or_int (or_int n d) d ≡ or_int n d
or_int_idem n d = ground arith

-- The defaults fill in what is missing: a second application changes nothing.
pub apply_defaults_idem : (c : Config) → apply_defaults (apply_defaults c) ≡ apply_defaults c
unfolding apply_defaults
apply_defaults_idem c = λ i. record c {
  server = record c.server {
    bind = or_text_idem c.server.bind (codes "0.0.0.0") i;
    port = or_int_idem c.server.port 8765 i;
    display_token_env = or_text_idem c.server.display_token_env (codes "DISPLAY_TOKEN") i;
    admin_token_env = or_text_idem c.server.admin_token_env (codes "ADMIN_TOKEN") i;
    poll_interval_seconds = or_int_idem c.server.poll_interval_seconds 10 i;
    stale_after_seconds = or_int_idem c.server.stale_after_seconds 45 i;
  };
  alerts = record {
    memory_warning_pct = or_int_idem c.alerts.memory_warning_pct 85 i;
    memory_critical_pct = or_int_idem c.alerts.memory_critical_pct 95 i;
    storage_warning_pct = or_int_idem c.alerts.storage_warning_pct 80 i;
    storage_critical_pct = or_int_idem c.alerts.storage_critical_pct 90 i;
  };
  proxmox = map-default_tls_idem c.proxmox i;
}
