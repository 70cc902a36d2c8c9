-- ===== src/Config/Tests.antt =====
-- Runs of package config on concrete configurations.
use proxmox_desk_display.Base.Int.{mul64}
use proxmox_desk_display.Config.{display_token}
use proxmox_desk_display.Config.Validation.{validate_hosts}
use proxmox_desk_display.Config.Validation.{validate_host}
use proxmox_desk_display.Base.Text.{text_eq}
use proxmox_desk_display.Base.{any}
use proxmox_desk_display.Base.Text.{has_prefix}
use proxmox_desk_display.Base.Text.{trim_space}
use proxmox_desk_display.Config.{
  Env, Config, ProxmoxHost, zero_config, normalize_token, poll_interval,
}
use proxmox_desk_display.Base.Text.{codes}
use proxmox_desk_display.Base.Int.{pos, negsuc}
use proxmox_desk_display.Base.{[], ◌∷◌, some, none, false, refl, ◌≡◌, ◌↔◌, ◌^◌, ◌-◌}
use proxmox_desk_display.Config.Validation.{validate, IsValidConfig}
use proxmox_desk_display.Errors.{duplicate_id}
use proxmox_desk_display.Config.Validation.Accepts.{validate_iff}

abbrev pub no_env : Env
no_env name = []

abbrev pub home : ProxmoxHost
home = record {
  id = codes "home";
  name = codes "Home";
  base_url = codes "https://pve:8006";
  token_env = [];
  token_value = codes "root@pam!desk=1";
  tls = record { mode = codes "insecure"; fingerprint = []; ca_file = [] };
}

abbrev pub one_source : Config
one_source = record zero_config {
  server = record zero_config.server {
    port = pos 8765;
    display_token_value = codes "secret";
    poll_interval_seconds = pos 10;
    stale_after_seconds = pos 45;
  };
  proxmox = home ∷ [];
}

one_source-valid : validate no_env false one_source ≡ none
unfolding validate display_token validate_hosts any validate_host text_eq
one_source-valid = refl

twice-invalid :
    validate no_env false (record one_source { proxmox = home ∷ home ∷ [] })
    ≡ some (duplicate_id (codes "home"))
unfolding validate display_token validate_hosts any validate_host text_eq
twice-invalid = refl

validate_iff_example :
    (validate no_env false one_source ≡ none) ↔ IsValidConfig no_env false one_source
validate_iff_example = validate_iff no_env false one_source

normalized : normalize_token (codes " root@pam!desk=1 ") ≡ codes "PVEAPIToken=root@pam!desk=1"
unfolding normalize_token has_prefix trim_space
normalized = refl

-- One second more than the bound is a negative interval.
overflow :
    poll_interval (record one_source.server { poll_interval_seconds = pos 9_223_372_037 })
    ≡ negsuc (2 ^ 64 - 1 - 9_223_372_037_000_000_000)
unfolding poll_interval mul64
overflow = refl
