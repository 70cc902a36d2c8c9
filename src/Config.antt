-- ===== src/Config.antt =====
-- The configuration, its defaults and its tokens (apps/bridge/internal/config/config.go). The
-- environment is a function: a variable that is not set reads as the empty string.
pub mod Defaults
pub mod Validation
pub mod Tokens
pub mod Tests
use proxmox_desk_display.Base.{ℕ, ◌^◌, Bool, List, [], ◌∷◌, ◌++◌, map, if◌then◌else◌}
use proxmox_desk_display.Base.Int.{ℤ, pos, eqb_ℤ, mul64}
use proxmox_desk_display.Base.Text.{Text, codes, is_empty, trim_space, has_prefix}

abbrev pub Env : Type 0
Env = Text → Text

pub record TlsConfig : Type 0 where
  pub mode : Text
  pub fingerprint : Text
  pub ca_file : Text

pub record ProxmoxHost : Type 0 where
  pub id : Text
  pub name : Text
  pub base_url : Text
  pub token_env : Text
  pub token_value : Text
  pub tls : TlsConfig

pub record ServerConfig : Type 0 where
  pub bind : Text
  pub port : ℤ
  pub display_token_env : Text
  pub display_token_value : Text
  pub admin_token_env : Text
  pub admin_token_value : Text
  pub poll_interval_seconds : ℤ
  pub stale_after_seconds : ℤ

pub record AlertConfig : Type 0 where
  pub memory_warning_pct : ℤ
  pub memory_critical_pct : ℤ
  pub storage_warning_pct : ℤ
  pub storage_critical_pct : ℤ

pub record PinnedGuest : Type 0 where
  pub source : Text
  pub id : Text
  pub label : Text
  pub expected : Text

pub record GuestConfig : Type 0 where
  pub pinned : List PinnedGuest

pub record Config : Type 0 where
  pub server : ServerConfig
  pub proxmox : List ProxmoxHost
  pub alerts : AlertConfig
  pub guests : GuestConfig

-- `if s == "" { s = d }`
abbrev pub or_text : Text → Text → Text
or_text s d = if is_empty s then d else s

-- `if n == 0 { n = d }`
abbrev pub or_int : ℤ → ℕ → ℤ
or_int n d = if eqb_ℤ n (pos 0) then pos d else n

-- The loop of applyDefaults, on one element.
unfoldable pub default_tls : ProxmoxHost → ProxmoxHost
default_tls h = record h { tls = record h.tls { mode = or_text h.tls.mode (codes "fingerprint") } }

unfoldable pub apply_defaults : Config → Config
unfolding default_tls
apply_defaults c = record c {
  server = record c.server {
    bind = or_text c.server.bind (codes "0.0.0.0");
    port = or_int c.server.port 8765;
    display_token_env = or_text c.server.display_token_env (codes "DISPLAY_TOKEN");
    admin_token_env = or_text c.server.admin_token_env (codes "ADMIN_TOKEN");
    poll_interval_seconds = or_int c.server.poll_interval_seconds 10;
    stale_after_seconds = or_int c.server.stale_after_seconds 45;
  };
  alerts = record {
    memory_warning_pct = or_int c.alerts.memory_warning_pct 85;
    memory_critical_pct = or_int c.alerts.memory_critical_pct 95;
    storage_warning_pct = or_int c.alerts.storage_warning_pct 80;
    storage_critical_pct = or_int c.alerts.storage_critical_pct 90;
  };
  proxmox = map default_tls c.proxmox;
}

-- Config{}
abbrev pub zero_config : Config
zero_config = record {
  server = record {
    bind = [];
    port = pos 0;
    display_token_env = [];
    display_token_value = [];
    admin_token_env = [];
    admin_token_value = [];
    poll_interval_seconds = pos 0;
    stale_after_seconds = pos 0;
  };
  proxmox = [];
  alerts = record {
    memory_warning_pct = pos 0;
    memory_critical_pct = pos 0;
    storage_warning_pct = pos 0;
    storage_critical_pct = pos 0;
  };
  guests = record { pinned = [] };
}

unfoldable pub new_default : Config
unfolding apply_defaults
new_default = apply_defaults zero_config

unfoldable pub mock_config : Config
mock_config = record zero_config {
  server = record {
    bind = codes "0.0.0.0";
    port = pos 8765;
    display_token_env = codes "DISPLAY_TOKEN";
    display_token_value = [];
    admin_token_env = codes "ADMIN_TOKEN";
    admin_token_value = [];
    poll_interval_seconds = pos 10;
    stale_after_seconds = pos 45;
  };
  alerts = record {
    memory_warning_pct = pos 85;
    memory_critical_pct = pos 95;
    storage_warning_pct = pos 80;
    storage_critical_pct = pos 90;
  };
}

unfoldable pub display_token : Env → ServerConfig → Text
display_token getenv s =
    if is_empty s.display_token_value then getenv s.display_token_env else s.display_token_value

unfoldable pub admin_token : Env → ServerConfig → Text
unfolding display_token
admin_token getenv s =
    if is_empty s.admin_token_value
    then (let token = getenv s.admin_token_env in
        if is_empty token then display_token getenv s else token)
    else s.admin_token_value

-- A time.Duration is a number of nanoseconds, an int64.
abbrev pub nanoseconds : ℕ
nanoseconds = 1_000_000_000

unfoldable pub poll_interval : ServerConfig → ℤ
poll_interval s = mul64 s.poll_interval_seconds nanoseconds

unfoldable pub stale_after : ServerConfig → ℤ
stale_after s = mul64 s.stale_after_seconds nanoseconds

unfoldable pub normalize_token : Text → Text
normalize_token token =
    let trimmed = trim_space token in
    if has_prefix trimmed (codes "PVEAPIToken=") then trimmed else codes "PVEAPIToken=" ++ trimmed
