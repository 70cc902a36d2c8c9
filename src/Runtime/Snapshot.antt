-- ===== src/Runtime/Snapshot.antt =====
-- What the admin page shows of the manager (apps/bridge/internal/runtime/manager.go).
use proxmox_desk_display.Config.{
  admin_token, ProxmoxHost, Env, ServerConfig, AlertConfig, display_token,
}
use proxmox_desk_display.Base.Text.{Text, is_empty, trim_space}
use proxmox_desk_display.Base.{Bool, not, ◌||◌, List, map}
use proxmox_desk_display.Runtime.Manager.{Manager}

pub record SourceSnapshot : Type 0 where
  pub id : Text
  pub name : Text
  pub base_url : Text
  pub tls_mode : Text
  pub fingerprint : Text
  pub ca_file : Text
  pub token_set : Bool

pub record Snapshot : Type 0 where
  pub config_path : Text
  pub secrets_path : Text
  pub mock : Bool
  pub admin_configured : Bool
  pub display_token_set : Bool
  pub admin_token_set : Bool
  pub server : ServerConfig
  pub alerts : AlertConfig
  pub sources : List SourceSnapshot

unfoldable pub source_snapshot : ProxmoxHost → SourceSnapshot
source_snapshot h = record {
  id = h.id;
  name = h.name;
  base_url = h.base_url;
  tls_mode = h.tls.mode;
  fingerprint = h.tls.fingerprint;
  ca_file = h.tls.ca_file;
  token_set = not (is_empty h.token_value) || not (is_empty h.token_env);
}

unfoldable pub snapshot : Env → Manager → Snapshot
unfolding source_snapshot
snapshot getenv m = record {
  config_path = m.store.config_path;
  secrets_path = m.store.secrets_path;
  mock = m.mock;
  admin_configured = not (is_empty (admin_token getenv m.cfg.server));
  display_token_set = not (is_empty (display_token getenv m.cfg.server));
  admin_token_set =
      not (is_empty (trim_space m.secrets.admin_token))
      || not (is_empty (trim_space m.cfg.server.admin_token_value));
  server = m.cfg.server;
  alerts = m.cfg.alerts;
  sources = map source_snapshot m.cfg.proxmox;
}
