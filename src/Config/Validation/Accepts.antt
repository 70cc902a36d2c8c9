-- ===== src/Config/Validation/Accepts.antt =====
-- Validate and the valid configurations (apps/bridge/internal/config/config.go).
use proxmox_desk_display.Config.Validation.{
  validate_tls, validate_host, validate_hosts, validate, IsValidTls, IsValidHost, AreFresh,
  IsValidConfig,
}
use proxmox_desk_display.Base.Text.{Text, is_empty, text_eq, codes}
use proxmox_desk_display.Config.{Env, TlsConfig, ProxmoxHost, Config, display_token}
use proxmox_desk_display.Base.{
  any, List, Bool, ◌≡◌, All, false, none, ◌↔◌, arith, [], ◌≢◌, ◌∷◌, refl,
}
use proxmox_desk_display.Base.Text.Laws.{text_eq_iff}

pub ne_nil : (s : Text) → (is_empty s ≡ false) ↔ (s ≢ [])
ne_nil [] = ground arith
ne_nil (c ∷ s) = ground arith

validate_tls_sound : (id : Text) (tls : TlsConfig) → validate_tls id tls ≡ none → IsValidTls tls
unfolding validate_tls
validate_tls_sound id tls h = ground (
  arith,
  text_eq_iff tls.mode (codes "fingerprint"),
  text_eq_iff tls.mode (codes "ca_file"),
  text_eq_iff tls.mode (codes "system"),
  text_eq_iff tls.mode (codes "insecure"),
  ne_nil tls.fingerprint,
  ne_nil tls.ca_file,
)

validate_tls_complete : (id : Text) (tls : TlsConfig) → IsValidTls tls → validate_tls id tls ≡ none
unfolding validate_tls
validate_tls_complete id tls h = ground (
  arith,
  text_eq_iff tls.mode (codes "fingerprint"),
  text_eq_iff tls.mode (codes "ca_file"),
  text_eq_iff tls.mode (codes "system"),
  text_eq_iff tls.mode (codes "insecure"),
  ne_nil tls.fingerprint,
  ne_nil tls.ca_file,
)

validate_host_sound :
    (getenv : Env) (h : ProxmoxHost) → validate_host getenv h ≡ none → IsValidHost getenv h
unfolding validate_host
validate_host_sound getenv h e =
    let tls = validate_tls_sound h.id h.tls in
    record {
      named = ground (arith, ne_nil h.name);
      located = ground (arith, ne_nil h.base_url);
      token = ground (arith, ne_nil h.token_value, ne_nil h.token_env, ne_nil (getenv h.token_env));
      tls = tls (ground arith);
    }

validate_host_complete :
    (getenv : Env) (h : ProxmoxHost) → IsValidHost getenv h → validate_host getenv h ≡ none
unfolding validate_host
validate_host_complete getenv h v = ground (
  arith,
  ne_nil h.name,
  ne_nil h.base_url,
  ne_nil h.token_value,
  ne_nil h.token_env,
  ne_nil (getenv h.token_env),
  validate_tls_complete h.id h.tls v.tls,
)

not_seen : (id : Text) (seen : List Text) → (any (text_eq id) seen ≡ false) ↔ All (λ s. id ≢ s) seen
unfolding any
not_seen id [] = ground arith
not_seen id (s ∷ seen) = ground (arith, text_eq_iff id s, not_seen id seen)

validate_hosts_sound :
    (getenv : Env) (seen : List Text) (hosts : List ProxmoxHost)
    → validate_hosts getenv seen hosts ≡ none
    → AreFresh seen hosts × All (IsValidHost getenv) hosts
unfolding validate_hosts
validate_hosts_sound getenv seen [] e = (tt, tt)
validate_hosts_sound getenv seen (h ∷ rest) e =
    let after = validate_hosts_sound getenv (h.id ∷ seen) rest (ground arith) in
    (
      (ground (arith, ne_nil h.id), (not_seen h.id seen).0 (ground arith), after.0),
      (validate_host_sound getenv h (ground arith), after.1),
    )

validate_hosts_complete :
    (getenv : Env) (seen : List Text) (hosts : List ProxmoxHost)
    → AreFresh seen hosts
    → All (IsValidHost getenv) hosts
    → validate_hosts getenv seen hosts ≡ none
unfolding validate_hosts
validate_hosts_complete getenv seen [] f v = refl
validate_hosts_complete getenv seen (h ∷ rest) f v = ground (
  arith,
  ne_nil h.id,
  (not_seen h.id seen).1 f.1,
  validate_host_complete getenv h v.0,
  validate_hosts_complete getenv (h.id ∷ seen) rest f.2 v.1,
)

validate_sound :
    (getenv : Env) (mock : Bool) (c : Config)
    → validate getenv mock c ≡ none
    → IsValidConfig getenv mock c
unfolding validate
validate_sound getenv mock c e =
    let loop = validate_hosts_sound getenv [] c.proxmox (ground arith) in
    record {
      port_low = ground arith;
      port_high = ground arith;
      token = ground (arith, ne_nil (display_token getenv c.server));
      sources = ground arith;
      ids = loop.0;
      hosts = loop.1;
    }

validate_complete :
    (getenv : Env) (mock : Bool) (c : Config)
    → IsValidConfig getenv mock c
    → validate getenv mock c ≡ none
unfolding validate
validate_complete getenv mock c v = ground (
  arith,
  ne_nil (display_token getenv c.server),
  validate_hosts_complete getenv [] c.proxmox v.ids v.hosts,
)

-- Validate returns no error exactly for the valid configurations: the port is in 1..65535, outside
-- mock mode there are a display token and a source, and the sources have distinct ids that are not
-- empty, names, URLs, tokens and one of the four TLS modes with what the mode needs.
pub validate_iff :
    (getenv : Env) (mock : Bool) (c : Config)
    → (validate getenv mock c ≡ none) ↔ IsValidConfig getenv mock c
validate_iff getenv mock c = (validate_sound getenv mock c, validate_complete getenv mock c)
