-- ===== src/Config/Validation.antt =====
-- Config.Validate (apps/bridge/internal/config/config.go), and what it accepts.
pub mod Accepts
use proxmox_desk_display.Base.{
  Bool, true, false, not, ◌&&◌, ◌||◌, Option, none, some, List, [], ◌∷◌, any, if◌then◌else◌, ◌≡◌,
  ◌≢◌, ◌⊎◌, All, ◌↔◌, arith,
}
use proxmox_desk_display.Base.Int.{pos, ltb_ℤ, ◌≤ℤ◌}
use proxmox_desk_display.Base.Text.{Text, codes, text_eq, is_empty}
use proxmox_desk_display.Errors.{
  Error, port_out_of_range, no_proxmox_entry, id_required, display_token_empty, duplicate_id,
  name_required, base_url_required, token_required, token_env_empty, unsupported_mode,
  fingerprint_required, ca_file_required,
}
use proxmox_desk_display.Config.{Config, ProxmoxHost, TlsConfig, Env, display_token}
use proxmox_desk_display.Base.Text.Laws.{text_eq_iff}

-- The switch on the TLS mode of a source.
unfoldable pub validate_tls : Text → TlsConfig → Option Error
validate_tls id tls =
    if text_eq tls.mode (codes "fingerprint")
    then (if is_empty tls.fingerprint then some (fingerprint_required id) else none)
    else if text_eq tls.mode (codes "ca_file")
    then (if is_empty tls.ca_file then some (ca_file_required id) else none)
    else if text_eq tls.mode (codes "system") || text_eq tls.mode (codes "insecure")
    then none
    else some (unsupported_mode id tls.mode)

-- The body of the loop from the test on the name on.
unfoldable pub validate_host : Env → ProxmoxHost → Option Error
unfolding validate_tls
validate_host getenv pve =
    if is_empty pve.name
    then some (name_required pve.id)
    else if is_empty pve.base_url
    then some (base_url_required pve.id)
    else if is_empty pve.token_value && is_empty pve.token_env
    then some (token_required pve.id)
    else if is_empty pve.token_value && is_empty (getenv pve.token_env)
    then some (token_env_empty pve.id pve.token_env)
    else validate_tls pve.id pve.tls

-- The loop over the sources, with the ids of the map `seen`.
unfoldable pub validate_hosts : Env → List Text → List ProxmoxHost → Option Error
validate_hosts getenv seen [] = none
validate_hosts getenv seen (pve ∷ rest) =
    let after = validate_hosts getenv (pve.id ∷ seen) rest in
    if is_empty pve.id
    then some id_required
    else if any (text_eq pve.id) seen
    then some (duplicate_id pve.id)
    else elim (validate_host getenv pve) [ some e ↦ some e | none ↦ after ]

-- `len(c.Proxmox) == 0`
abbrev pub no_sources : List ProxmoxHost → Bool
no_sources [] = true
no_sources (h ∷ rest) = false

unfoldable pub validate : Env → Bool → Config → Option Error
validate getenv mock c =
    if ltb_ℤ c.server.port (pos 1) || ltb_ℤ (pos 65535) c.server.port
    then some port_out_of_range
    else if is_empty (display_token getenv c.server) && not mock
    then some (display_token_empty c.server.display_token_env)
    else if not mock && no_sources c.proxmox
    then some no_proxmox_entry
    else validate_hosts getenv [] c.proxmox

-- What Validate asks of the TLS settings.
abbrev pub IsValidTls : TlsConfig → Type 0
IsValidTls tls =
    ((tls.mode ≡ codes "fingerprint") × (tls.fingerprint ≢ []))
    ⊎ ((tls.mode ≡ codes "ca_file") × (tls.ca_file ≢ []))
    ⊎ (tls.mode ≡ codes "system")
    ⊎ (tls.mode ≡ codes "insecure")

-- What Validate asks of one source: a token, or a variable that holds one, and TLS settings.
pub record IsValidHost (getenv : Env) (h : ProxmoxHost) : Type 0 where
  pub named : h.name ≢ []
  pub located : h.base_url ≢ []
  pub token : (h.token_value ≢ []) ⊎ ((h.token_env ≢ []) × (getenv h.token_env ≢ []))
  pub tls : IsValidTls h.tls

-- The ids are there, are distinct, and are none of `seen`.
abbrev pub AreFresh : List Text → List ProxmoxHost → Type 0
AreFresh seen [] = Unit
AreFresh seen (h ∷ rest) = (h.id ≢ []) × All (λ s. h.id ≢ s) seen × AreFresh (h.id ∷ seen) rest

pub record IsValidConfig (getenv : Env) (mock : Bool) (c : Config) : Type 0 where
  pub port_low : pos 1 ≤ℤ c.server.port
  pub port_high : c.server.port ≤ℤ pos 65535
  pub token : (mock ≡ true) ⊎ (display_token getenv c.server ≢ [])
  pub sources : (mock ≡ true) ⊎ (c.proxmox ≢ [])
  pub ids : AreFresh [] c.proxmox
  pub hosts : All (IsValidHost getenv) c.proxmox
