-- ===== src/Runtime/Source.antt =====
-- A source as the admin page sends it, and the source that it makes
-- (apps/bridge/internal/runtime/manager.go).
use mathlib.Core.Option
use proxmox_desk_display.Base.{
  [], ◌∷◌, some, none, suc, List, Option, if◌then◌else◌, get_elem?, ℕ, ◌&&◌, not, ◌==◌,
}
use proxmox_desk_display.Errors.{
  ok, err, Result, source_id_or_name_required, input_base_url_required, input_token_required,
}
use proxmox_desk_display.Base.Text.{Text, trim_space, is_empty, codes, text_eq, trim_right}
use proxmox_desk_display.Base.Int.{ℤ, ltb_ℤ}
use proxmox_desk_display.Config.{ProxmoxHost, TlsConfig}
use proxmox_desk_display.ConfigStore.Ids.{sanitize_id}
use proxmox_desk_display.ConfigStore.Secrets.{TokenMap, token_for}

pub record SourceUpdate : Type 0 where
  pub id : Text
  pub name : Text
  pub base_url : Text
  pub token : Text
  pub tls_mode : Text
  pub fingerprint : Text
  pub ca_file : Text

-- The index of the first source with the id, none for -1.
unfoldable pub source_index : List ProxmoxHost → Text → Option ℕ
source_index [] id = none
source_index (h ∷ rest) id =
    let after = source_index rest id in if text_eq h.id id then some 0 else Option.map suc after

-- firstNonEmpty of two strings, which does not trim them
abbrev pub first_non_empty : Text → Text → Text
first_non_empty a b = if is_empty a then b else a

unfoldable pub clamp : ℤ → ℤ → ℤ → ℤ
clamp value low high = if ltb_ℤ value low then low else if ltb_ℤ high value then high else value

-- ProxmoxHost{}
abbrev pub zero_host : ProxmoxHost
zero_host = record {
  id = [];
  name = [];
  base_url = [];
  token_env = [];
  token_value = [];
  tls = record { mode = []; fingerprint = []; ca_file = [] };
}

-- `var existing config.ProxmoxHost; if idx >= 0 { existing = cfg.Proxmox[idx] }`
unfoldable pub existing_host : List ProxmoxHost → Text → ProxmoxHost
unfolding source_index
existing_host hosts id = elim (source_index hosts id) [
  | none ↦ zero_host
  | some i ↦ elim (get_elem? hosts i) [ none ↦ zero_host | some h ↦ h ]
]

-- SanitizeID of the id, or else of the name
unfoldable pub update_id : SourceUpdate → Text
update_id input =
    let id = sanitize_id input.id in if is_empty id then sanitize_id input.name else id

-- The TLS settings of the source: an update that names a mode drops what it leaves blank.
unfoldable pub update_tls : TlsConfig → SourceUpdate → TlsConfig
update_tls existing input =
    let mode = trim_space input.tls_mode in
    let fingerprint = trim_space input.fingerprint in
    let ca_file = trim_space input.ca_file in
    record {
      mode = first_non_empty mode (first_non_empty existing.mode (codes "fingerprint"));
      fingerprint =
          if is_empty fingerprint && not (is_empty input.tls_mode)
          then []
          else first_non_empty fingerprint existing.fingerprint;
      ca_file =
          if is_empty ca_file && not (is_empty input.tls_mode)
          then []
          else first_non_empty ca_file existing.ca_file;
    }

-- The source that sourceFromUpdate returns once its three checks have passed.
unfoldable pub built_source : List ProxmoxHost → TokenMap → SourceUpdate → ProxmoxHost
unfolding update_id existing_host update_tls
built_source hosts tokens input =
    let id = update_id input in
    let existing = existing_host hosts id in
    let token_value = first_non_empty (trim_space input.token) (trim_space (token_for id tokens)) in
    record {
      id = id;
      name = first_non_empty (trim_space input.name) (first_non_empty existing.name id);
      base_url =
          first_non_empty (trim_right (λ c. c == b'/') (trim_space input.base_url))
            existing.base_url;
      token_env = if is_empty token_value then existing.token_env else [];
      token_value = token_value;
      tls = update_tls existing.tls input;
    }

-- sourceFromUpdate; every caller requires a token
unfoldable pub source_from_update : List ProxmoxHost → TokenMap → SourceUpdate → Result ProxmoxHost
unfolding built_source
source_from_update hosts tokens input =
    let h = built_source hosts tokens input in
    if is_empty h.id
    then err source_id_or_name_required
    else if is_empty h.base_url
    then err input_base_url_required
    else if is_empty h.token_value && is_empty h.token_env
    then err input_token_required
    else ok h
