-- ===== src/ConfigStore/Secrets.antt =====
-- The secrets and how they reach a configuration (apps/bridge/internal/configstore/store.go). A nil
-- map reads as an empty one, and the program makes one before it writes, so that the two are one.
use proxmox_desk_display.Base.{List, ◌∷◌, if◌then◌else◌, map, []}
use proxmox_desk_display.Base.Text.{Text, trim_space, text_eq, is_empty}
use proxmox_desk_display.Config.{ProxmoxHost, Config}
use proxmox_desk_display.Errors.{Result, ◌>>=◌, ok}

abbrev pub TokenMap : Type 0
TokenMap = List (Text × Text)

-- m[id], the empty string where it is missing
unfoldable pub token_for : Text → TokenMap → Text
token_for id [] = []
token_for id ((j, token) ∷ rest) = if text_eq j id then token else token_for id rest

-- delete(m, id)
unfoldable pub delete_token : Text → TokenMap → TokenMap
delete_token id [] = []
delete_token id ((j, token) ∷ rest) =
    let after = delete_token id rest in if text_eq j id then after else (j, token) ∷ after

-- m[id] = token
unfoldable pub set_token : Text → Text → TokenMap → TokenMap
unfolding delete_token
set_token id token tokens = (id, token) ∷ delete_token id tokens

pub record Secrets : Type 0 where
  pub admin_token : Text
  pub display_token : Text
  pub proxmox_tokens : TokenMap

-- The loop of ApplySecrets, on one source.
unfoldable pub apply_token : TokenMap → ProxmoxHost → ProxmoxHost
apply_token tokens h =
    let token = trim_space (token_for h.id tokens) in
    if is_empty token then h else record h { token_value = token }

unfoldable pub apply_secrets : Secrets → Config → Config
unfolding apply_token
apply_secrets secrets c = record c {
  server = record c.server {
    display_token_value = trim_space secrets.display_token;
    admin_token_value = trim_space secrets.admin_token;
  };
  proxmox = map (apply_token secrets.proxmox_tokens) c.proxmox;
}

-- EnsureTokens, with the outcomes of the two calls of randomToken.
pub ensure_tokens : Result Text → Result Text → Secrets → Result Secrets
ensure_tokens display_random admin_random secrets = ensure_display >>= λ s.
    if is_empty (trim_space s.admin_token)
    then (admin_random >>= λ token. ok (record s { admin_token = token }))
    else ok s
  where
    ensure_display : Result Secrets
    ensure_display =
        if is_empty (trim_space secrets.display_token)
        then (display_random >>= λ token. ok (record secrets { display_token = token }))
        else ok secrets
