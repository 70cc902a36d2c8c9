-- ===== src/ConfigStore/Files/Secrecy.antt =====
-- The tokens and the configuration file (apps/bridge/internal/configstore/store.go).
use proxmox_desk_display.Base.{[], ◌∷◌, some, refl, ◌≡◌, All, List, map, ◌≢◌, sym, ◌∙◌, ap}
use proxmox_desk_display.Errors.{ok, ok-ne-err}
use proxmox_desk_display.Config.{Config, apply_defaults, ProxmoxHost}
use proxmox_desk_display.ConfigStore.Files.{
  blank_token, saved_config, save, Yaml, Faults, Store, DiskFiles,
}
use proxmox_desk_display.ConfigStore.Secrets.{Secrets}
use proxmox_desk_display.Base.Text.{Text}
use proxmox_desk_display.ConfigStore.Files.Atomicity.{
  save_files-Outcome, unchanged, config_only, both,
}

-- The configuration holds no token: neither the bridge's nor a source's.
pub record IsTokenFree (c : Config) : Type 0 where
  pub display : c.server.display_token_value ≡ []
  pub admin : c.server.admin_token_value ≡ []
  pub sources : All (λ h. h.token_value ≡ []) c.proxmox

blank-All : (hosts : List ProxmoxHost) → All (λ h. h.token_value ≡ []) (map blank_token hosts)
unfolding blank_token
blank-All [] = tt
blank-All (h ∷ rest) = (refl, blank-All rest)

pub saved_config-IsTokenFree : (c : Config) → IsTokenFree (saved_config c)
unfolding saved_config
saved_config-IsTokenFree c = record {
  display = refl;
  admin = refl;
  sources = blank-All (apply_defaults c).proxmox;
}

-- What a successful Save leaves in the two files, if their paths differ.
pub save-reads :
    (yaml : Yaml) (os : Faults) (store : Store) (c : Config) (secrets : Secrets) (disk : DiskFiles)
    → store.config_path ≢ store.secrets_path
    → (save yaml os store c secrets disk).result ≡ ok tt
    → (b : Text) × (t : Text) × (yaml.encode_config (saved_config c) ≡ ok b)
      × (yaml.encode_secrets secrets ≡ ok t)
      × ((save yaml os store c secrets disk).disk store.config_path ≡ some b)
      × ((save yaml os store c secrets disk).disk store.secrets_path ≡ some t)
unfolding save
save-reads yaml os store c secrets disk ne h =
    elim (save_files-Outcome yaml os store (saved_config c) secrets disk) [
      | unchanged e d u p ↦ absurd (ok-ne-err _ e (sym h ∙ ap (λ r. r.0) p))
      | config_only e b d q o k l m p ↦ absurd (ok-ne-err _ e (sym h ∙ ap (λ r. r.0) p))
      | both b t d q r mine config others p ↦ (b, t, q, r, rw p (config ne), rw p mine)
    ]

-- After a successful Save the configuration file holds an encoding of a configuration that holds no
-- token, and the secrets file an encoding of the secrets, if the two paths differ.
pub save-IsTokenFree :
    (yaml : Yaml) (os : Faults) (store : Store) (c : Config) (secrets : Secrets) (disk : DiskFiles)
    → store.config_path ≢ store.secrets_path
    → (save yaml os store c secrets disk).result ≡ ok tt
    → (d : Config) × (b : Text) × (t : Text) × IsTokenFree d
      × (yaml.encode_config d ≡ ok b)
      × (yaml.encode_secrets secrets ≡ ok t)
      × ((save yaml os store c secrets disk).disk store.config_path ≡ some b)
      × ((save yaml os store c secrets disk).disk store.secrets_path ≡ some t)
save-IsTokenFree yaml os store c secrets disk ne h =
    let (b, t, q, r, u, v) = save-reads yaml os store c secrets disk ne h in
    (saved_config c, b, t, saved_config-IsTokenFree c, q, r, u, v)
