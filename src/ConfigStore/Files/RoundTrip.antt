-- ===== src/ConfigStore/Files/RoundTrip.antt =====
-- Load after Save (apps/bridge/internal/configstore/store.go).
use proxmox_desk_display.ConfigStore.Files.{
  blank_token, saved_config, save, load, load_config, load_secrets, Yaml, Faults, Store, DiskFiles,
}
use proxmox_desk_display.ConfigStore.Secrets.{
  Secrets, TokenMap, apply_token, apply_secrets, token_for,
}
use proxmox_desk_display.ConfigStore.Files.Secrecy.{IsTokenFree, save-reads}
use proxmox_desk_display.Config.{Config, ProxmoxHost, default_tls, apply_defaults}
use proxmox_desk_display.Config.Defaults.{apply_defaults_idem}
use proxmox_desk_display.Base.{
  [], ◌∷◌, refl, inl, inr, ◌≡◌, Bool-cases, List, All, map, none, sym, ◌≢◌, some, ◌∙◌, ap,
}
use proxmox_desk_display.Base.Text.{is_empty, trim_space, Text}
use proxmox_desk_display.Errors.{ok}

-- Clearing the token of a source drops what the secrets gave it.
blank-apply_token :
    (tokens : TokenMap) (h : ProxmoxHost)
    → h.token_value ≡ []
    → blank_token (default_tls (apply_token tokens h)) ≡ default_tls h
unfolding blank_token default_tls apply_token
blank-apply_token tokens h e = elim (Bool-cases (is_empty (trim_space (token_for h.id tokens)))) [
  | inl p ↦ rw (p, e) refl
  | inr p ↦ rw (p, e) refl
]

blank-apply_tokens :
    (tokens : TokenMap) (hosts : List ProxmoxHost)
    → All (λ h. h.token_value ≡ []) hosts
    → map blank_token (map default_tls (map (apply_token tokens) hosts)) ≡ map default_tls hosts
blank-apply_tokens tokens [] e = refl
blank-apply_tokens tokens (h ∷ rest) (e, es) =
    λ i. blank-apply_token tokens h e i ∷ blank-apply_tokens tokens rest es i

-- What Save writes of a configuration with its secrets is the configuration without them.
pub saved_config-apply_secrets :
    (secrets : Secrets) (c : Config)
    → IsTokenFree c
    → saved_config (apply_secrets secrets c) ≡ apply_defaults c
unfolding saved_config apply_secrets apply_defaults
saved_config-apply_secrets secrets c free = λ i. record (apply_defaults c) {
  server = record (apply_defaults c).server {
    display_token_value = sym free.display i;
    admin_token_value = sym free.admin i;
  };
  proxmox = blank-apply_tokens secrets.proxmox_tokens c.proxmox free.sources i;
}

-- A Load of two files that can be read and decoded.
load-reads :
    (yaml : Yaml) (os : Faults) (store : Store) (disk : DiskFiles) (b t : Text) (c : Config)
    (secrets : Secrets)
    → disk store.config_path ≡ some b
    → disk store.secrets_path ≡ some t
    → os.read store.config_path ≡ none
    → os.read store.secrets_path ≡ none
    → yaml.decode_config b ≡ ok c
    → yaml.decode_secrets t ≡ ok secrets
    → load yaml os store disk ≡ ok (apply_secrets secrets (apply_defaults c), secrets)
unfolding load
load-reads yaml os store disk b t c secrets dc ds rc rs yc ys =
    rw (dc, ds, rc, rs, yc, ys, load, load_config, load_secrets) refl

-- A successful Save of a configuration with its secrets, and then a Load, give that configuration
-- with its defaults and secrets: for a configuration that holds no token of its own, where the two
-- paths differ, both files can be read, and the YAML library decodes what it encoded of the two.
pub load-save :
    (yaml : Yaml) (os : Faults) (store : Store) (c : Config) (secrets : Secrets) (disk : DiskFiles)
    → IsTokenFree c
    → store.config_path ≢ store.secrets_path
    → os.read store.config_path ≡ none
    → os.read store.secrets_path ≡ none
    → ((b : Text)
        → yaml.encode_config (apply_defaults c) ≡ ok b
        → yaml.decode_config b ≡ ok (apply_defaults c))
    → ((t : Text) → yaml.encode_secrets secrets ≡ ok t → yaml.decode_secrets t ≡ ok secrets)
    → (save yaml os store (apply_secrets secrets c) secrets disk).result ≡ ok tt
    → load yaml os store (save yaml os store (apply_secrets secrets c) secrets disk).disk
      ≡ ok (apply_secrets secrets (apply_defaults c), secrets)
load-save yaml os store c secrets disk free ne rc rs yc ys h =
    let (b, t, ec, es, dc, ds) =
      save-reads yaml os store (apply_secrets secrets c) secrets disk ne h in
    let ec' : yaml.encode_config (apply_defaults c) ≡ ok b =
      rw (sym (saved_config-apply_secrets secrets c free)) ec in
    load-reads yaml os store (save yaml os store (apply_secrets secrets c) secrets disk).disk b t
      (apply_defaults c) secrets dc ds rc rs (yc b ec') (ys t es)
    ∙ ap (λ d. ok (apply_secrets secrets d, secrets)) (apply_defaults_idem c)
