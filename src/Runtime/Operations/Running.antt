-- ===== src/Runtime/Operations/Running.antt =====
-- The sources of a configuration that `apply` has installed (apps/bridge/internal/runtime/manager.go).
use mathlib.Core.Option
use proxmox_desk_display.Config.{ProxmoxHost, Config, default_tls, or_text, apply_defaults}
use proxmox_desk_display.ConfigStore.Secrets.{
  TokenMap, token_for, apply_token, Secrets, apply_secrets,
}
use proxmox_desk_display.ConfigStore.Files.{blank_token, saved_config}
use proxmox_desk_display.Runtime.Sources.{host_for}
use proxmox_desk_display.Base.{
  [], ◌∷◌, refl, inl, inr, ◌≡◌, Bool-cases, ap, ◌∙◌, List, map, true, false,
}
use proxmox_desk_display.Config.Defaults.{or_text_idem}
use proxmox_desk_display.Base.Text.{Text, is_empty, codes, trim_space, text_eq}
use proxmox_desk_display.Runtime.Manager.{prepared}
use proxmox_desk_display.Runtime.Apply.{running_config}

-- What becomes of a source when it is installed: a mode of TLS is filled in, and its token is cleared,
-- since Save clears the tokens in the array that it shares with the manager.
abbrev pub running_host : ProxmoxHost → ProxmoxHost
running_host h = record (default_tls h) { token_value = [] }

-- What is done to one source: the secrets of the operation, then those and the defaults of `apply`,
-- and then Save.
abbrev installed_host : TokenMap → ProxmoxHost → ProxmoxHost
installed_host tokens h =
    blank_token (default_tls (apply_token tokens (default_tls (apply_token tokens h))))

blank-apply_token :
    (tokens : TokenMap) (h : ProxmoxHost)
    → blank_token (default_tls (apply_token tokens h)) ≡ blank_token (default_tls h)
unfolding blank_token default_tls apply_token
blank-apply_token tokens h = elim (Bool-cases (is_empty (trim_space (token_for h.id tokens)))) [
  | inl p ↦ rw p refl
  | inr p ↦ rw p refl
]

blank-default_tls :
    (h k : ProxmoxHost)
    → blank_token (default_tls h) ≡ blank_token (default_tls k)
    → blank_token (default_tls (default_tls h)) ≡ blank_token (default_tls (default_tls k))
unfolding blank_token default_tls
blank-default_tls h k e =
    ap {A = ProxmoxHost} {B = ProxmoxHost}
      (λ x. record x { tls = record x.tls { mode = or_text x.tls.mode (codes "fingerprint") } }) e

default_tls_idem : (h : ProxmoxHost) → default_tls (default_tls h) ≡ default_tls h
unfolding default_tls
default_tls_idem h =
    λ i. record h { tls = record h.tls { mode = or_text_idem h.tls.mode (codes "fingerprint") i } }

installed_host-running_host :
    (tokens : TokenMap) (h : ProxmoxHost) → installed_host tokens h ≡ running_host h
unfolding blank_token
installed_host-running_host tokens h =
    blank-apply_token tokens (default_tls (apply_token tokens h))
    ∙ blank-default_tls (apply_token tokens h) h (blank-apply_token tokens h)
    ∙ ap blank_token (default_tls_idem h)

map-host_for :
    (f : ProxmoxHost → ProxmoxHost)
    → ((h : ProxmoxHost) → (f h).id ≡ h.id)
    → (id : Text) (hosts : List ProxmoxHost)
    → host_for id (map f hosts) ≡ Option.map f (host_for id hosts)
unfolding host_for
map-host_for f same id [] = refl
map-host_for f same id (h ∷ rest) = elim (Bool-cases (text_eq h.id id)) [
  | inl p ↦ (let q : text_eq (f h).id id ≡ true = rw (same h) p in rw (q, p) refl)
  | inr p ↦
      (let q : text_eq (f h).id id ≡ false = rw (same h) p in
        rw (q, p) (map-host_for f same id rest))
]

running_hosts :
    (tokens : TokenMap) (hosts : List ProxmoxHost)
    → map blank_token (
        map default_tls
          (map (apply_token tokens) (map default_tls (map (apply_token tokens) hosts))))
      ≡ map running_host hosts
running_hosts tokens [] = refl
running_hosts tokens (h ∷ rest) =
    λ i. installed_host-running_host tokens h i ∷ running_hosts tokens rest i

running_host-id : (h : ProxmoxHost) → (running_host h).id ≡ h.id
unfolding default_tls
running_host-id h = refl

-- The sources of an installed configuration, found by their ids.
pub running_config-host_for :
    (s : Secrets) (c : Config) (id : Text)
    → host_for id (running_config (apply_secrets s c) s).proxmox
      ≡ Option.map running_host (host_for id c.proxmox)
unfolding prepared saved_config apply_secrets apply_defaults
running_config-host_for s c id =
    ap (host_for id) (running_hosts s.proxmox_tokens c.proxmox)
    ∙ map-host_for running_host running_host-id id c.proxmox
