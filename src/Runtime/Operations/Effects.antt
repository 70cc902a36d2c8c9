-- ===== src/Runtime/Operations/Effects.antt =====
-- What an operation of the admin does to the sources and the tokens, once it returns no error
-- (apps/bridge/internal/runtime/manager.go).
use mathlib.Core.Option
use proxmox_desk_display.Runtime.Apply.{kept, changed, apply-Change}
use proxmox_desk_display.Runtime.Sources.{
  host_for, remove_source-host_for, put_source-host_for, delete_token-token_for,
  remove_source-host_for_other, delete_token-token_for_other, set_token-token_for,
  set_token-token_for_other, put_source-host_for_other,
}
use proxmox_desk_display.Runtime.Operations.Running.{running_host, running_config-host_for}
use proxmox_desk_display.ConfigStore.Secrets.{
  TokenMap, token_for, Secrets, apply_secrets, delete_token,
}
use proxmox_desk_display.ConfigStore.Ids.{sanitize_id}
use proxmox_desk_display.Runtime.Source.{
  source_from_update, built_source, update_id, SourceUpdate, first_non_empty,
}
use proxmox_desk_display.Base.{
  some, none, true, false, refl, ◌≡◌, none-ne-some, sym, Bool, ◌∙◌, ap, Option, if◌then◌else◌, not,
  any, [], inl, inr, ◌≢◌, Bool-cases, List,
}
use proxmox_desk_display.Runtime.Manager.{
  World, delete_source, Bridge, apply, remove_source, put_token, upsert_source, put_source,
}
use proxmox_desk_display.Config.{Config, ProxmoxHost}
use proxmox_desk_display.Base.Text.{Text, is_empty, text_eq, trim_space}
use proxmox_desk_display.Errors.{Error, source_id_required, source_not_found, Result-cases}
use proxmox_desk_display.Runtime.Operations.Fresh.{source_from_update-built}

-- What `apply` leaves when it returns no error.
apply-changes :
    (w : World) (c : Config) (s : Secrets) (b : Bridge)
    → (apply w (apply_secrets s c) s b).0 ≡ none
    → ((id : Text)
        → host_for id (apply w (apply_secrets s c) s b).1.manager.cfg.proxmox
          ≡ Option.map running_host (host_for id c.proxmox))
      × ((apply w (apply_secrets s c) s b).1.manager.secrets ≡ s)
apply-changes w c s b h = elim (apply-Change w (apply_secrets s c) s b) [
  | kept e p q ↦ absurd (none-ne-some e (sym h ∙ p))
  | changed p q r ↦ (λ id. ap (λ x. host_for id x.proxmox) p ∙ running_config-host_for s c id, q)
]

-- What DeleteSource hands to `apply`.
delete_source-apply :
    (w : World) (raw : Text) (b : Bridge)
    → (delete_source w raw b).0 ≡ none
    → let id = sanitize_id raw in
      let s : Secrets = record b.manager.secrets {
        proxmox_tokens = delete_token id b.manager.secrets.proxmox_tokens;
      } in
      delete_source w raw b
      ≡ apply w
          (apply_secrets s
            (record b.manager.cfg { proxmox = remove_source id b.manager.cfg.proxmox }))
          s
          b
unfolding delete_source
delete_source-apply w raw b h =
    let id = sanitize_id raw in
    guarded-none (is_empty id) (not (any (λ h. text_eq h.id id) b.manager.cfg.proxmox))
      source_id_required (source_not_found id) b _ h
  where
    guarded-none :
        (a d : Bool) (e f : Error) (b : Bridge) (r : Option Error × Bridge)
        → (if a then (some e, b) else if d then (some f, b) else r).0 ≡ none
        → (if a then (some e, b) else if d then (some f, b) else r) ≡ r
    guarded-none true d e f b r p = absurd (none-ne-some e (sym p))
    guarded-none false true e f b r p = absurd (none-ne-some f (sym p))
    guarded-none false false e f b r p = refl

-- A DeleteSource that returns no error leaves no source and no token under the sanitized id, and
-- under every other id the source and the token that were there; of a source only a blank TLS mode is
-- filled in and the token of the list is cleared.
pub delete_source-removes :
    (w : World) (raw : Text) (b : Bridge) (other : Text)
    → (delete_source w raw b).0 ≡ none
    → other ≢ sanitize_id raw
    → (host_for (sanitize_id raw) (delete_source w raw b).1.manager.cfg.proxmox ≡ none)
      × (token_for (sanitize_id raw) (delete_source w raw b).1.manager.secrets.proxmox_tokens ≡ [])
      × (host_for other (delete_source w raw b).1.manager.cfg.proxmox
          ≡ Option.map running_host (host_for other b.manager.cfg.proxmox))
      × (token_for other (delete_source w raw b).1.manager.secrets.proxmox_tokens
          ≡ token_for other b.manager.secrets.proxmox_tokens)
delete_source-removes w raw b other h ne =
    let id = sanitize_id raw in
    let m = b.manager in
    let s : Secrets = record m.secrets {
      proxmox_tokens = delete_token id m.secrets.proxmox_tokens;
    } in
    let c : Config = record m.cfg { proxmox = remove_source id m.cfg.proxmox } in
    let same = delete_source-apply w raw b h in
    let (hosts, secrets) = apply-changes w c s b (ap (λ r. r.0) (sym same) ∙ h) in
    rw same (
      hosts id ∙ ap (Option.map running_host) (remove_source-host_for id m.cfg.proxmox),
      ap (λ t. token_for id t.proxmox_tokens) secrets
          ∙ delete_token-token_for id m.secrets.proxmox_tokens,
      hosts other
          ∙ ap (Option.map running_host) (remove_source-host_for_other id m.cfg.proxmox other ne),
      ap (λ t. token_for other t.proxmox_tokens) secrets
          ∙ delete_token-token_for_other id other m.secrets.proxmox_tokens ne,
    )

-- The tokens after an update with a token, or with a blank one.
put_token-token_for :
    (id token : Text) (s : Secrets)
    → token_for id (put_token id token s).proxmox_tokens
      ≡ first_non_empty (trim_space token) (token_for id s.proxmox_tokens)
unfolding put_token
put_token-token_for id token s = elim (Bool-cases (is_empty (trim_space token))) [
  | inl p ↦ rw p refl
  | inr p ↦ rw p (set_token-token_for id (trim_space token) s.proxmox_tokens)
]

put_token-token_for_other :
    (id token : Text) (s : Secrets) (other : Text)
    → other ≢ id
    → token_for other (put_token id token s).proxmox_tokens ≡ token_for other s.proxmox_tokens
unfolding put_token
put_token-token_for_other id token s other ne = elim (Bool-cases (is_empty (trim_space token))) [
  | inl p ↦ rw p refl
  | inr p ↦ rw p (set_token-token_for_other id (trim_space token) other s.proxmox_tokens ne)
]

-- What UpsertSource hands to `apply`.
upsert_source-apply :
    (w : World) (input : SourceUpdate) (b : Bridge)
    → (upsert_source w input b).0 ≡ none
    → let h = built_source b.manager.cfg.proxmox b.manager.secrets.proxmox_tokens input in
      let s = put_token h.id input.token b.manager.secrets in
      upsert_source w input b
      ≡ apply w
          (apply_secrets s (record b.manager.cfg { proxmox = put_source h b.manager.cfg.proxmox }))
          s
          b
unfolding upsert_source
upsert_source-apply w input b h = elim (Result-cases (source_from_update hosts tokens input)) [
  | inl (e, p) ↦ absurd (none-ne-some e (sym h ∙ rw (p, upsert_source) refl))
  | inr (k, p) ↦
      rw (sym (sym (source_from_update-built hosts tokens input k p).0))
        (rw (p, upsert_source) refl)
]
  where
    hosts : List ProxmoxHost
    hosts = b.manager.cfg.proxmox

    tokens : TokenMap
    tokens = b.manager.secrets.proxmox_tokens

-- An UpsertSource that returns no error leaves the source that the update makes under its id, with
-- the token of the update, or the one that was there if the update's is blank; under every other id
-- the source and the token are those that were there; of a source only a blank TLS mode is filled in
-- and the token of the list is cleared.
pub upsert_source-puts :
    (w : World) (input : SourceUpdate) (b : Bridge) (other : Text)
    → (upsert_source w input b).0 ≡ none
    → other ≢ update_id input
    → (host_for (update_id input) (upsert_source w input b).1.manager.cfg.proxmox
        ≡ some (
            running_host
              (built_source b.manager.cfg.proxmox b.manager.secrets.proxmox_tokens input)))
      × (token_for (update_id input) (upsert_source w input b).1.manager.secrets.proxmox_tokens
          ≡ first_non_empty
              (trim_space input.token)
              (token_for (update_id input) b.manager.secrets.proxmox_tokens))
      × (host_for other (upsert_source w input b).1.manager.cfg.proxmox
          ≡ Option.map running_host (host_for other b.manager.cfg.proxmox))
      × (token_for other (upsert_source w input b).1.manager.secrets.proxmox_tokens
          ≡ token_for other b.manager.secrets.proxmox_tokens)
unfolding built_source
upsert_source-puts w input b other no_error ne =
    let m = b.manager in
    let h = built_source m.cfg.proxmox m.secrets.proxmox_tokens input in
    let s = put_token (update_id input) input.token m.secrets in
    let c : Config = record m.cfg { proxmox = put_source h m.cfg.proxmox } in
    let same = upsert_source-apply w input b no_error in
    let (hosts, secrets) = apply-changes w c s b (ap (λ r. r.0) (sym same) ∙ no_error) in
    rw same (
      hosts (update_id input) ∙ ap (Option.map running_host) (put_source-host_for h m.cfg.proxmox),
      ap (λ t. token_for (update_id input) t.proxmox_tokens) secrets
          ∙ put_token-token_for (update_id input) input.token m.secrets,
      hosts other
          ∙ ap (Option.map running_host) (put_source-host_for_other h m.cfg.proxmox other ne),
      ap (λ t. token_for other t.proxmox_tokens) secrets
          ∙ put_token-token_for_other (update_id input) input.token m.secrets other ne,
    )
