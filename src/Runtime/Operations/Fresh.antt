-- ===== src/Runtime/Operations/Fresh.antt =====
-- The ids of the sources, and what the manager does to the list of sources
-- (apps/bridge/internal/runtime/manager.go).
use proxmox_desk_display.Config.{ProxmoxHost, Config, default_tls, apply_defaults}
use proxmox_desk_display.Config.Validation.{AreFresh}
use proxmox_desk_display.Config.Validation.Accepts.{ne_nil}
use proxmox_desk_display.Runtime.Manager.{put_source, remove_source, prepared}
use proxmox_desk_display.Runtime.Sources.{replace_source, put_source-replace_source}
use proxmox_desk_display.Base.{
  [], ◌∷◌, refl, inl, inr, ◌≡◌, List, keep_if, ◌≢◌, map, All, Bool-cases, true, false, sym, Bool,
  if◌then◌else◌, ◌&&◌,
}
use proxmox_desk_display.Errors.{
  ok, Error, err, ok-ne-err, source_id_or_name_required, input_base_url_required,
  input_token_required,
}
use proxmox_desk_display.Runtime.Source.{source_from_update, SourceUpdate, built_source}
use proxmox_desk_display.ConfigStore.Files.{blank_token, saved_config}
use proxmox_desk_display.ConfigStore.Secrets.{
  apply_token, apply_secrets, TokenMap, Secrets, token_for,
}
use proxmox_desk_display.Base.Text.{Text, text_eq, is_empty, trim_space}
use proxmox_desk_display.Runtime.Apply.{running_config}
use proxmox_desk_display.Base.Text.Laws.{text_eq_iff, text_eq_refl}

map-AreFresh :
    (f : ProxmoxHost → ProxmoxHost)
    → ((h : ProxmoxHost) → (f h).id ≡ h.id)
    → (seen : List Text) (hosts : List ProxmoxHost) → AreFresh seen hosts
    → AreFresh seen (map f hosts)
map-AreFresh f same seen [] fresh = tt
map-AreFresh f same seen (h ∷ rest) (ne, all, fresh) =
    rw (same h) (ne, all, map-AreFresh f same (h.id ∷ seen) rest fresh)

weaken-AreFresh :
    (more less : List Text)
    → ((x : Text) → All (λ s. x ≢ s) more → All (λ s. x ≢ s) less)
    → (hosts : List ProxmoxHost) → AreFresh more hosts
    → AreFresh less hosts
weaken-AreFresh more less sub [] fresh = tt
weaken-AreFresh more less sub (h ∷ rest) (ne, all, fresh) = (
  ne,
  sub h.id all,
  weaken-AreFresh (h.id ∷ more) (h.id ∷ less) (λ x xs. (xs.0, sub x xs.1)) rest fresh,
)

pub remove_source-AreFresh :
    (id : Text) (seen : List Text) (hosts : List ProxmoxHost)
    → AreFresh seen hosts
    → AreFresh seen (remove_source id hosts)
unfolding remove_source keep_if
remove_source-AreFresh id seen [] fresh = tt
remove_source-AreFresh id seen (h ∷ rest) (ne, all, fresh) = elim (Bool-cases (text_eq h.id id)) [
  | inl p ↦ rw p (
      remove_source-AreFresh id seen rest
        (weaken-AreFresh (h.id ∷ seen) seen (λ x xs. xs.1) rest fresh))
  | inr p ↦ rw p (ne, all, remove_source-AreFresh id (h.id ∷ seen) rest fresh)
]

different : {s t : Text} → s ≡ t → text_eq s t ≡ false → ⊥
different {s} {t} e p = cc (e, p, text_eq_refl s)

replace_source-AreFresh :
    (h : ProxmoxHost) (seen : List Text) (hosts : List ProxmoxHost)
    → h.id ≢ []
    → All (λ s. h.id ≢ s) seen
    → AreFresh seen hosts
    → AreFresh seen (replace_source h hosts)
unfolding replace_source
replace_source-AreFresh h seen [] ne all fresh = (ne, all, tt)
replace_source-AreFresh h seen (k ∷ rest) ne all (kne, kall, fresh) =
    elim (Bool-cases (text_eq k.id h.id)) [
      | inl p ↦ rw p (ne, all, rw (sym ((text_eq_iff k.id h.id).0 p)) fresh)
      | inr p ↦ rw p (
        kne,
        kall,
        replace_source-AreFresh h (k.id ∷ seen) rest ne ((λ e. different (sym e) p), all) fresh,
      )
    ]

pub put_source-AreFresh :
    (h : ProxmoxHost) (hosts : List ProxmoxHost)
    → h.id ≢ []
    → AreFresh [] hosts
    → AreFresh [] (put_source h hosts)
put_source-AreFresh h hosts ne fresh =
    rw (put_source-replace_source h hosts) (replace_source-AreFresh h [] hosts ne tt fresh)

guarded-ok :
    (a b d : Bool) (e1 e2 e3 : Error) (r h : ProxmoxHost)
    → (if a then err e1 else if b then err e2 else if d then err e3 else ok r) ≡ ok h
    → (r ≡ h) × (a ≡ false)
guarded-ok true b d e1 e2 e3 r h p = absurd (ok-ne-err h e1 (sym p))
guarded-ok false true d e1 e2 e3 r h p = absurd (ok-ne-err h e2 (sym p))
guarded-ok false false true e1 e2 e3 r h p = absurd (ok-ne-err h e3 (sym p))
guarded-ok false false false e1 e2 e3 r h p = (cc, refl)

-- A source that the admin's update makes is the built one, and it has an id.
pub source_from_update-built :
    (hosts : List ProxmoxHost) (tokens : TokenMap) (input : SourceUpdate) (h : ProxmoxHost)
    → source_from_update hosts tokens input ≡ ok h
    → (built_source hosts tokens input ≡ h)
      × (is_empty (built_source hosts tokens input).id ≡ false)
unfolding source_from_update
source_from_update-built hosts tokens input h p =
    let r = built_source hosts tokens input in
    guarded-ok (is_empty r.id) (is_empty r.base_url)
      (is_empty r.token_value && is_empty r.token_env) source_id_or_name_required
      input_base_url_required input_token_required r h p

pub source_from_update-id :
    (hosts : List ProxmoxHost) (tokens : TokenMap) (input : SourceUpdate) (h : ProxmoxHost)
    → source_from_update hosts tokens input ≡ ok h
    → h.id ≢ []
source_from_update-id hosts tokens input h p =
    let (same, filled) = source_from_update-built hosts tokens input h p in
    rw (sym same) ((ne_nil (built_source hosts tokens input).id).0 filled)

default_tls-id : (h : ProxmoxHost) → (default_tls h).id ≡ h.id
unfolding default_tls
default_tls-id h = refl

blank_token-id : (h : ProxmoxHost) → (blank_token h).id ≡ h.id
unfolding blank_token
blank_token-id h = refl

apply_token-id : (tokens : TokenMap) (h : ProxmoxHost) → (apply_token tokens h).id ≡ h.id
unfolding apply_token
apply_token-id tokens h = elim (Bool-cases (is_empty (trim_space (token_for h.id tokens)))) [
  | inl p ↦ rw p refl
  | inr p ↦ rw p refl
]

pub apply_secrets-AreFresh :
    (s : Secrets) (c : Config) → AreFresh [] c.proxmox → AreFresh [] (apply_secrets s c).proxmox
unfolding apply_secrets
apply_secrets-AreFresh s c fresh =
    map-AreFresh (apply_token s.proxmox_tokens) (apply_token-id s.proxmox_tokens) [] c.proxmox fresh

apply_defaults-AreFresh :
    (c : Config) → AreFresh [] c.proxmox → AreFresh [] (apply_defaults c).proxmox
unfolding apply_defaults
apply_defaults-AreFresh c fresh = map-AreFresh default_tls default_tls-id [] c.proxmox fresh

pub running_config-AreFresh :
    (c : Config) (s : Secrets) → AreFresh [] c.proxmox → AreFresh [] (running_config c s).proxmox
unfolding prepared saved_config
running_config-AreFresh c s fresh =
    let p = prepared c s in
    map-AreFresh blank_token blank_token-id [] (apply_defaults p).proxmox (
      apply_defaults-AreFresh p
        (apply_secrets-AreFresh s (apply_defaults c) (apply_defaults-AreFresh c fresh)))
