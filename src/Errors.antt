-- ===== src/Errors.antt =====
-- The errors of the bridge, one constructor for each message, with what the message shows
-- (apps/bridge/internal/config/config.go, runtime/manager.go, proxmox/client.go, configstore/store.go
-- and store/cache.go).
use proxmox_desk_display.Base.Text.{Text}
use proxmox_desk_display.Base.{refl, inl, inr, ◌≡◌, ◌⊎◌}

pub data Error : Type 0 where
  port_out_of_range no_proxmox_entry id_required : Error
  display_token_empty duplicate_id name_required base_url_required token_required : Text → Error
  token_env_empty unsupported_mode : Text → Text → Error
  fingerprint_required ca_file_required : Text → Error
  poll_too_short stale_before_poll source_id_required source_id_or_name_required : Error
  input_base_url_required input_token_required : Error
  source_not_found : Text → Error
  fingerprint_length fingerprint_not_hex : Error
  ca_not_parsed unsupported_tls_mode : Text → Error
  create_client : Text → Error → Error
  no_state_yet empty_path : Error
  https_required no_certificate : Error
  -- an error of the operating system, of the network or of a library, by its message
  external : Text → Error

pub data Result {ℓ} (A : Type ℓ) : Type ℓ where
  ok : A → Result A
  err : Error → Result A

infixl 5 ◌>>=◌
abbrev pub ◌>>=◌ {ℓ κ} : {A : Type ℓ} {B : Type κ} → Result A → (A → Result B) → Result B
ok a >>= f = f a
err e >>= f = err e

pub Result-cases {ℓ} :
    {A : Type ℓ} (r : Result A) → ((e : Error) × (r ≡ err e)) ⊎ ((a : A) × (r ≡ ok a))
Result-cases (err e) = inl (e, refl)
Result-cases (ok a) = inr (a, refl)

pub ok-ne-err {ℓ} : {A : Type ℓ} (a : A) (e : Error) → ok a ≡ err e → ⊥
ok-ne-err a e h = cc
