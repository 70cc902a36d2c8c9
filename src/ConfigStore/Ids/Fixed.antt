-- ===== src/ConfigStore/Ids/Fixed.antt =====
-- SanitizeID on ids that are clean already (apps/bridge/internal/configstore/store.go).
use proxmox_desk_display.Base.{
  [], ◌∷◌, true, false, suc, zero, refl, ◌≡◌, ℕ, keep_if, All, arith, map, ap, length,
}
use proxmox_desk_display.ConfigStore.Ids.{
  is_id_rune, collapse_dashes, sanitize_id, dash_rune, has_double_dash, is_dash,
}
use proxmox_desk_display.Base.Text.{Text, is_space, lower_rune, to_lower, trim_space}
use proxmox_desk_display.ConfigStore.Ids.Clean.{IsCleanId}
use proxmox_desk_display.Base.Text.Trim.{StartsOff, last_or, EndsOff, trim-eq_self}
use mathlib.Core.Path.{ap₂}

IdRune : ℕ → Type 0
IdRune c = is_id_rune c ≡ true

rune-not_space : (c : ℕ) → IdRune c → is_space c ≡ false
unfolding IdRune is_id_rune is_space
rune-not_space c h = ground arith

rune-lower : (c : ℕ) → IdRune c → lower_rune c ≡ c
unfolding IdRune is_id_rune lower_rune
rune-lower c h = ground arith

rune-dash : (c : ℕ) → IdRune c → dash_rune c ≡ c
unfolding IdRune is_id_rune dash_rune
rune-dash c h = ground arith

starts-not_space : (s : Text) → All IdRune s → StartsOff is_space s
starts-not_space [] h = tt
starts-not_space (c ∷ s) h = rune-not_space c h.0

last-IdRune : (c : ℕ) (s : Text) → IdRune c → All IdRune s → IdRune (last_or c s)
last-IdRune c [] h k = h
last-IdRune c (d ∷ s) h k = last-IdRune d s k.0 k.1

ends-not_space : (s : Text) → All IdRune s → EndsOff is_space s
ends-not_space [] h = tt
ends-not_space (c ∷ s) h = rune-not_space (last_or c s) (last-IdRune c s h.0 h.1)

map-fixed : (f : ℕ → ℕ) (s : Text) → All (λ c. f c ≡ c) s → map f s ≡ s
map-fixed f [] h = refl
map-fixed f (c ∷ s) h = ap₂ ◌∷◌ h.0 (map-fixed f s h.1)

All-map : (P Q : ℕ → Type 0) (s : Text) → ((c : ℕ) → P c → Q c) → All P s → All Q s
All-map P Q [] f h = tt
All-map P Q (c ∷ s) f h = (f c h.0, All-map P Q s f h.1)

keep_if-fixed : (s : Text) → All IdRune s → keep_if is_id_rune s ≡ s
unfolding keep_if IdRune
keep_if-fixed [] h = refl
keep_if-fixed (c ∷ s) h = rw h.0 (ap (◌∷◌ c) (keep_if-fixed s h.1))

collapse-fixed : (fuel : ℕ) (s : Text) → has_double_dash s ≡ false → collapse_dashes fuel s ≡ s
unfolding collapse_dashes
collapse-fixed zero s h = refl
collapse-fixed (suc fuel) s h = rw h

-- A clean id is its own sanitized form.
pub sanitize_id-eq_self : (id : Text) → IsCleanId id → sanitize_id id ≡ id
unfolding sanitize_id to_lower trim_space IdRune
sanitize_id-eq_self id v =
    rw
      (
        trim-eq_self is_space id (starts-not_space id v.runes) (ends-not_space id v.runes),
        map-fixed lower_rune id (All-map IdRune _ id rune-lower v.runes),
        map-fixed dash_rune id (All-map IdRune _ id rune-dash v.runes),
        keep_if-fixed id v.runes,
        trim-eq_self is_dash id v.starts v.ends,
      )
      (collapse-fixed (length id) id v.single)
