-- ===== src/ConfigStore/Ids.antt =====
-- SanitizeID and SortedProxmoxIDs (apps/bridge/internal/configstore/store.go).
pub mod Clean
pub mod Fixed
use proxmox_desk_display.Base.{
  ℕ, if◌then◌else◌, Bool, keep_if, List, ◌∷◌, ◌==◌, leb, false, ◌&&◌, map, ◌||◌, length, [], suc,
  zero,
}
use proxmox_desk_display.Base.Text.{Text, to_lower, text_lt, trim_space, trim}
use proxmox_desk_display.Config.{Config}
use proxmox_desk_display.Base.Order.{sort_stable}

-- ' ', '_', '.', '/' and '\' become '-'.
unfoldable pub dash_rune : ℕ → ℕ
dash_rune c = if c == b' ' || c == b'_' || c == b'.' || c == b'/' || c == 0x5C then b'-' else c

unfoldable pub is_id_rune : ℕ → Bool
is_id_rune c = (leb b'a' c && leb c b'z') || (leb b'0' c && leb c b'9') || c == b'-'

abbrev pub is_dash : ℕ → Bool
is_dash c = c == b'-'

-- strings.Contains(value, "--")
unfoldable pub has_double_dash : Text → Bool
has_double_dash [] = false
has_double_dash (c ∷ []) = false
has_double_dash (c ∷ d ∷ s) = (is_dash c && is_dash d) || has_double_dash (d ∷ s)

-- strings.ReplaceAll(value, "--", "-"): from left to right, without overlaps
unfoldable pub replace_double_dash : Text → Text
replace_double_dash [] = []
replace_double_dash (c ∷ []) = c ∷ []
replace_double_dash (c ∷ d ∷ s) =
    let joined = b'-' ∷ replace_double_dash s in
    let kept = c ∷ replace_double_dash (d ∷ s) in if is_dash c && is_dash d then joined else kept

-- The loop at the end, on fuel. Each round is shorter, so the length is enough.
unfoldable pub collapse_dashes : ℕ → Text → Text
unfolding has_double_dash replace_double_dash
collapse_dashes zero value = value
collapse_dashes (suc fuel) value =
    let rest = collapse_dashes fuel (replace_double_dash value) in
    if has_double_dash value then rest else value

unfoldable pub sanitize_id : Text → Text
unfolding dash_rune is_id_rune
sanitize_id value =
    let runes = keep_if is_id_rune (map dash_rune (to_lower (trim_space value))) in
    let trimmed = trim is_dash runes in collapse_dashes (length trimmed) trimmed

pub sorted_proxmox_ids : Config → List Text
sorted_proxmox_ids c = sort_stable text_lt (map (λ h. h.id) c.proxmox)
