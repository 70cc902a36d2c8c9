-- ===== src/ConfigStore/Ids/Clean.antt =====
-- The shape of a sanitized id (apps/bridge/internal/configstore/store.go).
use proxmox_desk_display.Base.{
  [], ◌∷◌, true, false, suc, zero, refl, inl, inr, ◌≡◌, keep_if, ℕ, All, Bool, length, Bool-cases,
  ◌++◌, ◌≤◌, ◌<◌, map, ◌&&◌, arith, subst, ◌∙◌, ap,
}
use proxmox_desk_display.Base.Text.{Text, trim, to_lower, trim_space}
use proxmox_desk_display.ConfigStore.Ids.{
  replace_double_dash, collapse_dashes, sanitize_id, is_id_rune, has_double_dash, is_dash,
  dash_rune,
}
use proxmox_desk_display.Base.Text.Trim.{
  StartsOff, last_or, EndsOff, trim_part, trim-StartsOff, trim-EndsOff,
}

-- An id of letters, digits and single dashes, with no dash at either end.
pub record IsCleanId (id : Text) : Type 0 where
  pub runes : All (λ c. is_id_rune c ≡ true) id
  pub starts : StartsOff is_dash id
  pub ends : EndsOff is_dash id
  pub single : has_double_dash id ≡ false

keep_if-All : (p : ℕ → Bool) (s : Text) → All (λ c. p c ≡ true) (keep_if p s)
unfolding keep_if
keep_if-All p [] = tt
keep_if-All p (c ∷ s) = elim (Bool-cases (p c)) [
  | inl e ↦ rw e (e, keep_if-All p s)
  | inr e ↦ rw e (keep_if-All p s)
]

All-left : (P : ℕ → Type 0) (s t : Text) → All P (s ++ t) → All P s
All-left P [] t h = tt
All-left P (c ∷ s) t h = (h.0, All-left P s t h.1)

All-right : (P : ℕ → Type 0) (s t : Text) → All P (s ++ t) → All P t
All-right P [] t h = h
All-right P (c ∷ s) t h = All-right P s t h.1

All-trim : (P : ℕ → Type 0) (p : ℕ → Bool) (s : Text) → All P s → All P (trim p s)
All-trim P p s h =
    let (a, b, q) = trim_part p s in
    All-left P (trim p s) b (All-right P a (trim p s ++ b) (subst (All P) q h))

-- One round of the loop keeps what makes an id clean, and is shorter where there is a double dash.
replace-runes :
    (s : Text)
    → All (λ c. is_id_rune c ≡ true) s
    → All (λ c. is_id_rune c ≡ true) (replace_double_dash s)
unfolding replace_double_dash is_id_rune
replace-runes [] h = tt
replace-runes (c ∷ []) h = h
replace-runes (c ∷ d ∷ s) h = elim (Bool-cases (is_dash c && is_dash d)) [
  | inl e ↦ rw e (refl, replace-runes s h.1.1)
  | inr e ↦ rw e (h.0, replace-runes (d ∷ s) h.1)
]

replace-starts : (s : Text) → StartsOff is_dash s → StartsOff is_dash (replace_double_dash s)
unfolding replace_double_dash
replace-starts [] h = tt
replace-starts (c ∷ []) h = h
replace-starts (c ∷ d ∷ s) h = rw h h

last-replace : (c : ℕ) (s : Text) → last_or c (replace_double_dash s) ≡ last_or c s
unfolding replace_double_dash
last-replace c [] = refl
last-replace c (d ∷ []) = refl
last-replace c (d ∷ e ∷ s) = elim (Bool-cases (is_dash d && is_dash e)) [
  | inl h ↦ rw h (last-replace b'-' s ∙ ap (λ x. last_or x s) (ground arith))
  | inr h ↦ rw h (last-replace d (e ∷ s))
]

replace-ends :
    (s : Text) → StartsOff is_dash s → EndsOff is_dash s → EndsOff is_dash (replace_double_dash s)
unfolding replace_double_dash
replace-ends [] h k = tt
replace-ends (c ∷ []) h k = k
replace-ends (c ∷ d ∷ s) h k = rw h (rw (last-replace c (d ∷ s)) k)

length-replace-le : (s : Text) → length (replace_double_dash s) ≤ length s
unfolding replace_double_dash
length-replace-le [] = omega arith
length-replace-le (c ∷ []) = omega arith
length-replace-le (c ∷ d ∷ s) = ground (arith, length-replace-le s, length-replace-le (d ∷ s))

length-replace-lt :
    (s : Text) → has_double_dash s ≡ true → length (replace_double_dash s) < length s
unfolding replace_double_dash has_double_dash
length-replace-lt [] h = ground arith
length-replace-lt (c ∷ []) h = ground arith
length-replace-lt (c ∷ d ∷ s) h = ground (arith, length-replace-le s, length-replace-lt (d ∷ s))

-- The fuel is enough: the loop ends by its test.
pub collapse_dashes_total :
    (fuel : ℕ) (s : Text) → length s ≤ fuel → has_double_dash (collapse_dashes fuel s) ≡ false
unfolding collapse_dashes
collapse_dashes_total zero [] h = refl
collapse_dashes_total zero (c ∷ s) h = elim h [ ]
collapse_dashes_total (suc fuel) s h = elim (Bool-cases (has_double_dash s)) [
  | inl e ↦
      rw e
        (collapse_dashes_total fuel (replace_double_dash s) (omega (arith, length-replace-lt s e)))
  | inr e ↦ rw e e
]

collapse-keeps :
    (fuel : ℕ) (s : Text)
    → All (λ c. is_id_rune c ≡ true) s
    → StartsOff is_dash s
    → EndsOff is_dash s
    → All (λ c. is_id_rune c ≡ true) (collapse_dashes fuel s)
      × StartsOff is_dash (collapse_dashes fuel s)
      × EndsOff is_dash (collapse_dashes fuel s)
unfolding collapse_dashes
collapse-keeps zero s r h k = (r, h, k)
collapse-keeps (suc fuel) s r h k = elim (Bool-cases (has_double_dash s)) [
  | inl e ↦ rw e (
      collapse-keeps fuel (replace_double_dash s) (replace-runes s r) (replace-starts s h)
        (replace-ends s h k))
  | inr e ↦ rw e (r, h, k)
]

-- SanitizeID returns a clean id, or the empty string: lower-case letters, digits and dashes, no two
-- dashes in a row and none at the ends, whatever the input.
pub sanitize_id-IsCleanId : (value : Text) → IsCleanId (sanitize_id value)
unfolding sanitize_id
sanitize_id-IsCleanId value =
    let runes = keep_if is_id_rune (map dash_rune (to_lower (trim_space value))) in
    let t = trim is_dash runes in
    let (r, h, k) =
      collapse-keeps (length t) t
        (All-trim (λ c. is_id_rune c ≡ true) is_dash runes
          (keep_if-All is_id_rune (map dash_rune (to_lower (trim_space value)))))
        (trim-StartsOff is_dash runes) (trim-EndsOff is_dash runes) in
    record {
      runes = r;
      starts = h;
      ends = k;
      single = collapse_dashes_total (length t) t (omega arith);
    }
