-- ===== src/Config/Tokens.antt =====
-- The API tokens and the intervals (apps/bridge/internal/config/config.go).
use proxmox_desk_display.Base.Text.{Text, trim_space, codes, has_prefix, is_space}
use proxmox_desk_display.Base.Text.Trim.{EndsOff, trim-EndsOff, trim-eq_self, trim_idem, last_or}
use proxmox_desk_display.Config.{
  normalize_token, poll_interval, stale_after, ServerConfig, nanoseconds,
}
use proxmox_desk_display.Base.Int.{pos, mul64}
use proxmox_desk_display.Base.{
  [], ◌∷◌, true, refl, inl, inr, ◌≡◌, ℕ, ◌++◌, Bool-cases, Bool, arith, ◌≤◌, subst, ◌*◌, sym,
}
use mathlib.Core.List.{append-nil}
use proxmox_desk_display.Base.Text.Laws.{has_prefix-append}

-- The last rune of a string with a prefix is that of the string, or of the prefix.
last_or-append : (c d : ℕ) (p s : Text) → last_or c (p ++ d ∷ s) ≡ last_or d s
last_or-append c d [] s = refl
last_or-append c d (e ∷ p) s = last_or-append e d p s

EndsOff-append :
    (test : ℕ → Bool) (c : ℕ) (p s : Text)
    → EndsOff test (c ∷ p)
    → EndsOff test s
    → EndsOff test ((c ∷ p) ++ s)
EndsOff-append test c p [] h k = subst (λ t. EndsOff test (c ∷ t)) (sym (append-nil p)) h
EndsOff-append test c p (d ∷ s) h k = rw (last_or-append c d p s) k

-- The prefix neither begins nor ends with white space.
trim-prefixed :
    (s : Text)
    → trim_space (codes "PVEAPIToken=" ++ trim_space s) ≡ codes "PVEAPIToken=" ++ trim_space s
unfolding trim_space is_space
trim-prefixed s = trim-eq_self is_space (codes "PVEAPIToken=" ++ trim_space s) refl (
    EndsOff-append is_space b'P' (codes "VEAPIToken=") (trim_space s) refl
      (trim-EndsOff is_space s))

-- A token as the collector sends it.
pub record IsToken (token : Text) : Type 0 where
  pub prefixed : has_prefix token (codes "PVEAPIToken=") ≡ true
  pub trimmed : trim_space token ≡ token

trim_space_idem : (s : Text) → trim_space (trim_space s) ≡ trim_space s
unfolding trim_space
trim_space_idem s = trim_idem is_space s

normalize_token-IsToken : (token : Text) → IsToken (normalize_token token)
unfolding normalize_token
normalize_token-IsToken token =
    elim (Bool-cases (has_prefix (trim_space token) (codes "PVEAPIToken="))) [
      | inl p ↦ rw p (record { prefixed = p; trimmed = trim_space_idem token })
      | inr p ↦ rw p (record {
        prefixed = has_prefix-append (codes "PVEAPIToken=") (trim_space token);
        trimmed = trim-prefixed token;
      })
    ]

normalize_token-eq_self : (token : Text) → IsToken token → normalize_token token ≡ token
unfolding normalize_token
normalize_token-eq_self token h = rw (h.trimmed, h.prefixed) refl

-- NormalizeToken gives a token that has the prefix and no white space at its ends, and changes no
-- such token, so that a second call changes nothing.
pub normalize_token_lem :
    (token : Text)
    → IsToken (normalize_token token)
      × (normalize_token (normalize_token token) ≡ normalize_token token)
normalize_token_lem token = (
  normalize_token-IsToken token,
  normalize_token-eq_self (normalize_token token) (normalize_token-IsToken token),
)

mul64-exact : (n : ℕ) → n ≤ 9_223_372_036 → mul64 (pos n) nanoseconds ≡ pos (n * nanoseconds)
unfolding mul64
mul64-exact n h = ground arith

-- Up to 9223372036 seconds, about 292 years, the intervals are exact: the number of seconds in
-- nanoseconds.
pub intervals_exact :
    (s : ServerConfig) (poll stale : ℕ)
    → s.poll_interval_seconds ≡ pos poll
    → s.stale_after_seconds ≡ pos stale
    → poll ≤ 9_223_372_036
    → stale ≤ 9_223_372_036
    → (poll_interval s ≡ pos (poll * nanoseconds)) × (stale_after s ≡ pos (stale * nanoseconds))
unfolding poll_interval stale_after
intervals_exact s poll stale p q h k = (rw p (mul64-exact poll h), rw q (mul64-exact stale k))
