-- ===== src/Provider/Client/Pinned.antt =====
-- A pinned certificate, from its fingerprint as it is written (apps/bridge/internal/proxmox/client.go).
use proxmox_desk_display.Provider.Client.{
  TlsEnv, is_hex, all_hex, rune_bytes, byte_length, parse_fingerprint, transport_for_tls,
  accepts_peer,
}
use proxmox_desk_display.Base.{
  [], ◌∷◌, some, none, true, false, refl, ◌≡◌, ℕ, All, ◌||◌, arith, List, length, ◌==◌, ◌++◌, ◌↔◌,
  keep_if, false-ne-true, not,
}
use proxmox_desk_display.Errors.{ok}
use proxmox_desk_display.Base.Text.{
  Text, is_space, trim_space, lower_rune, to_lower, trim_prefix, text_eq, codes,
}
use proxmox_desk_display.Base.Text.Trim.{last_or, trim-eq_self}
use proxmox_desk_display.Config.{TlsConfig}
use proxmox_desk_display.Base.Text.Laws.{text_eq→eq, text_eq_refl}

-- A digest in hexadecimal, with letters of either case.
pub record IsDigest (d : Text) : Type 0 where
  pub digits : All (λ c. is_hex c ≡ true) d
  pub size : length d ≡ 64

-- The digest as a person writes it: with the prefix, and with colons anywhere or nowhere.
pub record IsWritten (d s : Text) : Type 0 where
  pub printed : Text
  pub runes : All (λ c. (is_hex c || c == b':') ≡ true) printed
  pub bare : keep_if (λ c. not (c == b':')) printed ≡ d
  pub prefixed : s ≡ codes "SHA256:" ++ printed

NoSpace : Text → Type 0
NoSpace = All (λ c. is_space c ≡ false)

hex_or_colon-is_space : (c : ℕ) → (is_hex c || c == b':') ≡ true → is_space c ≡ false
unfolding is_hex is_space
hex_or_colon-is_space c h = ground arith

All-NoSpace : (s : Text) → All (λ c. (is_hex c || c == b':') ≡ true) s → NoSpace s
unfolding NoSpace
All-NoSpace [] h = tt
All-NoSpace (c ∷ s) (p, h) = (hex_or_colon-is_space c p, All-NoSpace s h)

last-NoSpace : (c : ℕ) (s : Text) → is_space c ≡ false → NoSpace s → is_space (last_or c s) ≡ false
unfolding NoSpace
last-NoSpace c [] h k = h
last-NoSpace c (d ∷ s) h (k, l) = last-NoSpace d s k l

-- A first rune that is no space, and no space after it: there is nothing to trim.
trim_space-eq_self :
    (c : ℕ) (s : Text) → is_space c ≡ false → NoSpace s → trim_space (c ∷ s) ≡ c ∷ s
unfolding trim_space
trim_space-eq_self c s h k = trim-eq_self is_space (c ∷ s) h (last-NoSpace c s h k)

prefix-NoSpace : (s : Text) → NoSpace s → NoSpace (codes "HA256:" ++ s)
unfolding NoSpace is_space
prefix-NoSpace s h = (refl, (refl, (refl, (refl, (refl, (refl, h))))))

lower-hex : (c : ℕ) → is_hex c ≡ true → is_hex (lower_rune c) ≡ true
unfolding is_hex lower_rune
lower-hex c h = ground arith

lower-byte : (c : ℕ) → is_hex c ≡ true → rune_bytes (lower_rune c) ≡ 1
unfolding is_hex lower_rune rune_bytes
lower-byte c h = ground arith

all_hex-lower : (d : Text) → All (λ c. is_hex c ≡ true) d → all_hex (to_lower d) ≡ true
unfolding all_hex to_lower
all_hex-lower [] h = refl
all_hex-lower (c ∷ d) (p, h) = rw (lower-hex c p) (all_hex-lower d h)

byte_length-lower : (d : Text) → All (λ c. is_hex c ≡ true) d → byte_length (to_lower d) ≡ length d
unfolding byte_length to_lower
byte_length-lower [] h = omega arith
byte_length-lower (c ∷ d) (p, h) = omega (arith, byte_length-lower d h, lower-byte c p)

-- The prefix is cut off and no space is.
bare_text :
    (s : Text) → NoSpace s → trim_prefix (trim_space (codes "SHA256:" ++ s)) (codes "SHA256:") ≡ s
unfolding trim_prefix is_space
bare_text s h = rw (trim_space-eq_self b'S' (codes "HA256:" ++ s) refl (prefix-NoSpace s h)) refl

parse_fingerprint-written :
    (d s : Text) → IsDigest d → IsWritten d s → parse_fingerprint s ≡ ok (to_lower d)
unfolding parse_fingerprint
parse_fingerprint-written d s digest written =
    rw
      (
        written.prefixed,
        bare_text written.printed (All-NoSpace written.printed written.runes),
        written.bare,
        byte_length-lower d digest.digits,
        digest.size,
        all_hex-lower d digest.digits,
      )
      refl

some-certs : (c : Text) (cs : List Text) → [] ≡ c ∷ cs → ⊥
some-certs c cs h = cc

first-eq : (c d : Text) (cs ds : List Text) → c ∷ cs ≡ d ∷ ds → c ≡ d
first-eq c d cs ds h = cc

-- In the fingerprint mode, with the fingerprint of a certificate written with its prefix, in letters of
-- either case and with or without colons, a transport is made, and it accepts a server exactly when
-- the first certificate that the server presents has the digest of that certificate. A SHA-256 digest
-- in hexadecimal is taken to be 64 hexadecimal digits.
pub transport_for_tls-IsPinned :
    (sha256_hex : Text → Text)
    → ((cert : Text) → IsDigest (sha256_hex cert))
    → (env : TlsEnv) (cfg : TlsConfig) (cert : Text) (presented : List Text)
    → cfg.mode ≡ codes "fingerprint"
    → IsWritten (sha256_hex cert) cfg.fingerprint
    → (expected : Text) × (transport_for_tls env cfg
        ≡ ok (record { insecure_skip_verify = true; root_cas = none; expected = some expected }))
      × ((accepts_peer sha256_hex expected presented ≡ true) ↔ (
          (other : Text) × (rest : List Text) × (presented ≡ other ∷ rest)
          × (to_lower (sha256_hex other) ≡ to_lower (sha256_hex cert))))
unfolding transport_for_tls text_eq accepts_peer
transport_for_tls-IsPinned sha256_hex digests env cfg cert presented mode written = (
  to_lower (sha256_hex cert),
  rw (mode, parse_fingerprint-written (sha256_hex cert) cfg.fingerprint (digests cert) written)
      refl,
  accepts presented,
)
  where
    accepts :
        (presented : List Text)
        → (accepts_peer sha256_hex (to_lower (sha256_hex cert)) presented ≡ true) ↔ (
            (other : Text) × (rest : List Text) × (presented ≡ other ∷ rest)
            × (to_lower (sha256_hex other) ≡ to_lower (sha256_hex cert)))
    accepts [] = ((λ h. absurd (false-ne-true h)), λ (o, r, e, q). absurd (some-certs o r e))
    accepts (other ∷ rest) = (
      (λ h. (other, rest, refl, text_eq→eq _ _ h)),
      λ (o, r, e, q). rw (first-eq other o rest r e, q) (text_eq_refl (to_lower (sha256_hex cert))),
    )
