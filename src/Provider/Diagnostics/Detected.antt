-- ===== src/Provider/Diagnostics/Detected.antt =====
-- A detected fingerprint and the transport that is made of it
-- (apps/bridge/internal/proxmox/diagnostics.go and client.go).
use proxmox_desk_display.Errors.{ok, err, https_required, Result, Error, Result-cases, ok-ne-err}
use proxmox_desk_display.Provider.Diagnostics.{
  Dialer, ParsedUrl, detect_fingerprint, first_fingerprint, dial_address, server_name,
}
use proxmox_desk_display.Provider.Client.Pinned.{IsDigest, IsWritten, transport_for_tls-IsPinned}
use proxmox_desk_display.Provider.Client.{TlsEnv, transport_for_tls, accepts_peer, is_hex}
use proxmox_desk_display.Base.{
  [], ◌∷◌, some, none, true, refl, inl, inr, ◌≡◌, ◌↔◌, ◌∙◌, sym, ap, List, All, arith, keep_if, not,
  ◌==◌, ◌||◌, ◌++◌, Bool-cases,
}
use proxmox_desk_display.Base.Text.{Text, codes, to_lower, trim_space, text_eq}
use proxmox_desk_display.Config.{TlsConfig}

ok_inj : {A : Type 0} (a b : A) → ok a ≡ ok b → a ≡ b
ok_inj a b h = cc

-- A result that is known to be an error is not a value.
not_ok : {A B : Type 0} (r : Result A) (e : Error) (a : A) → r ≡ err e → r ≡ ok a → B
not_ok r e a p h = absurd (ok-ne-err a e (sym h ∙ p))

-- The certificate that a fingerprint was made of: the first one of the server.
abbrev IsOfServer : Dialer → Text → Type 0
IsOfServer d f =
    (address : Text) × (name : Text) × (cert : Text) × (rest : List Text) × (d.dial address name
      ≡ ok (cert ∷ rest))
    × (f ≡ codes "SHA256:" ++ to_lower (d.sha256_hex cert))

first_of :
    (d : Dialer) (address name f : Text) (certs : List Text)
    → d.dial address name ≡ ok certs
    → first_fingerprint d certs ≡ ok f
    → IsOfServer d f
unfolding first_fingerprint
first_of d address name f [] p h = absurd (ok-ne-err f _ (sym h))
first_of d address name f (cert ∷ rest) p h = (address, name, cert, rest, p, sym (ok_inj _ f h))

detected : (d : Dialer) (url f : Text) → detect_fingerprint d url ≡ ok f → IsOfServer d f
unfolding detect_fingerprint
detected d url f h = elim (Result-cases (d.parse_url (trim_space url))) [
  | inl (e, p) ↦ not_ok (detect_fingerprint d url) e f (rw (p, detect_fingerprint) refl) h
  | inr (u, p) ↦
      let address = dial_address u.host in
      let name = server_name d u.hostname in
      elim (Bool-cases (text_eq u.scheme (codes "https"))) [
        | inr q ↦
            not_ok (detect_fingerprint d url) https_required f (rw (p, q, detect_fingerprint) refl)
              h
        | inl q ↦ elim (Result-cases (d.dial address name)) [
          | inl (e, r) ↦
              not_ok (detect_fingerprint d url) e f (rw (p, q, r, detect_fingerprint) refl) h
          | inr (certs, r) ↦ first_of d address name f certs r (sym (detects u certs p q r) ∙ h)
        ]
      ]
]
  where
    detects :
        (u : ParsedUrl) (certs : List Text)
        → d.parse_url (trim_space url) ≡ ok u
        → text_eq u.scheme (codes "https") ≡ true
        → d.dial (dial_address u.host) (server_name d u.hostname) ≡ ok certs
        → detect_fingerprint d url ≡ first_fingerprint d certs
    detects u certs p q r = rw (p, q, r, detect_fingerprint) refl

hex-not_colon : (s : Text) → All (λ c. is_hex c ≡ true) s → keep_if (λ c. not (c == b':')) s ≡ s
unfolding is_hex keep_if
hex-not_colon [] h = refl
hex-not_colon (c ∷ s) (h, hs) = rw (hex-not_colon s hs, one) refl
  where
    one : not (c == b':') ≡ true
    one = ground arith

hex-runes : (s : Text) → All (λ c. is_hex c ≡ true) s → All (λ c. (is_hex c || c == b':') ≡ true) s
hex-runes [] h = tt
hex-runes (c ∷ s) (h, hs) = (rw h refl, hex-runes s hs)

-- With the fingerprint that DetectFingerprint returns a transport is made, in the fingerprint mode,
-- that accepts a server exactly when its first certificate has the digest of the one that the dialled
-- server presented first. A SHA-256 digest in hexadecimal is taken to be 64 hexadecimal digits with
-- small letters.
pub detect_fingerprint-IsPinned :
    (d : Dialer)
    → ((cert : Text) → IsDigest (d.sha256_hex cert))
    → ((cert : Text) → to_lower (d.sha256_hex cert) ≡ d.sha256_hex cert)
    → (env : TlsEnv) (url : Text) (cfg : TlsConfig) (presented : List Text)
    → cfg.mode ≡ codes "fingerprint"
    → detect_fingerprint d url ≡ ok cfg.fingerprint
    → (address : Text) × (name : Text) × (cert : Text) × (rest : List Text) × (expected : Text)
      × (d.dial address name ≡ ok (cert ∷ rest))
      × (transport_for_tls env cfg
          ≡ ok (record { insecure_skip_verify = true; root_cas = none; expected = some expected }))
      × ((accepts_peer d.sha256_hex expected presented ≡ true) ↔ (
          (other : Text) × (others : List Text) × (presented ≡ other ∷ others)
          × (to_lower (d.sha256_hex other) ≡ to_lower (d.sha256_hex cert))))
detect_fingerprint-IsPinned d digests small env url cfg presented mode h =
    let found = detected d url cfg.fingerprint h in
    let cert = found.2 in
    let digest = d.sha256_hex cert in
    let written : IsWritten digest cfg.fingerprint = record {
      printed = digest;
      runes = hex-runes digest (digests cert).digits;
      bare = hex-not_colon digest (digests cert).digits;
      prefixed = found.5 ∙ ap (λ t. codes "SHA256:" ++ t) (small cert);
    } in
    let pinned =
      transport_for_tls-IsPinned d.sha256_hex digests env cfg cert presented mode written in
    (found.0, found.1, cert, found.3, pinned.0, found.4, pinned.1, pinned.2)
