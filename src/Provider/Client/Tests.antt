-- ===== src/Provider/Client/Tests.antt =====
-- A pinned certificate on a concrete digest, written in capitals with colons.
use proxmox_desk_display.Provider.Client.{TlsEnv, is_hex, transport_for_tls, accepts_peer}
use proxmox_desk_display.Provider.Client.Pinned.{IsDigest, IsWritten, transport_for_tls-IsPinned}
use proxmox_desk_display.Base.{
  [], ◌∷◌, some, none, true, false, refl, inl, inr, ◌≡◌, ℕ, keep_if, if◌then◌else◌, Bool,
  Bool-cases, ◌++◌, ◌↔◌, All, ◌||◌, List, sym, ◌==◌, ◌∙◌, false-ne-true, ◌&&◌,
}
use proxmox_desk_display.Errors.{ok}
use proxmox_desk_display.Base.Text.{Text, to_lower, codes, text_eq}
use proxmox_desk_display.Config.{TlsConfig}

abbrev digest_a : Text
digest_a = codes "AABBCCDDEEFF00112233445566778899AABBCCDDEEFF00112233445566778899"

abbrev pub digest_b : Text
digest_b = codes "0000000000000000000000000000000000000000000000000000000000000000"

-- A digest that tells the certificate `pinned` from the others.
abbrev digest_of : Text → Text
digest_of cert = if text_eq cert (codes "pinned") then digest_a else digest_b

abbrev written_a : Text
written_a =
    codes
      "AA:BB:CC:DD:EE:FF:00:11:22:33:44:55:66:77:88:99:AA:BB:CC:DD:EE:FF:00:11:22:33:44:55:66:77:88:99"

abbrev pub all_of : (ℕ → Bool) → Text → Bool
all_of p [] = true
all_of p (c ∷ s) = p c && all_of p s

pub All-of_test : (p : ℕ → Bool) (s : Text) → all_of p s ≡ true → All (λ c. p c ≡ true) s
All-of_test p [] h = tt
All-of_test p (c ∷ s) h = elim (Bool-cases (p c)) [
  | inl e ↦ (e, All-of_test p s (sym (rw e refl) ∙ h))
  | inr e ↦ absurd (false-ne-true (sym (rw e refl) ∙ h))
]

digest_a-IsDigest : IsDigest digest_a
unfolding is_hex
digest_a-IsDigest = record { digits = All-of_test is_hex digest_a refl; size = refl }

pub digest_b-IsDigest : IsDigest digest_b
unfolding is_hex
digest_b-IsDigest = record { digits = All-of_test is_hex digest_b refl; size = refl }

digest_of-IsDigest : (cert : Text) → IsDigest (digest_of cert)
digest_of-IsDigest cert = elim (Bool-cases (text_eq cert (codes "pinned"))) [
  | inl e ↦ rw e digest_a-IsDigest
  | inr e ↦ rw e digest_b-IsDigest
]

written_a-IsWritten : IsWritten (digest_of (codes "pinned")) (codes "SHA256:" ++ written_a)
unfolding is_hex keep_if text_eq
written_a-IsWritten = record {
  printed = written_a;
  runes = All-of_test (λ c. is_hex c || c == b':') written_a refl;
  bare = refl;
  prefixed = refl;
}

abbrev pub no_files : TlsEnv
no_files = record { read_file = λ p. ok []; has_certs = λ t. false }

abbrev pinned_tls : TlsConfig
pinned_tls = record {
  mode = codes "fingerprint";
  fingerprint = codes "SHA256:" ++ written_a;
  ca_file = [];
}

other_refused : accepts_peer digest_of (to_lower digest_a) (codes "other" ∷ []) ≡ false
unfolding accepts_peer to_lower text_eq
other_refused = refl

transport_for_tls-IsPinned_example :
    (expected : Text) × (transport_for_tls no_files pinned_tls
      ≡ ok (record { insecure_skip_verify = true; root_cas = none; expected = some expected }))
    × ((accepts_peer digest_of expected (codes "pinned" ∷ []) ≡ true) ↔ (
        (other : Text) × (rest : List Text) × (codes "pinned" ∷ [] ≡ other ∷ rest)
        × (to_lower (digest_of other) ≡ to_lower (digest_of (codes "pinned")))))
transport_for_tls-IsPinned_example =
    transport_for_tls-IsPinned digest_of digest_of-IsDigest no_files pinned_tls (codes "pinned")
      (codes "pinned" ∷ []) refl written_a-IsWritten
