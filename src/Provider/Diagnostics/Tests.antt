-- ===== src/Provider/Diagnostics/Tests.antt =====
-- A detected fingerprint, and an answer of Get, on concrete servers.
use proxmox_desk_display.Base.{
  [], ◌∷◌, some, none, true, false, refl, inl, inr, ◌≡◌, if◌then◌else◌, Bool-cases, List, ◌⊎◌, ◌++◌,
  ◌↔◌, ℕ, ◌≤◌, ◌<◌,
}
use proxmox_desk_display.Errors.{ok}
use proxmox_desk_display.Base.Text.{Text, to_lower, codes, text_eq, contains}
use proxmox_desk_display.Provider.Client.{is_hex, Client, transport_for_tls, accepts_peer}
use proxmox_desk_display.Provider.Diagnostics.{Dialer, detect_fingerprint, dial_address}
use proxmox_desk_display.Config.{TlsConfig}
use proxmox_desk_display.Provider.Get.{Http, get, HttpRequest, replied}
use proxmox_desk_display.Provider.Client.Pinned.{IsDigest}
use proxmox_desk_display.Provider.Client.Tests.{digest_b, All-of_test, digest_b-IsDigest, no_files}
use proxmox_desk_display.Provider.Api.{answered, failed}
use proxmox_desk_display.Provider.Diagnostics.Detected.{detect_fingerprint-IsPinned}
use proxmox_desk_display.Provider.Get.Outcomes.{refusal, Replies, Holds, get_answered_iff}
use proxmox_desk_display.Provider.Calls.{api_error}

abbrev small_digest : Text
small_digest = codes "aabbccddeeff00112233445566778899aabbccddeeff00112233445566778899"

abbrev small_digest_of : Text → Text
small_digest_of cert = if text_eq cert (codes "pinned") then small_digest else digest_b

small_digest-IsDigest : IsDigest small_digest
unfolding is_hex
small_digest-IsDigest = record { digits = All-of_test is_hex small_digest refl; size = refl }

small_digest_of-IsDigest : (cert : Text) → IsDigest (small_digest_of cert)
small_digest_of-IsDigest cert = elim (Bool-cases (text_eq cert (codes "pinned"))) [
  | inl e ↦ rw e small_digest-IsDigest
  | inr e ↦ rw e digest_b-IsDigest
]

small_digest_of_small : (cert : Text) → to_lower (small_digest_of cert) ≡ small_digest_of cert
unfolding to_lower
small_digest_of_small cert = elim (Bool-cases (text_eq cert (codes "pinned"))) [
  | inl e ↦ rw e refl
  | inr e ↦ rw e refl
]

abbrev one_server : Dialer
one_server = record {
  parse_url = λ (u : Text).
      ok (record { scheme = codes "https"; host = codes "pve"; hostname = codes "pve" });
  is_ip = λ (h : Text). false;
  dial = λ (address name : Text). ok (codes "pinned" ∷ []);
  sha256_hex = small_digest_of;
}

abbrev detected_tls : TlsConfig
detected_tls = record {
  mode = codes "fingerprint";
  fingerprint = codes "SHA256:" ++ small_digest;
  ca_file = [];
}

one_server-found : detect_fingerprint one_server (codes "https://pve") ≡ ok detected_tls.fingerprint
unfolding detect_fingerprint to_lower text_eq
one_server-found = refl

-- The address that is dialled has the port of https.
address_of_server : dial_address (codes "pve") ≡ codes "pve:443"
unfolding dial_address contains
address_of_server = refl

detect_fingerprint-IsPinned_example :
    (address : Text) × (name : Text) × (cert : Text) × (rest : List Text) × (expected : Text)
    × (one_server.dial address name ≡ ok (cert ∷ rest))
    × (transport_for_tls no_files detected_tls
        ≡ ok (record { insecure_skip_verify = true; root_cas = none; expected = some expected }))
    × ((accepts_peer small_digest_of expected (codes "other" ∷ []) ≡ true) ↔ (
        (other : Text) × (others : List Text) × (codes "other" ∷ [] ≡ other ∷ others)
        × (to_lower (small_digest_of other) ≡ to_lower (small_digest_of cert))))
detect_fingerprint-IsPinned_example =
    detect_fingerprint-IsPinned one_server small_digest_of-IsDigest small_digest_of_small no_files
      (codes "https://pve") detected_tls (codes "other" ∷ []) refl one_server-found

abbrev echo : Http
echo = record {
  url_error = λ (u : Text). none;
  exchange = λ (r : HttpRequest). replied 200 r.url;
  envelope = λ (b : Text). inr b;
}

abbrev whole_text : Text → Text ⊎ Text
whole_text t = inr t

abbrev asked : Client
asked = record {
  id = codes "home";
  name = codes "home";
  base_url = codes "https://pve";
  token = codes "t";
  transport = record { insecure_skip_verify = false; root_cas = none; expected = none };
}

get_answered_iff_example :
    ((a : Text)
      → (get echo whole_text asked (codes "/x") ≡ answered a) ↔ (
          (code : ℕ) × (body : Text) × Replies echo whole_text asked (codes "/x") code body
          × (200 ≤ code)
          × (code ≤ 299)
          × Holds echo whole_text body a))
    × ((code : ℕ) (t : Text)
        → (get echo whole_text asked (codes "/x") ≡ failed (api_error code t)) ↔ (
            (body : Text) × Replies echo whole_text asked (codes "/x") code body
            × ((code < 200) ⊎ (299 < code))
            × (t ≡ refusal echo whole_text asked (codes "/x") code body)))
get_answered_iff_example = get_answered_iff echo whole_text asked (codes "/x")
