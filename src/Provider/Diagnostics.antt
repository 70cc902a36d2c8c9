-- ===== src/Provider/Diagnostics.antt =====
-- TestHost and DetectFingerprint (apps/bridge/internal/proxmox/diagnostics.go). The calls that use the
-- network are arguments.
pub mod Detected
pub mod Tests
use proxmox_desk_display.Base.Text.{Text, codes, text_eq, is_empty, trim_space, contains, to_lower}
use proxmox_desk_display.Config.{ProxmoxHost, Env}
use proxmox_desk_display.Provider.Client.{TlsEnv, Client, new_client}
use proxmox_desk_display.Errors.{Result, ◌>>=◌, ok, err, no_certificate, https_required}
use proxmox_desk_display.Base.{[], if◌then◌else◌, ◌&&◌, ◌∷◌, Bool, List, ◌++◌}

pub record TestResult : Type 0 where
  pub version : Text
  pub release : Text
  pub fingerprint : Text

-- DetectFingerprint for a URL, and the version and release that a client gets.
pub record ApiNetwork : Type 0 where
  pub detect : Text → Result Text
  pub get_version : Client → Result (Text × Text)

-- The host with a detected fingerprint, if the mode needs one and there is none, and that fingerprint.
unfoldable pub with_fingerprint : ApiNetwork → ProxmoxHost → Result (ProxmoxHost × Text)
with_fingerprint net h =
    if text_eq h.tls.mode (codes "fingerprint") && is_empty (trim_space h.tls.fingerprint)
    then (net.detect h.base_url >>= λ f.
        ok (record h { tls = record h.tls { fingerprint = f } }, f))
    else ok (h, [])

unfoldable pub test_host : Env → TlsEnv → ApiNetwork → ProxmoxHost → Result TestResult
unfolding with_fingerprint
test_host getenv env net host = with_fingerprint net host >>= λ found.
    new_client getenv env found.0 >>= λ client. net.get_version client >>= λ version. ok (record {
      version = version.0;
      release = version.1;
      fingerprint =
          if is_empty found.1 && text_eq found.0.tls.mode (codes "fingerprint")
          then found.0.tls.fingerprint
          else found.1;
    })

-- url.Parse, and what url.URL and net.ParseIP say of a host.
pub record ParsedUrl : Type 0 where
  pub scheme : Text
  pub host : Text
  pub hostname : Text

-- The functions of net/url, net, crypto/tls and crypto/sha256 that DetectFingerprint uses.
pub record Dialer : Type 0 where
  pub parse_url : Text → Result ParsedUrl
  pub is_ip : Text → Bool
  -- the certificates that a server presents, for an address and a server name
  pub dial : Text → Text → Result (List Text)
  -- the SHA-256 digest of a certificate in hexadecimal
  pub sha256_hex : Text → Text

unfoldable pub server_name : Dialer → Text → Text
server_name d host = if d.is_ip host then [] else host

-- The host with the port of https, where it has none.
unfoldable pub dial_address : Text → Text
dial_address host = if contains host (codes ":") then host else host ++ codes ":443"

unfoldable pub first_fingerprint : Dialer → List Text → Result Text
first_fingerprint d [] = err no_certificate
first_fingerprint d (cert ∷ rest) = ok (codes "SHA256:" ++ to_lower (d.sha256_hex cert))

unfoldable pub detect_fingerprint : Dialer → Text → Result Text
unfolding server_name dial_address first_fingerprint
detect_fingerprint d base_url = d.parse_url (trim_space base_url) >>= λ u.
    if text_eq u.scheme (codes "https")
    then d.dial (dial_address u.host) (server_name d u.hostname) >>= first_fingerprint d
    else err https_required
