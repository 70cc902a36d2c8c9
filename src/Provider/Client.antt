-- ===== src/Provider/Client.antt =====
-- The client of one source (apps/bridge/internal/proxmox/client.go): its token, its transport and the
-- check of a certificate. Files and the certificate pool are arguments.
pub mod Pinned
pub mod Tests
use proxmox_desk_display.Base.{
  [], ◌∷◌, some, none, true, false, Bool, ℕ, Option, if◌then◌else◌, ◌+◌, leb, ◌&&◌, List, ltb, ◌||◌,
  ◌++◌, keep_if, ◌==◌, map, not,
}
use proxmox_desk_display.Errors.{
  ok, err, Result, ◌>>=◌, create_client, ca_not_parsed, unsupported_tls_mode, fingerprint_length,
  fingerprint_not_hex,
}
use proxmox_desk_display.Base.Text.{
  Text, trim_prefix, text_eq, is_empty, trim_space, codes, trim_right, to_lower,
}
use proxmox_desk_display.Config.{TlsConfig, Env, Config, ProxmoxHost, PinnedGuest, normalize_token}

-- The functions of the operating system and of crypto/x509 that a client uses.
pub record TlsEnv : Type 0 where
  pub read_file : Text → Result Text
  -- AppendCertsFromPEM found a certificate
  pub has_certs : Text → Bool

-- tls.Config, as far as it is set: no verification, the file of roots, the expected digest.
pub record Transport : Type 0 where
  pub insecure_skip_verify : Bool
  pub root_cas : Option Text
  pub expected : Option Text

pub record Client : Type 0 where
  pub id : Text
  pub name : Text
  pub base_url : Text
  pub token : Text
  pub transport : Transport

-- The bytes of a rune in UTF-8.
unfoldable pub rune_bytes : ℕ → ℕ
rune_bytes c = if ltb c 0x80 then 1 else if ltb c 0x800 then 2 else if ltb c 0x10000 then 3 else 4

unfoldable pub byte_length : Text → ℕ
unfolding rune_bytes
byte_length [] = 0
byte_length (c ∷ s) = rune_bytes c + byte_length s

unfoldable pub is_hex : ℕ → Bool
is_hex c = (leb b'0' c && leb c b'9') || (leb b'a' c && leb c b'f') || (leb b'A' c && leb c b'F')

-- hex.DecodeString finds no error, for an even length
unfoldable pub all_hex : Text → Bool
unfolding is_hex
all_hex [] = true
all_hex (c ∷ s) = is_hex c && all_hex s

unfoldable pub parse_fingerprint : Text → Result Text
unfolding byte_length all_hex
parse_fingerprint input =
    let bare = trim_prefix (trim_space input) (codes "SHA256:") in
    let value = to_lower (keep_if (λ c. not (c == b':')) bare) in
    if not (byte_length value == 64)
    then err fingerprint_length
    else if all_hex value
    then ok value
    else err fingerprint_not_hex

unfoldable pub transport_for_tls : TlsEnv → TlsConfig → Result Transport
transport_for_tls env cfg =
    if text_eq cfg.mode (codes "system") || is_empty cfg.mode
    then ok (record { insecure_skip_verify = false; root_cas = none; expected = none })
    else if text_eq cfg.mode (codes "insecure")
    then ok (record { insecure_skip_verify = true; root_cas = none; expected = none })
    else if text_eq cfg.mode (codes "ca_file")
    then (env.read_file cfg.ca_file >>= λ bytes.
        if env.has_certs bytes
        then ok (record { insecure_skip_verify = false; root_cas = some bytes; expected = none })
        else err (ca_not_parsed cfg.ca_file))
    else if text_eq cfg.mode (codes "fingerprint")
    then (parse_fingerprint cfg.fingerprint >>= λ expected.
        ok (record { insecure_skip_verify = true; root_cas = none; expected = some expected }))
    else err (unsupported_tls_mode cfg.mode)

unfoldable pub token_for_host : Env → ProxmoxHost → Text
token_for_host getenv h = if is_empty h.token_value then getenv h.token_env else h.token_value

unfoldable pub new_client : Env → TlsEnv → ProxmoxHost → Result Client
unfolding token_for_host
new_client getenv env h = transport_for_tls env h.tls >>= λ transport. ok (record {
  id = h.id;
  name = h.name;
  base_url = trim_right (λ c. c == b'/') h.base_url;
  token = normalize_token (token_for_host getenv h);
  transport = transport;
})

-- VerifyPeerCertificate of the fingerprint mode: the digest of the first certificate in hexadecimal.
unfoldable pub accepts_peer : (Text → Text) → Text → List Text → Bool
accepts_peer sha256_hex expected [] = false
accepts_peer sha256_hex expected (cert ∷ rest) = text_eq (to_lower (sha256_hex cert)) expected

-- NewCollector (apps/bridge/internal/proxmox/provider.go): the clients and the alert thresholds.
pub record ProxmoxCollector : Type 0 where
  pub cfg : Config
  pub clients : List Client
  pub pinned : List (Text × PinnedGuest)

unfoldable pub new_clients : Env → TlsEnv → List ProxmoxHost → Result (List Client)
unfolding new_client
new_clients getenv env [] = ok []
new_clients getenv env (h ∷ rest) = elim (new_client getenv env h) [
  | err e ↦ err (create_client h.id e)
  | ok c ↦ new_clients getenv env rest >>= λ cs. ok (c ∷ cs)
]

unfoldable pub new_collector : Env → TlsEnv → Config → Result ProxmoxCollector
unfolding new_clients
new_collector getenv env c = new_clients getenv env c.proxmox >>= λ clients.
    ok (record { cfg = c; clients = clients; pinned = map pin c.guests.pinned })
  where
    pin : PinnedGuest → Text × PinnedGuest
    pin g = (g.source ++ codes "/" ++ g.id, g)
