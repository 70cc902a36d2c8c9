-- ===== src/Provider/Calls.antt =====
-- The outcomes of the calls of the API, as the collector records them
-- (apps/bridge/internal/proxmox/provider.go).
use proxmox_desk_display.Base.Text.{Text, codes, trim, has_prefix}
use proxmox_desk_display.Display.Inventory.{Capability}
use proxmox_desk_display.Provider.Collect.{max_capabilities}
use proxmox_desk_display.Base.{
  [], ◌∷◌, some, none, suc, zero, ℕ, Option, if◌then◌else◌, ◌++◌, length, Slice, ◌==◌, ◌-◌, leb,
  ◌||◌, elems,
}
use proxmox_desk_display.Base.Numbers.{decimal}

-- An error of a call: an APIError by its status code and its message, or any other error by its message.
pub data CallError : Type 0 where
  api_error : ℕ → Text → CallError
  other_error : Text → CallError

-- err.Error()
abbrev pub error_text : CallError → Text
error_text (api_error code t) = t
error_text (other_error t) = t

-- The status of a capability for a status code.
unfoldable pub api_status : ℕ → Text
api_status code =
    if code == 403 || code == 401
    then codes "forbidden"
    else if code == 404
    then codes "not_found"
    else if code == 501 || leb 500 code
    then codes "not_available"
    else codes "error"

unfoldable pub capability_status : Option CallError → Text
unfolding api_status
capability_status none = codes "ok"
capability_status (some (other_error t)) = codes "error"
capability_status (some (api_error code t)) = api_status code

abbrev pub http_status_of : Option CallError → ℕ
http_status_of none = 200
http_status_of (some (other_error t)) = 0
http_status_of (some (api_error code t)) = code

unfoldable pub message_of : Option CallError → Text
unfolding decimal
message_of none = []
message_of (some (other_error t)) = t
message_of (some (api_error code t)) = codes "HTTP " ++ decimal code

-- strings.ReplaceAll(s, old, ""): the occurrences from the left. `skip` runes are inside one.
unfoldable pub remove_all : Text → ℕ → Text → Text
remove_all old skip [] = []
remove_all old zero (c ∷ s) =
    let inside = remove_all old (length old - 1) s in
    let after = remove_all old 0 s in if has_prefix (c ∷ s) old then inside else c ∷ after
remove_all old (suc skip) (c ∷ s) = remove_all old skip s

-- addCapability, on the state's list
unfoldable pub add_capability :
    Text → Text → Text → Text → Text → Option CallError → Slice Capability → Slice Capability
unfolding capability_status message_of remove_all
add_capability source_id host_id guest_id name endpoint e capabilities =
    if leb max_capabilities (length (elems capabilities))
    then capabilities
    else some (
        elems capabilities
        ++ record {
          id =
              source_id
              ++ codes "/"
              ++ name
              ++ codes "/"
              ++ trim (λ c. c == b'/') (remove_all (codes "/api2/json/") 0 endpoint);
          source_id = source_id;
          host_id = host_id;
          guest_id = guest_id;
          name = name;
          endpoint = endpoint;
          status = capability_status e;
          http_status = http_status_of e;
          message = message_of e;
        }
          ∷ [])
