-- ===== src/Provider/Get.antt =====
-- Get of a client (apps/bridge/internal/proxmox/client.go). Packages net/http and encoding/json are
-- arguments: what a request comes to, and what Unmarshal makes of a text.
pub mod Outcomes
use proxmox_desk_display.Base.{
  [], ◌∷◌, some, none, inl, inr, ℕ, Option, ◌⊎◌, ◌++◌, Bool, ltb, leb, ◌||◌, if◌then◌else◌,
}
use proxmox_desk_display.Base.Numbers.{decimal}
use proxmox_desk_display.Base.Text.{Text, codes, is_empty, trim_space}
use proxmox_desk_display.Provider.Api.{Call, answered, failed}
use proxmox_desk_display.Provider.Calls.{CallError, api_error, other_error}
use proxmox_desk_display.Provider.Client.{Client}

-- What Get sets of a request.
pub record HttpRequest : Type 0 where
  pub url : Text
  pub authorization : Text
  pub accept : Text

-- http.Client.Do and io.ReadAll: an error of either, or a status code and a body.
pub data Exchange : Type 0 where
  broken : Text → Exchange
  replied : ℕ → Text → Exchange

pub record Http : Type 0 where
  -- the error of http.NewRequestWithContext for a URL
  pub url_error : Text → Option Text
  pub exchange : HttpRequest → Exchange
  -- Unmarshal of a body into the envelope: an error, or the text of `data`, empty where there is none
  pub envelope : Text → Text ⊎ Text

unfoldable pub is_success : ℕ → Bool
is_success code = if ltb code 200 || ltb 299 code then Bool.false else Bool.true

-- APIError.Error
unfoldable pub api_error_text : Client → ℕ → Text → Text
api_error_text c code body =
    codes "proxmox "
    ++ c.id
    ++ codes " returned HTTP "
    ++ decimal code
    ++ codes ": "
    ++ trim_space body

-- The error of an answer without data.
abbrev pub missing_text : Client → Text
missing_text c = codes "proxmox " ++ c.id ++ codes " response missing data envelope"

unfoldable pub request_of : Client → Text → HttpRequest
request_of c path = record {
  url = c.base_url ++ path;
  authorization = c.token;
  accept = codes "application/json";
}

-- The end of Get: the body of a successful answer.
unfoldable pub read_body : {A : Type 0} → Http → (Text → Text ⊎ A) → Client → Text → Call A
read_body http decode c body = elim (http.envelope body) [
  | inl e ↦ failed (other_error e)
  | inr raw ↦
      if is_empty raw
      then failed (other_error (missing_text c))
      else elim (decode raw) [ inl e ↦ failed (other_error e) | inr a ↦ answered a ]
]

unfoldable pub get : {A : Type 0} → Http → (Text → Text ⊎ A) → Client → Text → Call A
unfolding is_success api_error_text request_of read_body
get http decode c path = elim (http.url_error (c.base_url ++ path)) [
  | some e ↦ failed (other_error e)
  | none ↦ elim (http.exchange (request_of c path)) [
    | broken e ↦ failed (other_error e)
    | replied code body ↦
        if is_success code
        then read_body http decode c body
        else failed (api_error code (api_error_text c code body))
  ]
]
