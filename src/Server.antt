-- ===== src/Server.antt =====
-- Package server (apps/bridge/internal/server/server.go): requests, answers, and the two checks that
-- stand before the handlers. net/http and net/url are represented by what the code reads of a
-- request.
pub mod Forms
pub mod Handlers
pub mod Routes
pub mod Origin
pub mod Access
pub mod Effects
pub mod Reveals
pub mod Tests
use proxmox_desk_display.Base.{
  Bool, Option, List, ◌&&◌, ◌||◌, not, if◌then◌else◌, some, none, true, false,
}
use proxmox_desk_display.Base.Text.{
  Text, codes, text_eq, is_empty, has_prefix, trim_prefix, equal_fold,
}
use proxmox_desk_display.Config.{Env, Config, display_token, admin_token}
use proxmox_desk_display.Errors.{Error}

-- What the server reads of a request. `basic_auth` is what BasicAuth returns, the two values are
-- FormValue and PostFormValue, and a header that is missing is empty.
pub record Request : Type 0 where
  pub path : Text
  pub method : Text
  pub host : Text
  pub authorization : Text
  pub origin : Text
  pub referer : Text
  pub basic_auth : Option (Text × Text)
  pub parse_form : Option Error
  pub query : Text → Text
  pub form_value : Text → Text
  pub post_value : Text → Text

-- url.Parse and the field Host
abbrev pub UrlHost : Type 0
UrlHost = Text → Option Text

-- ConstantTimeCompare is equality of the two strings.
unfoldable pub token_equal : Text → Text → Bool
token_equal got want = if is_empty got || is_empty want then false else text_eq got want

abbrev pub bearer : Text
bearer = codes "Bearer "

-- The test on the Authorization header that both checks make.
unfoldable pub has_bearer : Text → Text → Bool
unfolding token_equal
has_bearer header token = has_prefix header bearer && token_equal (trim_prefix header bearer) token

unfoldable pub origin_matches_host : UrlHost → Text → Text → Bool
unfolding equal_fold
origin_matches_host url_host raw host = elim (url_host raw) [
  | none ↦ false
  | some h ↦ equal_fold h host
]

unfoldable pub same_origin : UrlHost → Request → Bool
unfolding origin_matches_host
same_origin url_host r =
    if not (is_empty r.origin)
    then origin_matches_host url_host r.origin r.host
    else if not (is_empty r.referer)
    then origin_matches_host url_host r.referer r.host
    else true

-- auth: whether the next handler is called, for a display token.
unfoldable pub auth_passes : Bool → Text → Request → Bool
unfolding has_bearer
auth_passes mock token r = mock && is_empty token || has_bearer r.authorization token

-- `user, pass, ok := r.BasicAuth()`
unfoldable pub has_basic : Option (Text × Text) → Text → Bool
unfolding token_equal
has_basic none token = false
has_basic (some (user, pass)) token = text_eq user (codes "admin") && token_equal pass token

-- The two ways in which adminAuth rejects a request, or none.
pub data Admission : Type 0 where
  admitted cross_origin unauthenticated : Admission

abbrev pub is_post : Request → Bool
is_post r = text_eq r.method (codes "POST")

unfoldable pub admin_auth : UrlHost → Text → Request → Admission
unfolding same_origin has_bearer has_basic
admin_auth url_host token r =
    if is_post r && not (same_origin url_host r)
    then cross_origin
    else if is_empty token || has_bearer r.authorization token || has_basic r.basic_auth token
    then admitted
    else unauthenticated
