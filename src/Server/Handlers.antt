-- ===== src/Server/Handlers.antt =====
-- The handlers and the routes (apps/bridge/internal/server/server.go). The server's cache is that of
-- the manager, which is there whether or not the admin page is.
use proxmox_desk_display.Base.Text.{Text, codes, is_empty, trim_space}
use proxmox_desk_display.Runtime.Manager.{World, Bridge}
use proxmox_desk_display.Runtime.Diagnostics.{test_source}
use proxmox_desk_display.Runtime.Snapshot.{snapshot, Snapshot}
use proxmox_desk_display.Provider.Diagnostics.{ApiNetwork}
use proxmox_desk_display.Server.{Request, UrlHost}
use proxmox_desk_display.Server.Forms.{
  source_update_from_form, source_draft_from_request, SourceDraft,
}
use proxmox_desk_display.Cache.{cached_state, metadata, Metadata}
use proxmox_desk_display.Errors.{Error, Result, ok, err}
use proxmox_desk_display.Base.{[], ◌∷◌, some, none, Bool, Option, List, if◌then◌else◌, ◌++◌}
use proxmox_desk_display.Config.{Config}
use proxmox_desk_display.Base.Int.{ℤ}
use proxmox_desk_display.Display.Finalize.{compact_for_display}
use proxmox_desk_display.Display.Detail.{detail_for_display}
use proxmox_desk_display.Display.State.{State, DetailState}

pub record Server : Type 0 where
  pub cfg : Config
  pub mock : Bool
  pub has_admin : Bool

-- What a redirect to the admin page tells: an error, a message, or nothing.
pub data Notice : Type 0 where
  failed : Error → Notice
  told : Text → Notice
  silent : Notice

-- The answers, each with what its body is made of.
pub data Response : Type 0 where
  health_answer : Bool → Response
  display_answer : State → Response
  detail_answer : DetailState → Response
  full_answer : State → Response
  debug_answer : Bool → Metadata → State → Response
  unavailable : Error → Option Metadata → Response
  unauthorized admin_required cross_origin_rejected not_found method_not_allowed : Response
  index_page : Bool → Result State → Metadata → Response
  admin_page : Result State → Metadata → Snapshot → SourceDraft → Response
  redirect : List (Text × Text) → Notice → Response

-- The time and the outside of one request.
pub record Moment : Type 0 where
  pub world : World
  pub network : ApiNetwork
  pub url_host : UrlHost
  pub now : ℤ

module _ (m : Moment) where
  -- displayState, detailState, fullState and debug
  unfoldable pub display_state : Bridge → Response
  display_state b = elim (cached_state m.now b.manager.cache) [
    | err e ↦ unavailable e none
    | ok s ↦ display_answer (compact_for_display s)
  ]

  unfoldable pub detail_state : Bridge → Response
  detail_state b = elim (cached_state m.now b.manager.cache) [
    | err e ↦ unavailable e none
    | ok s ↦ detail_answer (detail_for_display s)
  ]

  unfoldable pub full_state : Bridge → Response
  full_state b = elim (cached_state m.now b.manager.cache) [
    | err e ↦ unavailable e none
    | ok s ↦ full_answer s
  ]

  unfoldable pub debug : Server → Bridge → Response
  debug s b = elim (cached_state m.now b.manager.cache) [
    | err e ↦ unavailable e (some (metadata b.manager.cache))
    | ok t ↦ debug_answer s.mock (metadata b.manager.cache) t
  ]

  unfoldable pub admin_index : Request → Bridge → Response
  admin_index r b =
      let shown = snapshot m.world.getenv b.manager in
      admin_page (cached_state m.now b.manager.cache) (metadata b.manager.cache) shown
        (source_draft_from_request r shown.sources)

-- redirectAdmin
unfoldable pub redirect_admin : Text → Option Error → Response
redirect_admin message (some e) = redirect [] (failed e)
redirect_admin message none = redirect [] (if is_empty message then silent else told message)

-- The values that redirectAdminWithDraft sends back.
unfoldable pub draft_values : Request → List Text → List (Text × Text)
draft_values r [] = []
draft_values r (key ∷ rest) =
    let after = draft_values r rest in
    let value = trim_space (r.post_value key) in
    if is_empty value then after else (key, value) ∷ after

unfoldable pub redirect_with_draft : Request → Text → Option Error → Text → Response
unfolding draft_values
redirect_with_draft r message e fingerprint =
    let known =
      if is_empty fingerprint
      then trim_space (r.post_value (codes "fingerprint"))
      else fingerprint in
    let values =
      draft_values r
        (codes "id" ∷ codes "name" ∷ codes "base_url" ∷ codes "tls_mode" ∷ codes "ca_file" ∷ [])
      ++ (if is_empty known then [] else (codes "fingerprint", known) ∷ []) in
    redirect values
      (elim e [ some x ↦ failed x | none ↦ if is_empty message then silent else told message ])

module _ (m : Moment) where
  -- adminTestProxmox after the form has been parsed
  unfoldable pub test_proxmox : Request → Bridge → Response
  test_proxmox r b = elim (test_source m.world m.network (source_update_from_form r) b) [
    | err e ↦ redirect_with_draft r [] (some e) []
    | ok d ↦
        redirect_with_draft r
          (if is_empty d.fingerprint then d.message else d.message ++ codes " · " ++ d.fingerprint)
          none d.fingerprint
  ]

  -- adminDetectFingerprint after the form has been parsed
  unfoldable pub detect_fingerprint : Request → Response
  detect_fingerprint r = elim (m.network.detect (r.post_value (codes "base_url"))) [
    | err e ↦ redirect_with_draft r (codes "fingerprint detected") (some e) []
    | ok f ↦ redirect_with_draft r (codes "fingerprint detected") none f
  ]
