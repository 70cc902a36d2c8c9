-- ===== src/Server/Routes.antt =====
-- The routes, with the checks that stand before them (apps/bridge/internal/server/server.go). The
-- path is the one that the mux matches, and "/" matches every path that no other route does.
use proxmox_desk_display.Server.{
  Request, auth_passes, admin_auth, admitted, cross_origin, unauthenticated, is_post, Admission,
}
use proxmox_desk_display.Server.Handlers.{
  Server, Response, Moment, not_found, method_not_allowed, unauthorized, admin_required,
  cross_origin_rejected, health_answer, index_page, redirect_admin, display_state, detail_state,
  full_state, debug, test_proxmox, detect_fingerprint, admin_index,
}
use proxmox_desk_display.Base.Text.{Text, codes, text_eq}
use proxmox_desk_display.Config.{Config, display_token, admin_token}
use proxmox_desk_display.Base.{[], ◌∷◌, some, none, if◌then◌else◌, Option, List, not}
use proxmox_desk_display.Runtime.Manager.{
  Bridge, update_server, upsert_source, delete_source, refresh_bridge,
}
use proxmox_desk_display.Errors.{Error}
use proxmox_desk_display.Server.Forms.{server_update_from_form, source_update_from_form}
use proxmox_desk_display.Cache.{cached_state, metadata}

pub data Route : Type 0 where
  admin_page_route settings proxmox proxmox_test proxmox_fingerprint proxmox_delete admin_refresh :
      Route
  healthz display_route detail_route full_route debug_route index : Route

unfoldable pub route : Text → Route
route path =
    if text_eq path (codes "/admin")
    then admin_page_route
    else if text_eq path (codes "/admin/settings")
    then settings
    else if text_eq path (codes "/admin/proxmox")
    then proxmox
    else if text_eq path (codes "/admin/proxmox/test")
    then proxmox_test
    else if text_eq path (codes "/admin/proxmox/fingerprint")
    then proxmox_fingerprint
    else if text_eq path (codes "/admin/proxmox/delete")
    then proxmox_delete
    else if text_eq path (codes "/admin/refresh")
    then admin_refresh
    else if text_eq path (codes "/healthz")
    then healthz
    else if text_eq path (codes "/api/v1/display-state")
    then display_route
    else if text_eq path (codes "/api/v1/detail-state")
    then detail_route
    else if text_eq path (codes "/api/v1/full-state")
    then full_route
    else if text_eq path (codes "/api/v1/debug")
    then debug_route
    else index

-- currentConfig
unfoldable pub current_config : Server → Bridge → Config
current_config s b = if s.has_admin then b.manager.cfg else s.cfg

-- auth before a handler that changes nothing
unfoldable pub with_auth : Moment → Server → Request → Bridge → Response → Response
unfolding current_config
with_auth m s r b answer =
    if auth_passes s.mock (display_token m.world.getenv (current_config s b).server) r
    then answer
    else unauthorized

-- What adminAuth does once it has decided.
abbrev pub after_admission : Bridge → Response × Bridge → Admission → Response × Bridge
after_admission b next admitted = next
after_admission b next cross_origin = (cross_origin_rejected, b)
after_admission b next unauthenticated = (admin_required, b)

-- adminAuth before a handler
unfoldable pub with_admin_auth :
    Moment → Server → Request → Bridge → Response × Bridge → Response × Bridge
unfolding current_config
with_admin_auth m s r b next =
    after_admission b next
      (admin_auth m.url_host (admin_token m.world.getenv (current_config s b).server) r)

-- The guards that every admin handler but adminIndex begins with.
unfoldable pub post_only : Server → Request → Bridge → Response × Bridge → Response × Bridge
post_only s r b next =
    if not s.has_admin
    then (not_found, b)
    else if not (is_post r)
    then (method_not_allowed, b)
    else next

-- `if err := r.ParseForm(); err != nil { ... }`
unfoldable pub with_form : Request → Bridge → Response × Bridge → Response × Bridge
with_form r b next = elim r.parse_form [ some e ↦ (redirect_admin [] (some e), b) | none ↦ next ]

-- `err := ...; redirectAdmin(w, r, message, err)`
abbrev pub redirected : Text → Option Error × Bridge → Response × Bridge
redirected message (e, b) = (redirect_admin message e, b)

-- The admin handlers, without the check of adminAuth.
unfoldable pub handle_admin : Moment → Server → Request → Bridge → Route → Response × Bridge
unfolding post_only with_form
handle_admin m s r b settings = post_only s r b (
    with_form r b
      (redirected (codes "settings saved") (update_server m.world (server_update_from_form r) b)))
handle_admin m s r b proxmox = post_only s r b (
    with_form r b
      (redirected (codes "source saved") (upsert_source m.world (source_update_from_form r) b)))
handle_admin m s r b proxmox_test = post_only s r b (with_form r b (test_proxmox m r b, b))
handle_admin m s r b proxmox_fingerprint =
    post_only s r b (with_form r b (detect_fingerprint m r, b))
handle_admin m s r b proxmox_delete = post_only s r b (
    with_form r b
      (redirected (codes "source deleted") (delete_source m.world (r.post_value (codes "id")) b)))
handle_admin m s r b admin_refresh =
    post_only s r b (redirected (codes "refresh requested") (refresh_bridge m.world b))
handle_admin m s r b _ = (if s.has_admin then admin_index m r b else not_found, b)

unfoldable pub handle_route : Moment → Server → Request → Bridge → Route → Response × Bridge
unfolding with_auth with_admin_auth handle_admin
handle_route m s r b healthz = (health_answer s.mock, b)
handle_route m s r b display_route = (with_auth m s r b (display_state m b), b)
handle_route m s r b detail_route = (with_auth m s r b (detail_state m b), b)
handle_route m s r b full_route = (with_auth m s r b (full_state m b), b)
handle_route m s r b debug_route = (with_auth m s r b (debug m s b), b)
handle_route m s r b index =
    (index_page s.mock (cached_state m.now b.manager.cache) (metadata b.manager.cache), b)
handle_route m s r b other = with_admin_auth m s r b (handle_admin m s r b other)

-- ServeHTTP
unfoldable pub handle : Moment → Server → Request → Bridge → Response × Bridge
unfolding handle_route route
handle m s r b = handle_route m s r b (route r.path)

unfoldable pub handle_all : Server → List (Moment × Request) → Bridge → Bridge
unfolding handle
handle_all s [] b = b
handle_all s ((m, r) ∷ rest) b = handle_all s rest (handle m s r b).1
