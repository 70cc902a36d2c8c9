-- ===== src/Server/Reveals.antt =====
-- Which requests get the collected state in JSON (apps/bridge/internal/server/server.go).
use proxmox_desk_display.Server.{Request, auth_passes, bearer, admin_auth, is_post}
use proxmox_desk_display.Server.Access.{auth_passes_iff}
use proxmox_desk_display.Server.Handlers.{
  Server, Response, Moment, display_answer, detail_answer, full_answer, debug_answer,
  redirect_admin, redirect_with_draft, test_proxmox, detect_fingerprint, admin_index, not_found,
  unauthorized,
}
use proxmox_desk_display.Server.Routes.{
  Route, handle, handle_route, handle_admin, current_config, with_auth, with_admin_auth,
  after_admission, post_only, with_form, route, settings, proxmox, proxmox_test,
  proxmox_fingerprint, proxmox_delete, admin_refresh, admin_page_route, healthz, display_route,
  detail_route, full_route, debug_route, index,
}
use proxmox_desk_display.Server.{Admission, admitted, cross_origin, unauthenticated}
use proxmox_desk_display.Config.{display_token, admin_token}
use proxmox_desk_display.Base.{
  [], some, none, true, false, refl, inl, inr, ◌≡◌, Bool, Option, Bool-cases, Option-cases,
  if◌then◌else◌, false-ne-true, ◌≢◌, sym, ◌++◌, ◌∙◌,
}
use proxmox_desk_display.Base.Text.{Text, codes}
use proxmox_desk_display.Runtime.Manager.{Bridge}
use proxmox_desk_display.Errors.{Result-cases, Error}
use proxmox_desk_display.Runtime.Diagnostics.{test_source}
use proxmox_desk_display.Server.Forms.{source_update_from_form}

-- The answer is the collected state, as one of the four API routes gives it.
abbrev pub is_state : Response → Bool
is_state (display_answer s) = true
is_state (detail_answer s) = true
is_state (full_answer s) = true
is_state (debug_answer mock c s) = true
is_state _ = false

redirect_admin-no_state :
    (message : Text) (e : Option Error) → is_state (redirect_admin message e) ≡ false
unfolding redirect_admin
redirect_admin-no_state message none = refl
redirect_admin-no_state message (some e) = refl

redirect_with_draft-no_state :
    (r : Request) (message : Text) (e : Option Error) (f : Text)
    → is_state (redirect_with_draft r message e f) ≡ false
unfolding redirect_with_draft
redirect_with_draft-no_state r message e f = refl

module _ (m : Moment) (s : Server) (r : Request) (b : Bridge) where
  post_only-no_state :
      (x : Response × Bridge) → is_state x.0 ≡ false → is_state (post_only s r b x).0 ≡ false
  unfolding post_only
  post_only-no_state x h = elim (Bool-cases s.has_admin) [
    | inl p ↦ elim (Bool-cases (is_post r)) [ inl q ↦ rw (p, q) h | inr q ↦ rw (p, q) refl ]
    | inr p ↦ rw p refl
  ]

  with_form-no_state :
      (x : Response × Bridge)
      → is_state x.0 ≡ false
      → is_state (post_only s r b (with_form r b x)).0 ≡ false
  unfolding with_form
  with_form-no_state x h = post_only-no_state (with_form r b x) (elim (Option-cases r.parse_form) [
    | inl p ↦ rw p h
    | inr (e, p) ↦ rw p (redirect_admin-no_state [] (some e))
  ])

  test_proxmox-no_state : is_state (test_proxmox m r b) ≡ false
  unfolding test_proxmox redirect_with_draft
  test_proxmox-no_state =
      elim (Result-cases (test_source m.world m.network (source_update_from_form r) b)) [
        | inl (e, p) ↦ rw (p, is_state) refl
        | inr (d, p) ↦ rw (p, is_state) refl
      ]

  detect_fingerprint-no_state : is_state (detect_fingerprint m r) ≡ false
  unfolding detect_fingerprint redirect_with_draft
  detect_fingerprint-no_state =
      elim (Result-cases (m.network.detect (r.post_value (codes "base_url")))) [
        | inl (e, p) ↦ rw (p, is_state) refl
        | inr (d, p) ↦ rw (p, is_state) refl
      ]

  admin_page-no_state : is_state (if s.has_admin then admin_index m r b else not_found) ≡ false
  unfolding admin_index
  admin_page-no_state = elim (Bool-cases s.has_admin) [ inl p ↦ rw p refl | inr p ↦ rw p refl ]

  handle_admin-no_state : (o : Route) → is_state (handle_admin m s r b o).0 ≡ false
  unfolding handle_admin
  handle_admin-no_state settings = with_form-no_state _ (redirect_admin-no_state _ _)
  handle_admin-no_state proxmox = with_form-no_state _ (redirect_admin-no_state _ _)
  handle_admin-no_state proxmox_delete = with_form-no_state _ (redirect_admin-no_state _ _)
  handle_admin-no_state admin_refresh = post_only-no_state _ (redirect_admin-no_state _ _)
  handle_admin-no_state proxmox_test = with_form-no_state _ test_proxmox-no_state
  handle_admin-no_state proxmox_fingerprint = with_form-no_state _ detect_fingerprint-no_state
  handle_admin-no_state admin_page_route = admin_page-no_state
  handle_admin-no_state healthz = admin_page-no_state
  handle_admin-no_state display_route = admin_page-no_state
  handle_admin-no_state detail_route = admin_page-no_state
  handle_admin-no_state full_route = admin_page-no_state
  handle_admin-no_state debug_route = admin_page-no_state
  handle_admin-no_state index = admin_page-no_state

  with_admin_auth-no_state :
      (o : Route) → is_state (with_admin_auth m s r b (handle_admin m s r b o)).0 ≡ false
  unfolding with_admin_auth
  with_admin_auth-no_state o =
      go (admin_auth m.url_host (admin_token m.world.getenv (current_config s b).server) r)
    where
      go : (a : Admission) → is_state (after_admission b (handle_admin m s r b o) a).0 ≡ false
      go admitted = handle_admin-no_state o
      go cross_origin = refl
      go unauthenticated = refl

  with_auth-passes :
      (x : Response)
      → is_state (with_auth m s r b x) ≡ true
      → auth_passes s.mock (display_token m.world.getenv (current_config s b).server) r ≡ true
  unfolding with_auth
  with_auth-passes x h = go _ h
    where
      go : (a : Bool) → is_state (if a then x else unauthorized) ≡ true → a ≡ true
      go true k = refl
      go false k = absurd (false-ne-true k)

  handle_route-passes :
      (o : Route)
      → is_state (handle_route m s r b o).0 ≡ true
      → auth_passes s.mock (display_token m.world.getenv (current_config s b).server) r ≡ true
  unfolding handle_route
  handle_route-passes display_route h = with_auth-passes _ h
  handle_route-passes detail_route h = with_auth-passes _ h
  handle_route-passes full_route h = with_auth-passes _ h
  handle_route-passes debug_route h = with_auth-passes _ h
  handle_route-passes healthz h = absurd (false-ne-true h)
  handle_route-passes index h = absurd (false-ne-true h)
  handle_route-passes settings h =
      absurd (false-ne-true (sym (with_admin_auth-no_state settings) ∙ h))
  handle_route-passes proxmox h =
      absurd (false-ne-true (sym (with_admin_auth-no_state proxmox) ∙ h))
  handle_route-passes proxmox_delete h =
      absurd (false-ne-true (sym (with_admin_auth-no_state proxmox_delete) ∙ h))
  handle_route-passes admin_refresh h =
      absurd (false-ne-true (sym (with_admin_auth-no_state admin_refresh) ∙ h))
  handle_route-passes proxmox_test h =
      absurd (false-ne-true (sym (with_admin_auth-no_state proxmox_test) ∙ h))
  handle_route-passes proxmox_fingerprint h =
      absurd (false-ne-true (sym (with_admin_auth-no_state proxmox_fingerprint) ∙ h))
  handle_route-passes admin_page_route h =
      absurd (false-ne-true (sym (with_admin_auth-no_state admin_page_route) ∙ h))

  -- Outside mock mode an answer holds the collected state in JSON only if the display token is not
  -- empty and the request has the header "Bearer " with it, whatever the path.
  pub handle-needs_token :
      s.mock ≡ false
      → is_state (handle m s r b).0 ≡ true
      → (display_token m.world.getenv (current_config s b).server ≢ [])
        × (r.authorization ≡ bearer ++ display_token m.world.getenv (current_config s b).server)
  unfolding handle
  handle-needs_token real h =
      elim ((auth_passes_iff s.mock (display_token m.world.getenv (current_config s b).server) r).0
        (handle_route-passes (route r.path) h)) [
          | inl (mock, e) ↦ absurd (false-ne-true (sym real ∙ mock))
          | inr p ↦ p
        ]
