-- ===== src/Server/Effects.antt =====
-- What a request changes and reveals (apps/bridge/internal/server/server.go).
use proxmox_desk_display.Server.{
  Request, admin_auth, admitted, cross_origin, unauthenticated, is_post, Admission,
}
use proxmox_desk_display.Server.Handlers.{Server, Response, Moment}
use proxmox_desk_display.Server.Routes.{
  Route, handle, handle_route, handle_admin, handle_all, current_config, with_admin_auth, post_only,
  with_form, route, settings, proxmox, proxmox_test, proxmox_fingerprint, proxmox_delete,
  admin_refresh, admin_page_route, healthz, display_route, detail_route, full_route, debug_route,
  index, after_admission,
}
use proxmox_desk_display.Runtime.Operations.{
  Operation, updating, upserting, deleting, refreshing, run,
}
use proxmox_desk_display.Runtime.Operations.Invariant.{IsSound, run-IsSound}
use proxmox_desk_display.Config.{admin_token}
use proxmox_desk_display.Base.{
  [], ◌∷◌, true, refl, inl, inr, ◌≡◌, List, Bool-cases, Option-cases, ◌∙◌, ◌⊎◌,
}
use proxmox_desk_display.Runtime.Manager.{Bridge}
use proxmox_desk_display.Server.Forms.{server_update_from_form, source_update_from_form}
use proxmox_desk_display.Base.Text.{codes}

-- What a request does to the bridge: nothing, or, for an admitted POST, one of the operations.
pub data Effect (m : Moment) (s : Server) (r : Request) (b b' : Bridge) : Type 0 where
  nothing : b' ≡ b → Effect m s r b b'
  operates :
      (op : Operation)
      → is_post r ≡ true
      → s.has_admin ≡ true
      → admin_auth m.url_host (admin_token m.world.getenv (current_config s b).server) r ≡ admitted
      → b' ≡ (run m.world op b).1
      → Effect m s r b b'

-- The effect of an admin handler, before adminAuth.
data Admin (m : Moment) (s : Server) (r : Request) (b b' : Bridge) : Type 0 where
  idle : b' ≡ b → Admin m s r b b'
  acts :
      (op : Operation)
      → is_post r ≡ true
      → s.has_admin ≡ true
      → b' ≡ (run m.world op b).1
      → Admin m s r b b'

module _ (m : Moment) (s : Server) (r : Request) (b : Bridge) where
  post_only-cases :
      (x : Response × Bridge)
      → ((post_only s r b x).1 ≡ b)
        ⊎ ((s.has_admin ≡ true) × (is_post r ≡ true) × ((post_only s r b x).1 ≡ x.1))
  unfolding post_only
  post_only-cases x = elim (Bool-cases s.has_admin) [
    | inl p ↦ elim (Bool-cases (is_post r)) [
      | inl q ↦ inr (p, q, rw (p, q) refl)
      | inr q ↦ inl (rw (p, q) refl)
    ]
    | inr p ↦ inl (rw p refl)
  ]

  post_only-Admin :
      (x : Response × Bridge)
      → ((b' : Bridge) → (is_post r ≡ true) → (s.has_admin ≡ true) → b' ≡ x.1 → Admin m s r b b')
      → Admin m s r b (post_only s r b x).1
  post_only-Admin x next = elim (post_only-cases x) [
    | inl e ↦ idle e
    | inr (p, q, e) ↦ next (post_only s r b x).1 q p e
  ]

  with_form-acts :
      (x : Response × Bridge) (op : Operation)
      → x.1 ≡ (run m.world op b).1
      → Admin m s r b (post_only s r b (with_form r b x)).1
  unfolding with_form
  with_form-acts x op same = post_only-Admin (with_form r b x) (λ b' p q e.
      elim (Option-cases r.parse_form) [
        | inl n ↦ acts op p q (e ∙ rw n same)
        | inr (f, n) ↦ idle (e ∙ rw n refl)
      ])

  with_form-idle : (x : Response) → Admin m s r b (post_only s r b (with_form r b (x, b))).1
  unfolding with_form
  with_form-idle x = post_only-Admin (with_form r b (x, b)) (λ b' p q e.
      elim (Option-cases r.parse_form) [
        | inl n ↦ idle (e ∙ rw n refl)
        | inr (f, n) ↦ idle (e ∙ rw n refl)
      ])

  handle_admin-Admin : (o : Route) → Admin m s r b (handle_admin m s r b o).1
  unfolding handle_admin run
  handle_admin-Admin settings = with_form-acts _ (updating (server_update_from_form r)) refl
  handle_admin-Admin proxmox = with_form-acts _ (upserting (source_update_from_form r)) refl
  handle_admin-Admin proxmox_delete = with_form-acts _ (deleting (r.post_value (codes "id"))) refl
  handle_admin-Admin admin_refresh = post_only-Admin _ (λ b' p q e. acts refreshing p q e)
  handle_admin-Admin proxmox_test = with_form-idle _
  handle_admin-Admin proxmox_fingerprint = with_form-idle _
  handle_admin-Admin admin_page_route = idle refl
  handle_admin-Admin healthz = idle refl
  handle_admin-Admin display_route = idle refl
  handle_admin-Admin detail_route = idle refl
  handle_admin-Admin full_route = idle refl
  handle_admin-Admin debug_route = idle refl
  handle_admin-Admin index = idle refl

  with_admin_auth-Effect :
      (o : Route) → Effect m s r b (with_admin_auth m s r b (handle_admin m s r b o)).1
  unfolding with_admin_auth
  with_admin_auth-Effect o =
      go (admin_auth m.url_host (admin_token m.world.getenv (current_config s b).server) r) refl
    where
      x : Response × Bridge
      x = handle_admin m s r b o

      go :
          (a : Admission)
          → admin_auth m.url_host (admin_token m.world.getenv (current_config s b).server) r ≡ a
          → Effect m s r b (after_admission b x a).1
      go admitted e = elim (handle_admin-Admin o) [
        | idle same ↦ nothing same
        | acts op p q same ↦ operates op p q e same
      ]
      go cross_origin e = nothing refl
      go unauthenticated e = nothing refl

  handle_route-Effect : (o : Route) → Effect m s r b (handle_route m s r b o).1
  unfolding handle_route
  handle_route-Effect settings = with_admin_auth-Effect settings
  handle_route-Effect proxmox = with_admin_auth-Effect proxmox
  handle_route-Effect proxmox_delete = with_admin_auth-Effect proxmox_delete
  handle_route-Effect admin_refresh = with_admin_auth-Effect admin_refresh
  handle_route-Effect proxmox_test = with_admin_auth-Effect proxmox_test
  handle_route-Effect proxmox_fingerprint = with_admin_auth-Effect proxmox_fingerprint
  handle_route-Effect admin_page_route = with_admin_auth-Effect admin_page_route
  handle_route-Effect healthz = nothing refl
  handle_route-Effect display_route = nothing refl
  handle_route-Effect detail_route = nothing refl
  handle_route-Effect full_route = nothing refl
  handle_route-Effect debug_route = nothing refl
  handle_route-Effect index = nothing refl

  -- A request changes nothing, or it is a POST that adminAuth admits, on a server with an admin page,
  -- and the change is that of one operation of the manager.
  pub handle-Effect : Effect m s r b (handle m s r b).1
  unfolding handle
  handle-Effect = handle_route-Effect (route r.path)

-- No sequence of requests, whatever they hold and whatever fails, takes a bridge whose sources have
-- distinct ids that are not empty and whose settings are in range and in order to one that is not so.
pub handle_all-IsSound :
    (s : Server) (requests : List (Moment × Request)) (b : Bridge)
    → IsSound b.manager.cfg
    → IsSound (handle_all s requests b).manager.cfg
unfolding handle_all
handle_all-IsSound s [] b sound = sound
handle_all-IsSound s ((m, r) ∷ rest) b sound =
    handle_all-IsSound s rest (handle m s r b).1 (kept (handle-Effect m s r b))
  where
    kept : {b' : Bridge} → Effect m s r b b' → IsSound b'.manager.cfg
    kept (nothing e) = rw e sound
    kept (operates op p q a e) = rw e (run-IsSound m.world op b sound)
