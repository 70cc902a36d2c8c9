-- ===== src/Server/Tests.antt =====
-- Requests to a server on a concrete bridge.
use proxmox_desk_display.Cache.{cached_state}
use proxmox_desk_display.Server.Handlers.{full_state}
use proxmox_desk_display.Base.Text.{text_eq}
use proxmox_desk_display.Base.Text.{trim_prefix}
use proxmox_desk_display.Base.Text.{fold_rune}
use proxmox_desk_display.Base.Text.{has_prefix}
use proxmox_desk_display.Runtime.Tests.{world, bridge, bridge-IsSound}
use proxmox_desk_display.Server.{
  Request, auth_passes, admin_auth, admitted, cross_origin, bearer, UrlHost,
}
use proxmox_desk_display.Server.Handlers.{Server, Moment}
use proxmox_desk_display.Server.Routes.{handle, handle_all, current_config}
use proxmox_desk_display.Server.Effects.{Effect, handle-Effect, handle_all-IsSound}
use proxmox_desk_display.Server.Reveals.{is_state, handle-needs_token}
use proxmox_desk_display.Server.Origin.{IsOfSameOrigin}
use proxmox_desk_display.Server.Access.{admin_auth_iff}
use proxmox_desk_display.Base.Text.{codes}
use proxmox_desk_display.Runtime.Manager.{Bridge}
use proxmox_desk_display.Base.{[], ◌∷◌, some, none, true, false, refl, ◌≡◌, ◌↔◌, ◌⊎◌, ◌≢◌, ◌++◌}
use proxmox_desk_display.Errors.{ok}
use proxmox_desk_display.Base.Int.{pos}
use proxmox_desk_display.Runtime.Operations.Invariant.{IsSound}
use proxmox_desk_display.Cache.{refresh}
use proxmox_desk_display.Config.{display_token}
use proxmox_desk_display.Display.Finalize.{new_state}
use proxmox_desk_display.Config.Tests.{no_env}
use proxmox_desk_display.Provider.Diagnostics.{ApiNetwork}

abbrev network : ApiNetwork
network = record { detect = λ u. ok (codes "SHA256:00"); get_version = λ c. ok (codes "8.4", []) }

abbrev url_host : UrlHost
url_host u = some (codes "desk")

abbrev moment : Moment
moment = record { world = world; network = network; url_host = url_host; now = pos 9 }

abbrev server : Server
server = record { cfg = bridge.manager.cfg; mock = false; has_admin = true }

abbrev get_state : Request
get_state = record {
  path = codes "/api/v1/full-state";
  method = codes "GET";
  host = codes "desk:8765";
  authorization = codes "Bearer secret";
  origin = [];
  referer = [];
  basic_auth = none;
  parse_form = none;
  query = λ k. [];
  form_value = λ k. [];
  post_value = λ k. [];
}

-- A form of another site that deletes a source.
abbrev foreign_delete : Request
foreign_delete = record get_state {
  path = codes "/admin/proxmox/delete";
  method = codes "POST";
  origin = codes "https://evil";
  post_value = λ k. codes "home";
}

abbrev delete : Request
delete = record foreign_delete { origin = []; host = codes "desk" }

foreign_is_rejected : admin_auth url_host (codes "secret") foreign_delete ≡ cross_origin
unfolding admin_auth text_eq fold_rune
foreign_is_rejected = refl

delete_is_admitted : admin_auth url_host (codes "secret") delete ≡ admitted
unfolding admin_auth text_eq has_prefix trim_prefix
delete_is_admitted = refl

-- The same form from a page of the server, whose URL has another case.
abbrev own_delete : Request
own_delete = record delete { origin = codes "https://desk/"; host = codes "DeSK" }

own_delete_is_admitted : admin_auth url_host [] own_delete ≡ admitted
unfolding admin_auth fold_rune text_eq
own_delete_is_admitted = refl

admin_auth_iff_example : (admin_auth url_host (codes "secret") own_delete ≡ admitted) ↔ (
    ((own_delete.method ≢ codes "POST") ⊎ IsOfSameOrigin url_host own_delete)
    × ((codes "secret" ≡ [])
        ⊎ (own_delete.authorization ≡ bearer ++ codes "secret")
        ⊎ (own_delete.basic_auth ≡ some (codes "admin", codes "secret"))))
admin_auth_iff_example = admin_auth_iff url_host (codes "secret") own_delete

handle-Effect_example : Effect moment server delete bridge (handle moment server delete bridge).1
handle-Effect_example = handle-Effect moment server delete bridge

handle_all-IsSound_example :
    IsSound (handle_all server ((moment, delete) ∷ (moment, get_state) ∷ []) bridge).manager.cfg
handle_all-IsSound_example =
    handle_all-IsSound server ((moment, delete) ∷ (moment, get_state) ∷ []) bridge bridge-IsSound

-- The bridge after a first refresh, with a display token.
abbrev fed : Bridge
fed = record bridge {
  manager = record bridge.manager {
    cfg = record bridge.manager.cfg {
      server = record bridge.manager.cfg.server { display_token_value = codes "secret" };
    };
    cache = (refresh (ok (new_state (pos 7))) (pos 9) bridge.manager.cache).1;
  };
}

state_is_served : is_state (handle moment server get_state fed).0 ≡ true
unfolding handle text_eq auth_passes has_prefix trim_prefix display_token full_state cached_state
    refresh
state_is_served = refl

handle-needs_token_example :
    (display_token no_env (current_config server fed).server ≢ [])
    × (get_state.authorization ≡ bearer ++ display_token no_env (current_config server fed).server)
handle-needs_token_example = handle-needs_token moment server get_state fed refl state_is_served
