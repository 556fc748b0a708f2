-- ===== src/Controllers/Access.antt =====
-- Who gets to see logs: the access check behind the authenticator.
use mathlib.Core.List.{Memᴰ}
use coriolis_logger.Common.{
  ℕ, String, true, false, none, some, ◌≡◌, refl, sym, ap, ◌∙◌, ◌↔◌, Result, ok,
}
use coriolis_logger.Config.{KeystoneAuth}
use coriolis_logger.Params.{QueryParams}
use coriolis_logger.Http.{Request, ResponseWriter, new_writer, write_header, write}
use coriolis_logger.Auth.{Keystone, KeystoneContext, details_of, authenticate}
use coriolis_logger.Auth.Token.{has_admin_role_iff}
use coriolis_logger.Auth.Guarding.{HasToken, authenticate_iff}
use coriolis_logger.Controllers.{can_access, LogHandlers, Library, ws_handler, download_log_handler}

-- The request has a token whose roles have one of the configured admin roles among them.
abbrev pub IsAdmitted : Keystone → KeystoneAuth → Request → Type 0
IsAdmitted validate cfg req =
    (context : KeystoneContext) × HasToken validate req context
    × ((role : String) × Memᴰ role context.roles × Memᴰ role cfg.admin_roles)

-- A request is authenticated and then passes the access check of the handlers exactly when it has
-- a token that keystone answers with a role among the configured admin roles.
pub authenticate-can_access_iff :
    (validate : Keystone) (cfg : KeystoneAuth) (req : Request)
    → ((req' : Request) × (authenticate validate cfg req ≡ ok req') × (can_access req' ≡ true))
      ↔ IsAdmitted validate cfg req
unfolding can_access details_of
authenticate-can_access_iff validate cfg req = (
  λ (req', passed, admin).
      let (context, has, e) = (authenticate_iff validate cfg req req').0 passed in
      (
        context,
        has,
        (has_admin_role_iff cfg.admin_roles context.roles).0 (sym (ap can_access e) ∙ admin),
      ),
  λ (context, has, role). (
    record req { auth_details = some (details_of cfg context) },
    (authenticate_iff validate cfg req _).1 (context, has, refl),
    (has_admin_role_iff cfg.admin_roles context.roles).1 role,
  ),
)

-- Without access, the websocket handler registers no client and the download handler gives nothing
-- of the log: both answer a fresh writer with the status 403 and the same body, whatever the
-- reader would give.
pub handlers-can_access :
    {R : Type 0} (lib : Library) (l : LogHandlers) (fuel : ℕ) (req : Request)
    → can_access req ≡ false
    → (w : ResponseWriter) × (w.status ≡ some 403)
      × (ws_handler lib l req new_writer ≡ (w, none))
      × ((read_next : R → R × Result String) (result_reader : QueryParams → R)
          → download_log_handler lib read_next result_reader fuel req new_writer ≡ some (ok w))
unfolding ws_handler download_log_handler write write_header
handlers-can_access lib l fuel req h = (
  (write lib.connection "you need admin level access to view logs" (write_header 403 new_writer)).0,
  refl,
  rw (h, ws_handler) refl,
  λ read_next result_reader. rw (h, download_log_handler) refl,
)
