-- ===== src/Api/Routing/Admission.antt =====
-- What a request with the token of an admin meets behind the middleware.
use mathlib.Core.List.{Memᴰ}
use coriolis_logger.Common.{ℕ, String, true, some, List, ◌≡◌, refl}
use coriolis_logger.Config.{KeystoneAuth, ApiServer}
use coriolis_logger.Http.{Request, ResponseWriter}
use coriolis_logger.Auth.{Keystone, KeystoneContext, auth_token, details_of, guard_handler}
use coriolis_logger.Auth.Token.{has_admin_role_iff}
use coriolis_logger.Auth.Guarding.{HasToken, authenticate_iff}
use coriolis_logger.Controllers.{can_access}
use coriolis_logger.Api.Routing.{Route, Router, Site, handler_of, with_middleware, serve}

-- The request as a handler sees it.
abbrev pub as_user : KeystoneAuth → KeystoneContext → List (String × String) → Request → Request
as_user k context vars req = record req { vars = vars; auth_details = some (details_of k context) }

-- The path of the route makes no difference to the token.
HasToken-vars :
    (site_keystone : Keystone) (req : Request) (vars : List (String × String))
    (context : KeystoneContext)
    → HasToken site_keystone req context
    → HasToken site_keystone (record req { vars = vars }) context
unfolding auth_token
HasToken-vars keystone req vars context has = record { given = has.given; answered = has.answered }

pub as_user-can_access :
    (k : KeystoneAuth) (context : KeystoneContext) (vars : List (String × String)) (req : Request)
    (role : String)
    → Memᴰ role context.roles
    → Memᴰ role k.admin_roles
    → can_access (as_user k context vars req) ≡ true
unfolding can_access details_of
as_user-can_access k context vars req role held listed =
    (has_admin_role_iff k.admin_roles context.roles).1 (role, held, listed)

module _ {R : Type 0} (site : Site R) (cfg : ApiServer) (fuel : ℕ) where
  -- A request that fits a route of a router with the authenticator, and whose token keystone
  -- answers with a context that has one of the configured admin roles, is answered as the handler
  -- of the route answers the request with the variables of its path and the details of that
  -- context, which pass the access check.
  pub serve-admitted :
      (router : Router) (k : KeystoneAuth) (req : Request) (w : ResponseWriter) (route : Route)
      (vars : List (String × String)) (context : KeystoneContext) (role : String)
      → router.authenticator ≡ some k
      → site.matches router.routes req ≡ some (route, vars)
      → HasToken site.keystone req context
      → Memᴰ role context.roles
      → Memᴰ role k.admin_roles
      → (serve site cfg fuel router req w
          ≡ handler_of site cfg fuel route.endpoint (as_user k context vars req) w)
        × (can_access (as_user k context vars req) ≡ true)
  unfolding serve with_middleware guard_handler
  serve-admitted router k req w route vars context role guarded found has held listed =
      let passed =
        (authenticate_iff site.keystone k (record req { vars = vars })
            (as_user k context vars req)).1
          (context, HasToken-vars site.keystone req vars context has, refl) in
      (
        rw (found, guarded, passed, serve, with_middleware, guard_handler) refl,
        as_user-can_access k context vars req role held listed,
      )
