-- ===== src/Api/Routing/Access.antt =====
-- Who gets through to logs over the routes, with the middleware and without.
use coriolis_logger.Common.{
  ℕ, String, false, Option, none, some, List, ◌≡◌, ◌≢◌, refl, ap, ◌⊎◌, inl, inr, Bool-cases,
  Result-cases, ◌⧺◌, ok, panic,
}
use coriolis_logger.Config.{Platform, KeystoneAuth, ApiServer, api_server_validate}
use coriolis_logger.Http.{Request, ResponseWriter, new_writer, write, write_header}
use coriolis_logger.Auth.{Keystone, auth_token, authenticate, guard_handler}
use coriolis_logger.Auth.Guarding.{authenticate-eq-panic, get_auth_middleware-api_server_validate}
use coriolis_logger.Controllers.{can_access, new_log_handler}
use coriolis_logger.Controllers.Access.{
  IsAdmitted, authenticate-can_access_iff, handlers-can_access,
}
use coriolis_logger.Api.Routing.{
  Endpoint, ws, logs, log_file, Route, Router, Site, routes, get_router, handler_of,
  with_middleware, serve,
}

-- With the middleware, an admitted request; without it, none.
abbrev pub IsPermitted : Keystone → Option KeystoneAuth → Request → Type 0
IsPermitted keystone none req = ⊥
IsPermitted keystone (some k) req = IsAdmitted keystone k req

-- The variables of the path make no difference.
IsPermitted-vars :
    (keystone : Keystone) (auth : Option KeystoneAuth) (req : Request)
    (vars : List (String × String))
    → IsPermitted keystone auth (record req { vars = vars })
    → IsPermitted keystone auth req
unfolding auth_token
IsPermitted-vars keystone none req vars h = h
IsPermitted-vars keystone (some k) req vars (context, has, role) =
    (context, record { given = has.given; answered = has.answered }, role)

module _ {R : Type 0} (site : Site R) (cfg : ApiServer) (fuel : ℕ) where
  abbrev IsRefused : Option KeystoneAuth → Endpoint → Request → Type 0
  IsRefused auth endpoint req =
      (w : ResponseWriter) × (w.status ≡ some 403)
      × (with_middleware site cfg fuel auth (handler_of site cfg fuel endpoint) req new_writer
          ≡ some (ok (w, none)))

  refused_by_handler :
      (endpoint : Endpoint) (req : Request)
      → endpoint ≢ logs
      → can_access req ≡ false
      → (w : ResponseWriter) × (w.status ≡ some 403)
        × (handler_of site cfg fuel endpoint req new_writer ≡ some (ok (w, none)))
  unfolding handler_of
  refused_by_handler ws req other h =
      let (w, status, by_ws, by_download) =
        handlers-can_access {R = R} site.library (new_log_handler cfg) fuel req h in
      (w, status, ap (λ x. some (ok x)) by_ws)
  refused_by_handler logs req other h = absurd (other refl)
  refused_by_handler log_file req other h =
      let (w, status, by_ws, by_download) =
        handlers-can_access {R = R} site.library (new_log_handler cfg) fuel req h in
      (w, status, rw (by_download site.read_next site.result_reader) refl)

  refused :
      (auth : Option KeystoneAuth) (endpoint : Endpoint) (req : Request)
      → endpoint ≢ logs
      → req.auth_details ≡ none
      → site.keystone (auth_token req) ≢ panic
      → ¬ IsPermitted site.keystone auth req
      → IsRefused auth endpoint req
  unfolding with_middleware guard_handler can_access write write_header
  refused none endpoint req other fresh sound h =
      refused_by_handler endpoint req other (rw (fresh, can_access) refl)
  refused (some k) endpoint req other fresh sound h =
      elim (Result-cases (authenticate site.keystone k req)) [
        | inl (req', passed) ↦ elim (Bool-cases (can_access req')) [
          | inl admin ↦
              absurd (h ((authenticate-can_access_iff site.keystone k req).0 (req', passed, admin)))
          | inr plain_user ↦
              let (w, status, same) = refused_by_handler endpoint req' other plain_user in
              (w, status, rw (passed, guard_handler) same)
        ]
        | inr (inl (e, failed)) ↦ (
          (write site.library.connection ("Failed to authenticate: " ⧺ site.error_text e)
              (write_header 403 new_writer)).0,
          refl,
          rw (failed, guard_handler) refl,
        )
        | inr (inr crashed) ↦ absurd (sound (authenticate-eq-panic site.keystone k req crashed))
      ]

  -- If a route to the websocket or to a log fits a request that carries no details of a user,
  -- keystone does not panic on its token, and the request is not permitted, which it never is
  -- without the middleware and with it only for the token of an admin, then a fresh writer is
  -- answered with the status 403 and no client is registered.
  pub serve-refused :
      (router : Router) (req : Request) (route : Route) (vars : List (String × String))
      → site.matches router.routes req ≡ some (route, vars)
      → route.endpoint ≢ logs
      → req.auth_details ≡ none
      → site.keystone (auth_token req) ≢ panic
      → ¬ IsPermitted site.keystone router.authenticator req
      → (w : ResponseWriter) × (w.status ≡ some 403)
        × (serve site cfg fuel router req new_writer ≡ some (ok (w, none)))
  unfolding serve auth_token
  serve-refused router req route vars found other fresh sound h =
      let (w, status, same) =
        refused router.authenticator route.endpoint (record req { vars = vars }) other fresh sound
          (λ p. h (IsPermitted-vars site.keystone router.authenticator req vars p)) in
      (w, status, rw (found, serve) same)

-- For an API server that passes Validate, GetRouter gives the four routes, behind the
-- authenticator of the keystone section if keystone is chosen, and without a middleware if none
-- is.
pub get_router-api_server_validate :
    (p : Platform) (cfg : ApiServer)
    → api_server_validate p cfg ≡ ok tt
    → (router : Router) × (get_router cfg ≡ ok router)
      × (router.routes ≡ routes)
      × (((cfg.auth_middleware ≡ "keystone")
            × ((k : KeystoneAuth) × (cfg.keystone_auth ≡ some k) × (router.authenticator ≡ some k)))
          ⊎ ((cfg.auth_middleware ≡ "none") × (router.authenticator ≡ none)))
unfolding get_router
get_router-api_server_validate p cfg valid =
    elim (get_auth_middleware-api_server_validate p cfg valid) [
      | inl (keystone, (k, section, e)) ↦ (
        record { routes = routes; authenticator = some k },
        rw (e, get_router) refl,
        refl,
        inl (keystone, (k, section, refl)),
      )
      | inr (chosen, e) ↦ (
        record { routes = routes; authenticator = none },
        rw (e, get_router) refl,
        refl,
        inr (chosen, refl),
      )
    ]
