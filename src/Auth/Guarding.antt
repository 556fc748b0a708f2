-- ===== src/Auth/Guarding.antt =====
-- What the middleware lets through, and that a validated configuration gives one.
use coriolis_logger.Common.{
  panic, Result, String, some, ◌≡◌, refl, ◌↔◌, ◌⊎◌, inl, inr, arith, ◌==◌, eq_iff, Bool-cases,
  Error, plain, authentication_disabled, ok, err, ok_of_is_ok, ok_injective, sym, wrapped, ◌⧺◌,
}
use coriolis_logger.Config.{
  Platform, KeystoneAuth, ApiServer, keystone_validate, api_server_validate,
}
use coriolis_logger.Config.Validity.{api_server_validate_sound}
use coriolis_logger.Http.{Request, ResponseWriter, new_writer, Connection, write_header, write}
use coriolis_logger.Auth.{
  Keystone, KeystoneContext, auth_token, authenticate, details_of, Handler, guard_handler,
  get_auth_middleware,
}

-- A request has a token that keystone answers with this context.
pub record HasToken (validate : Keystone) (req : Request) (context : KeystoneContext) : Type 0 where
  pub given : ¬ (auth_token req ≡ "")
  pub answered : validate (auth_token req) ≡ ok context

module _ (validate : Keystone) (cfg : KeystoneAuth) (req : Request) where
  -- Authenticate gives the request req2 exactly when keystone answers the nonempty token of the
  -- request with a context, and req2 is the request with the details of that context in it and
  -- otherwise unchanged.
  pub authenticate_iff :
      (req' : Request)
      → (authenticate validate cfg req ≡ ok req') ↔ (
          (context : KeystoneContext) × HasToken validate req context
          × (req' ≡ record req { auth_details = some (details_of cfg context) }))
  unfolding authenticate
  authenticate_iff req' = (
    λ h. elim (Bool-cases (auth_token req == "")) [
      | inl missing ↦ ground arith
      | inr there ↦
          let (context, answered) = ok_of_is_ok (validate (auth_token req)) (ground arith) in
          (
            context,
            record {
              given = λ e. cc (there, (eq_iff (auth_token req) "").1 e);
              answered = answered;
            },
            sym (ok_injective (rw (there, answered, authenticate) at h)),
          )
    ],
    λ (context, has, e). ground (arith, has.given, has.answered, e, eq_iff (auth_token req) ""),
  )

  unauthenticated :
      (auth_token req ≡ "") ⊎ ((e : Error) × (validate (auth_token req) ≡ err e))
      → (e : Error) × (authenticate validate cfg req ≡ err e)
  unfolding authenticate
  unauthenticated (inl missing) =
      (plain "missing token in headers", rw (missing, authenticate) refl)
  unauthenticated (inr (e, refused)) = elim (Bool-cases (auth_token req == "")) [
    | inl missing ↦ (plain "missing token in headers", rw (missing, authenticate) refl)
    | inr there ↦ (wrapped "authenticating token" e, rw (there, refused, authenticate) refl)
  ]

  pub authenticate-eq-panic :
      authenticate validate cfg req ≡ panic → validate (auth_token req) ≡ panic
  unfolding authenticate
  authenticate-eq-panic h = ground arith

  -- For a request without a token, or with one that keystone answers with an error, the middleware
  -- answers a fresh writer with the status 403, and the answer is the same for every handler
  -- behind it.
  guard_handler_refuses :
      {A : Type 0} (answer : Result ResponseWriter → A) (error_text : Error → String)
      (net : Connection)
      → (auth_token req ≡ "") ⊎ ((e : Error) × (validate (auth_token req) ≡ err e))
      → (w : ResponseWriter) × (w.status ≡ some 403)
        × ((inner : Handler A)
            → guard_handler answer error_text net (authenticate validate cfg) inner req new_writer
              ≡ answer (ok w))
  unfolding guard_handler write write_header
  guard_handler_refuses answer error_text net h =
      let (e, failed) = unauthenticated h in
      (
        (write net ("Failed to authenticate: " ⧺ error_text e) (write_header 403 new_writer)).0,
        refl,
        λ inner. rw (failed, guard_handler) refl,
      )

-- For a configuration of the API server that passes Validate, GetAuthMiddleware gives the
-- authenticator of its keystone section or the error that authentication is disabled.
pub get_auth_middleware-api_server_validate :
    (p : Platform) (cfg : ApiServer)
    → api_server_validate p cfg ≡ ok tt
    → ((cfg.auth_middleware ≡ "keystone")
        × ((k : KeystoneAuth) × (cfg.keystone_auth ≡ some k) × (get_auth_middleware cfg ≡ ok k)))
      ⊎ ((cfg.auth_middleware ≡ "none") × (get_auth_middleware cfg ≡ err authentication_disabled))
unfolding get_auth_middleware keystone_validate
get_auth_middleware-api_server_validate p cfg h = elim ((api_server_validate_sound p cfg h).auth) [
  | inl (chosen, (k, there, uri)) ↦ inl (
    chosen,
    (k, there, rw (chosen, there, get_auth_middleware) (ground (arith, eq_iff k.auth_uri ""))),
  )
  | inr off ↦ inr (off, rw (off, get_auth_middleware) refl)
]
