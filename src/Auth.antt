-- ===== src/Auth.antt =====
-- apiserver/auth: the keystone authenticator, the middleware, and which of them a configuration
-- gives. The keystone library is the parameter `validate`, which answers a token.
pub mod Token
pub mod Guarding
pub mod Tests
use coriolis_logger.Common.{
  String, Bool, true, false, Option, none, some, List, [], ◌∷◌, if◌then◌else◌, ◌==◌, ◌⧺◌, Error,
  plain, about, wrapped, authentication_disabled, Result, ok, err, panic, ◌>>=◌, ◌>>◌, wrap, ℕ, all,
  is_some, ◌||◌,
}
use coriolis_logger.Clock.{Time}
use coriolis_logger.Config.{
  KeystoneAuth, ApiServer, keystone_validate, authentication_keystone, authentication_none,
}
use coriolis_logger.Http.{
  AuthDetails, Request, get, ResponseWriter, Connection, write_header, write, status_forbidden,
}

-- What keystone knows of a token: its user, the names of its roles, and when it ends.
pub record KeystoneContext : Type 0 where
  pub user_id : String
  pub roles : List String
  pub expires_at : Time

abbrev pub Keystone : Type 0
Keystone = String → Result KeystoneContext

-- The token of a request: the header's, or else the one in the query of a keystone request.
unfoldable pub auth_token : Request → String
auth_token req =
    let header = get "X-Auth-Token" req.headers in
    if header == ""
    then (if get "auth_type" req.query == authentication_keystone
        then get "auth_token" req.query
        else "")
    else header

-- `rolesAsMap` over the roles of the configuration, and a lookup in it.
unfoldable pub roles_as_map : List String → List (String × Bool)
roles_as_map [] = []
roles_as_map (role ∷ roles) = (role, true) ∷ roles_as_map roles

unfoldable pub in_roles : String → List (String × Bool) → Bool
in_roles name [] = false
in_roles name ((role, b) ∷ roles) = role == name || in_roles name roles

-- The loop over the roles of the token, which ends at the first admin role.
unfoldable pub has_admin_role : List (String × Bool) → List String → Bool
has_admin_role admin [] = false
has_admin_role admin (name ∷ names) =
    let rest = has_admin_role admin names in if in_roles name admin then true else rest

unfoldable pub details_of : KeystoneAuth → KeystoneContext → AuthDetails
details_of cfg context = record {
  user_id = context.user_id;
  is_admin = has_admin_role (roles_as_map cfg.admin_roles) context.roles;
  expires_at = context.expires_at;
}

-- `Authenticate`: the request with the details in its context.
unfoldable pub authenticate : Keystone → KeystoneAuth → Request → Result Request
authenticate validate cfg req =
    let token = auth_token req in
    if token == ""
    then err (plain "missing token in headers")
    else (wrap "authenticating token" (validate token) >>= λ context.
        ok (record req { auth_details = some (details_of cfg context) }))

-- A handler with answers of a type of its own.
abbrev pub Handler : Type 0 → Type 0
Handler A = Request → ResponseWriter → A

-- `ServeHTTP` of the middleware; `error_text` prints an error, and `answer` makes an answer of what
-- becomes of the writer.
unfoldable pub guard_handler :
    {A : Type 0}
    → (Result ResponseWriter → A)
    → (Error → String)
    → Connection
    → (Request → Result Request)
    → Handler A
    → Handler A
guard_handler answer error_text net auth inner req w = elim (auth req) [
  | ok req' ↦ inner req' w
  | err e ↦ answer (
      ok
        (write net ("Failed to authenticate: " ⧺ error_text e) (write_header status_forbidden w)).0)
  | panic ↦ answer panic
]

-- `GetAuthMiddleware`: the configuration of the authenticator. A nil configuration of keystone is
-- dereferenced.
unfoldable pub get_auth_middleware : ApiServer → Result KeystoneAuth
get_auth_middleware cfg =
    if cfg.auth_middleware == authentication_keystone
    then elim cfg.keystone_auth [
      | none ↦ panic
      | some k ↦
          wrap "getting keystone authenticator"
            (wrap "validating keystone config" (keystone_validate k))
          >> ok k
    ]
    else if cfg.auth_middleware == authentication_none
    then err authentication_disabled
    else err (about "could not find authentication middleware" cfg.auth_middleware)
