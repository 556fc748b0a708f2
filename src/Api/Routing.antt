-- ===== src/Api/Routing.antt =====
-- apiserver/routers/routers.go: the routes, and what a request to them meets.
pub mod Access
pub mod Admission
use coriolis_logger.Common.{
  ℕ, String, Bool, Option, none, some, List, [], ◌∷◌, if◌then◌else◌, Error, wrapped,
  is_authentication_disabled, Result, ok, err, panic, ◌⧺◌,
}
use coriolis_logger.Config.{KeystoneAuth, ApiServer}
use coriolis_logger.Params.{QueryParams}
use coriolis_logger.Influxdb.{LogEntry}
use coriolis_logger.Websocket.{ClientFilterOptions}
use coriolis_logger.Http.{Request, ResponseWriter}
use coriolis_logger.Auth.{Keystone, authenticate, Handler, guard_handler, get_auth_middleware}
use coriolis_logger.Controllers
use coriolis_logger.Controllers.{
  new_log_handler, ws_handler, list_logs_handler, download_log_handler,
}

-- The handlers that routes lead to, in the order of `LogHandlers`.
pub data Endpoint : Type 0 where
  ws logs log_file : Endpoint

pub record Route : Type 0 where
  pub pattern : String
  pub method : String
  pub endpoint : Endpoint

abbrev get_route : String → Endpoint → Route
get_route pattern endpoint = record {
  pattern = "/api/v1" ⧺ pattern;
  method = "GET";
  endpoint = endpoint;
}

abbrev pub routes : List Route
routes =
    get_route "/{ws:ws\\/?}" ws
    ∷ get_route "/{logs:logs\\/?}" logs
    ∷ get_route "/logs/{log}" log_file
    ∷ get_route "/logs/{log}/" log_file
    ∷ []

-- The middleware is that of a keystone section, if there is one.
pub record Router : Type 0 where
  pub routes : List Route
  pub authenticator : Option KeystoneAuth

-- `GetRouter`
unfoldable pub get_router : ApiServer → Result Router
get_router cfg = elim (get_auth_middleware cfg) [
  | ok k ↦ ok (record { routes = routes; authenticator = some k })
  | err e ↦
      if is_authentication_disabled e
      then ok (record { routes = routes; authenticator = none })
      else err (wrapped "getting auth middleware" e)
  | panic ↦ panic
]

-- What stands behind the routes: `matches` is the matching of gorilla/mux, with the variables of the
-- path, and `not_found` its answer where no route fits. R is the type of the readers.
pub record Site (R : Type 0) : Type 0 where
  pub library : Controllers.Library
  pub keystone : Keystone
  pub error_text : Error → String
  pub matches : List Route → Request → Option (Route × List (String × String))
  pub not_found : ResponseWriter → ResponseWriter
  pub listing : Result (List LogEntry)
  pub read_next : R → R × Result String
  pub result_reader : QueryParams → R

-- The writer, and the options of a client that was registered; `none` as in a download.
abbrev pub Answer : Type 0
Answer = Option (Result (ResponseWriter × Option ClientFilterOptions))

abbrev pub no_client : Result ResponseWriter → Result (ResponseWriter × Option ClientFilterOptions)
no_client (ok w) = ok (w, none)
no_client (err e) = err e
no_client panic = panic

abbrev pub answered : Result ResponseWriter → Answer
answered r = some (no_client r)

abbrev pub from_download : Option (Result ResponseWriter) → Answer
from_download none = none
from_download (some r) = answered r

module _ {R : Type 0} (site : Site R) (cfg : ApiServer) (fuel : ℕ) where
  open site use {
    library, keystone, error_text, matches, not_found, listing, read_next, result_reader,
  }

  unfoldable pub handler_of : Endpoint → Handler Answer
  handler_of ws req w = some (ok (ws_handler library (new_log_handler cfg) req w))
  handler_of logs req w = answered (list_logs_handler library listing w)
  handler_of log_file req w =
      from_download (download_log_handler library read_next result_reader fuel req w)

  with_middleware : Option KeystoneAuth → Handler Answer → Handler Answer
  with_middleware none inner = inner
  with_middleware (some k) inner =
      guard_handler answered error_text library.connection (authenticate keystone k) inner

  -- A request, which meets the middleware only where a route fits.
  unfoldable pub serve : Router → Handler Answer
  unfolding handler_of with_middleware
  serve router req w = elim (matches router.routes req) [
    | none ↦ some (ok (not_found w, none))
    | some (route, vars) ↦
        with_middleware router.authenticator (handler_of route.endpoint)
          (record req { vars = vars }) w
  ]
