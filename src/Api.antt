-- ===== src/Api.antt =====
-- apiserver/apiserver.go: the construction of the API server. Its listener belongs to the net package.
pub mod Routing
mod Tests
use coriolis_logger.Common.{
  String, Bool, Option, none, some, Error, about, if◌then◌else◌, ℤ, Result, ok, err, ◌>>=◌, ◌>>◌,
  wrap, ◌⧺◌,
}
use coriolis_logger.Decimal.{itoa}
use coriolis_logger.Config.{Platform, TlsConfig, ApiServer, tls_validate}
use Routing.{Router, get_router}

pub record Server (Listener : Type 0) : Type 0 where
  pub listener : Listener
  pub router : Router
  pub cfg : ApiServer

-- `GetAPIServer`; `listen` is net.Listen for TCP.
unfoldable pub get_api_server :
    {Listener : Type 0}
    → Platform
    → (String → Result Listener)
    → ApiServer
    → Result (Server Listener)
get_api_server p listen cfg = do
  router ← wrap "getting router" (get_router cfg)
  if cfg.use_tls then wrap "validating TLS config" (tls_validate p cfg.tls_config) else ok tt
  listener ← listen (cfg.bind ⧺ ":" ⧺ itoa cfg.port)
  ok (record { listener = listener; router = router; cfg = cfg })

-- The calls of http.Server: `Serve` and `ServeTLS` return with an error, and `Shutdown` maybe with one.
record HttpServer (Listener : Type 0) : Type 0 where
  serve : Listener → Error
  serve_tls : Listener → String → String → Error
  shutdown : Option Error

-- The goroutine of `Start`: the error with which it ends the process, by log.Fatal.
unfoldable start : {Listener : Type 0} → HttpServer Listener → Server Listener → Error
start http h =
    if h.cfg.use_tls
    then http.serve_tls h.listener h.cfg.tls_config.crt h.cfg.tls_config.key
    else http.serve h.listener

-- `Stop`; `error_text` is the text of an error.
unfoldable stop : {Listener : Type 0} → HttpServer Listener → (Error → String) → Option Error
stop http error_text = elim http.shutdown [
  | none ↦ none
  | some e ↦ some (about "failed to shutdown web server" (error_text e))
]
