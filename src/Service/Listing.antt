-- ===== src/Service/Listing.antt =====
-- The listing of the logs over the API server.
mod Tests
use mathlib.Core.List.{Memᴰ}
use text.Mathlib.TextLemmas.{nil-append}
use coriolis_logger.Common.{ℕ, ◌≡◌, refl, ap, ◌∙◌, String, Option, none, some, Error, List, ok}
use coriolis_logger.Config.{KeystoneAuth, ApiServer}
use coriolis_logger.Influxdb.{Store, list}
use coriolis_logger.Influxdb.Client.{Library, Chunk}
use coriolis_logger.Influxdb.Listing.{Listed, entries, list-Listed}
use coriolis_logger.Http.{Request, ResponseWriter, new_writer, IsReliable, write, write_header}
use coriolis_logger.Auth.{Keystone, KeystoneContext}
use coriolis_logger.Auth.Guarding.{HasToken}
use coriolis_logger.Controllers
use coriolis_logger.Controllers.{list_answer, list_logs_handler}
use coriolis_logger.Api.Routing.{logs, Route, Router, serve, handler_of, answered}
use coriolis_logger.Api.Routing.Admission.{as_user, serve-admitted}
use coriolis_logger.Service.Archive.Served.{over_store}

module _ (lib : Library) (http : Controllers.Library) (reliable : IsReliable http.connection)
    (keystone : Keystone) (error_text : Error → String)
    (matches : List Route → Request → Option (Route × List (String × String)))
    (not_found : ResponseWriter → ResponseWriter) where
  -- The answer to a listing that did not fail.
  abbrev pub listed : String → ResponseWriter
  listed js = record new_writer { status = some 200; body = http.printf js }

  list_logs_handler-ok :
      (names : List String) (js : String)
      → http.marshal (some (entries names)) ≡ ok js
      → list_logs_handler http (ok (entries names)) new_writer ≡ ok (listed js)
  unfolding list_logs_handler list_answer write write_header
  list_logs_handler-ok names js marshalled =
      rw (marshalled, list_answer)
        (ap (λ (b : String). ok (record new_writer { status = some 200; body = b }))
          (ap (λ p. p.0) (reliable "" (http.printf js)) ∙ nil-append _))

  -- A request that fits the route of the listing of a router with the authenticator, and whose
  -- token keystone answers with an admin role, is answered over a store with the status 200 and
  -- the JSON of exactly the names in the first cells of all rows, in order, as the text of a
  -- format without operands, if the server answers the query for the measurements with responses
  -- without an error whose rows are blank or begin with a name, up to the end of the stream, if
  -- this JSON can be made, and if the connection takes all that is written.
  pub serve-listed :
      (s : Store lib) (router : Router) (cfg : ApiServer) (k : KeystoneAuth) (req : Request)
      (route : Route) (vars : List (String × String)) (context : KeystoneContext) (role : String)
      (fuel : ℕ) (chunks : List Chunk) (names : List String) (js : String)
      → router.authenticator ≡ some k
      → matches router.routes req ≡ some (route, vars)
      → route.endpoint ≡ logs
      → HasToken keystone req context
      → Memᴰ role context.roles
      → Memᴰ role k.admin_roles
      → lib.query_as_chunk s.server "SHOW MEASUREMENTS" s.cfg.database 0 ≡ ok chunks
      → Listed chunks names
      → http.marshal (some (entries names)) ≡ ok js
      → serve
          (over_store lib http keystone error_text matches not_found s)
          cfg
          fuel
          router
          req
          new_writer
        ≡ some (ok (listed js, none))
  unfolding handler_of
  serve-listed s router cfg k req route vars context role fuel chunks names js guarded found to_logs
        has held admin answered_by has_names marshalled =
      let site = over_store lib http keystone error_text matches not_found s in
      let user = as_user k context vars req in
      (serve-admitted site cfg fuel router k req new_writer route vars context role guarded found
        has held admin).0
      ∙ ap (λ e. handler_of site cfg fuel e user new_writer) to_logs
      ∙ ap (λ l. answered (list_logs_handler http l new_writer))
          (list-Listed lib s chunks names answered_by has_names)
      ∙ ap answered (list_logs_handler-ok names js marshalled)
