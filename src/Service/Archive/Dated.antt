-- ===== src/Service/Archive/Dated.antt =====
-- A download with dates over the routes of the API server.
mod Tests
use mathlib.Core.List.{Memᴰ}
use coriolis_logger.Common.{
  ℕ, suc, ◌<◌, ◌≡◌, ◌≢◌, ap, ◌∙◌, String, Option, none, some, Error, List, [], map, All, length, ok,
}
use coriolis_logger.Config.{KeystoneAuth, ApiServer}
use coriolis_logger.Influxdb.{Store, flush, list}
use coriolis_logger.Influxdb.Client.{Library}
use coriolis_logger.Influxdb.Calls.{Call, run, accepted}
use coriolis_logger.Influxdb.Logged.{logged_within}
use coriolis_logger.Influxdb.Query.Conditions.{conditions}
use coriolis_logger.Influxdb.Conservation.Stored.{IsQuiet}
use coriolis_logger.Influxdb.Reader.{Reader, result_reader}
use coriolis_logger.Influxdb.Reader.Lines.{lines}
use coriolis_logger.Http.{Request, get, ResponseWriter, new_writer, IsReliable}
use coriolis_logger.Auth.{Keystone, KeystoneContext}
use coriolis_logger.Auth.Guarding.{HasToken}
use coriolis_logger.Controllers
use coriolis_logger.Controllers.{query_params, timestamp_to_time}
use coriolis_logger.Controllers.Transfer.{IsWorking}
use coriolis_logger.Controllers.LogDownload.{read_store, Answers}
use coriolis_logger.Api.Routing.{log_file, Route, Router, Site, serve, handler_of, from_download}
use coriolis_logger.Api.Routing.Admission.{as_user, as_user-can_access}
use coriolis_logger.Service.Archive.{IsChronological, named, is_within, Database, IsAnswered}
use coriolis_logger.Service.Archive.Served.{over_store, download-served}
use coriolis_logger.Service.Archive.Downloaded.{IsInRange, dated-downloaded}

module _ (lib : Library) (db : Database lib) (http : Controllers.Library) (size : String → ℕ)
    (reliable : IsReliable http.connection) (working : IsWorking http.disk size)
    (keystone : Keystone) (error_text : Error → String)
    (matches : List Route → Request → Option (Route × List (String × String)))
    (not_found : ResponseWriter → ResponseWriter) where
  -- Over a server of InfluxDB that answers the query for the measurement of the named log under
  -- the conditions of the request, whenever the times of its points grow, with the messages of
  -- those points that meet the conditions, a fresh store, and any sequence of writes, first reads
  -- and events of the loop without a rotation, after which a flush succeeds and those times do
  -- grow: a request whose path leads to the download of a named log, whose dates are absent or
  -- numbers of seconds within the range of UnixNano, and whose token keystone answers with an
  -- admin role, is answered by the router with the authenticator with the status 200, an
  -- attachment of that name, and the lines of exactly the messages of that application whose Write
  -- returned no error and the times of whose points lie within the dates that are given, both
  -- included, in the order of the calls, if the connection takes all that is written, the disk
  -- works, and there is more fuel than calls and one.
  pub dated-served :
      (calls : List Call) (s : Store lib) (router : Router) (cfg : ApiServer) (k : KeystoneAuth)
      (req : Request) (route : Route) (vars : List (String × String)) (context : KeystoneContext)
      (role : String) (fuel : ℕ)
      → s.points ≡ []
      → db.storage.stored s.server ≡ []
      → All (IsQuiet lib db.storage) calls
      → (flush lib (run lib calls s)).1 ≡ ok tt
      → IsChronological
          (map db.time (named lib db.measurement (get "log" vars) (accepted lib calls s)))
      → router.authenticator ≡ some k
      → matches router.routes req ≡ some (route, vars)
      → route.endpoint ≡ log_file
      → HasToken keystone req context
      → Memᴰ role context.roles
      → Memᴰ role k.admin_roles
      → get "log" vars ≢ ""
      → (timestamp_to_time (get "start_date" req.query)).1 ≡ none
      → (timestamp_to_time (get "end_date" req.query)).1 ≡ none
      → IsInRange (query_params req)
      → IsAnswered lib db (get "log" vars) (conditions (query_params req))
      → suc (length calls) < fuel
      → (w : ResponseWriter) × (serve
            (over_store lib http keystone error_text matches not_found (run lib calls s))
            cfg
            fuel
            router
            req
            new_writer
          ≡ some (ok (w, none)))
        × Answers
            (get "log" vars)
            (lines (logged_within lib (get "log" vars) (is_within (query_params req)) calls s))
            w
  unfolding query_params
  dated-served calls s router cfg k req route vars context role fuel no_points fresh quiet flushed
        ordered guarded found file has held listed given start end range answered enough =
      let admin = as_user-can_access k context vars req role held listed in
      let (w, downloaded, answers) =
        dated-downloaded lib db http size reliable working calls s (as_user k context vars req) fuel
          no_points fresh quiet flushed ordered admin
          (record { named = given; start = start; end = end })
          (record { start = range.start; end = range.end }) answered enough in
      (
        w,
        download-served lib db http size reliable working keystone error_text matches not_found
            (run lib calls s) router cfg k req route vars context role fuel w guarded found file has
            held listed downloaded,
        answers,
      )
