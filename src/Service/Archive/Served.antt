-- ===== src/Service/Archive/Served.antt =====
-- The same over the routes of the API server.
use mathlib.Core.List.{Memᴰ}
use coriolis_logger.Common.{
  ℕ, suc, ◌<◌, ◌≡◌, ◌≢◌, ap, ◌∙◌, String, Option, none, some, Error, List, [], map, All, length, ok,
}
use coriolis_logger.Config.{KeystoneAuth, ApiServer}
use coriolis_logger.Influxdb.{Store, flush, list}
use coriolis_logger.Influxdb.Client.{Library}
use coriolis_logger.Influxdb.Calls.{Call, run, accepted}
use coriolis_logger.Influxdb.Logged.{logged}
use coriolis_logger.Influxdb.Conservation.Stored.{IsQuiet}
use coriolis_logger.Influxdb.Reader.{Reader, result_reader}
use coriolis_logger.Influxdb.Reader.Lines.{lines}
use coriolis_logger.Http.{Request, get, ResponseWriter, new_writer, IsReliable}
use coriolis_logger.Auth.{Keystone, KeystoneContext}
use coriolis_logger.Auth.Guarding.{HasToken}
use coriolis_logger.Controllers
use coriolis_logger.Controllers.{download_log_handler}
use coriolis_logger.Controllers.Transfer.{IsWorking}
use coriolis_logger.Controllers.LogDownload.{read_store, Answers}
use coriolis_logger.Api.Routing.{log_file, Route, Router, Site, serve, handler_of, from_download}
use coriolis_logger.Api.Routing.Admission.{as_user, as_user-can_access, serve-admitted}
use coriolis_logger.Service.Archive.{IsPlain, IsChronological, named, Database}
use coriolis_logger.Service.Archive.Downloaded.{logged-downloaded}

-- The site over a store.
abbrev pub over_store :
    (lib : Library)
    → Controllers.Library
    → Keystone
    → (Error → String)
    → (List Route → Request → Option (Route × List (String × String)))
    → (ResponseWriter → ResponseWriter)
    → Store lib
    → Site (Reader × Store lib)
over_store lib http keystone error_text matches not_found s = record {
  library = http;
  keystone = keystone;
  error_text = error_text;
  matches = matches;
  not_found = not_found;
  listing = list lib s;
  read_next = read_store lib;
  result_reader = λ params. (result_reader params, s);
}

module _ (lib : Library) (db : Database lib) (http : Controllers.Library) (size : String → ℕ)
    (reliable : IsReliable http.connection) (working : IsWorking http.disk size)
    (keystone : Keystone) (error_text : Error → String)
    (matches : List Route → Request → Option (Route × List (String × String)))
    (not_found : ResponseWriter → ResponseWriter) where
  -- A download as the routes answer it.
  pub download-served :
      (s : Store lib) (router : Router) (cfg : ApiServer) (k : KeystoneAuth) (req : Request)
      (route : Route) (vars : List (String × String)) (context : KeystoneContext) (role : String)
      (fuel : ℕ) (w : ResponseWriter)
      → router.authenticator ≡ some k
      → matches router.routes req ≡ some (route, vars)
      → route.endpoint ≡ log_file
      → HasToken keystone req context
      → Memᴰ role context.roles
      → Memᴰ role k.admin_roles
      → download_log_handler http
          (read_store lib)
          (λ params. (result_reader params, s))
          fuel
          (as_user k context vars req)
          new_writer
        ≡ some (ok w)
      → serve
          (over_store lib http keystone error_text matches not_found s)
          cfg
          fuel
          router
          req
          new_writer
        ≡ some (ok (w, none))
  unfolding handler_of
  download-served s router cfg k req route vars context role fuel w guarded found file has held
        listed downloaded =
      let site = over_store lib http keystone error_text matches not_found s in
      (serve-admitted site cfg fuel router k req new_writer route vars context role guarded found
        has held listed).0
      ∙ ap (λ e. handler_of site cfg fuel e (as_user k context vars req) new_writer) file
      ∙ ap from_download downloaded

  -- Over a server of InfluxDB that answers a query for a measurement, whose name needs no escape
  -- and whose points have growing times, with the messages of its points, a fresh store, and any
  -- sequence of writes, first reads and events of the loop without a rotation, after which a flush
  -- succeeds: a request without dates, whose path leads to the download of a named log and whose
  -- token keystone answers with an admin role, is answered by the router with the authenticator
  -- with the status 200, an attachment of that name, and the lines of exactly the messages of that
  -- application whose Write returned no error, in the order of the calls, if the connection takes
  -- all that is written, the disk works, and there is more fuel than calls and one.
  pub logged-served :
      (calls : List Call) (s : Store lib) (router : Router) (cfg : ApiServer) (k : KeystoneAuth)
      (req : Request) (route : Route) (vars : List (String × String)) (context : KeystoneContext)
      (role : String) (fuel : ℕ)
      → s.points ≡ []
      → db.storage.stored s.server ≡ []
      → All (IsQuiet lib db.storage) calls
      → (flush lib (run lib calls s)).1 ≡ ok tt
      → IsChronological
          (map db.time (named lib db.measurement (get "log" vars) (accepted lib calls s)))
      → router.authenticator ≡ some k
      → matches router.routes req ≡ some (route, vars)
      → route.endpoint ≡ log_file
      → HasToken keystone req context
      → Memᴰ role context.roles
      → Memᴰ role k.admin_roles
      → get "log" vars ≢ ""
      → IsPlain (get "log" vars)
      → get "start_date" req.query ≡ ""
      → get "end_date" req.query ≡ ""
      → suc (length calls) < fuel
      → (w : ResponseWriter) × (serve
            (over_store lib http keystone error_text matches not_found (run lib calls s))
            cfg
            fuel
            router
            req
            new_writer
          ≡ some (ok (w, none)))
        × Answers (get "log" vars) (lines (logged lib (get "log" vars) calls s)) w
  logged-served calls s router cfg k req route vars context role fuel no_points fresh quiet flushed
        ordered guarded found file has held listed given plain start end enough =
      let after = run lib calls s in
      let admin = as_user-can_access k context vars req role held listed in
      let (w, downloaded, answers) =
        logged-downloaded lib db http size reliable working calls s (as_user k context vars req)
          fuel no_points fresh quiet flushed ordered admin given plain start end enough in
      (
        w,
        download-served after router cfg k req route vars context role fuel w guarded found file has
            held listed downloaded,
        answers,
      )
