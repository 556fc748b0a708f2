-- ===== src/Service/Journey/Received.antt =====
-- The same with the worker that takes the messages and the router that answers.
use mathlib.Core.List.{Memᴰ, append-nil}
use coriolis_logger.Common.{
  ℕ, suc, ◌<◌, ◌≡◌, ◌≢◌, sym, ap, ◌∙◌, subst, String, Option, none, some, Error, List, [], map, All,
  length, ok,
}
use coriolis_logger.Clock.{Time}
use coriolis_logger.Logging.{LogMessage, LogParts}
use coriolis_logger.Logging.Fields.{IsWellTyped}
use coriolis_logger.Logging.Aggregate.{aggregate_write}
use coriolis_logger.Config.{Syslog, KeystoneAuth, ApiServer}
use coriolis_logger.SyslogWorker.{Server, Worker, parts, work, working}
use coriolis_logger.SyslogWorker.Messages.{Messages}
use coriolis_logger.Influxdb.{point_time}
use coriolis_logger.Influxdb.Client.{Library}
use coriolis_logger.Influxdb.Calls.{run}
use coriolis_logger.Influxdb.Answering.{IsUp, flush-ok}
use coriolis_logger.Influxdb.Reader.Lines.{lines}
use coriolis_logger.Http.{Request, get, ResponseWriter, new_writer, IsReliable}
use coriolis_logger.Auth.{Keystone, KeystoneContext}
use coriolis_logger.Auth.Guarding.{HasToken}
use coriolis_logger.Controllers
use coriolis_logger.Controllers.Transfer.{IsWorking}
use coriolis_logger.Controllers.LogDownload.{Answers}
use coriolis_logger.Api.Routing.{log_file, Route, Router, serve}
use coriolis_logger.Service.{World, configured_writers}
use coriolis_logger.Service.Pipeline.{delivered, work-delivered_as}
use coriolis_logger.Service.Archive.{IsPlain, IsChronological, Database}
use coriolis_logger.Service.Archive.Served.{over_store, logged-served}
use coriolis_logger.Service.Journey.{
  of_app, write_all, write_all-IsQuiet, length-write_all, logged-write_all, times-accepted,
}

module _ (lib : Library) (db : Database lib) (up : IsUp lib) (now : LogMessage → Time)
    (server : Server) (cfg : Syslog) where
  -- What the worker leaves behind after it has taken parsed messages, with nothing more to take.
  after_work :
      (received : List LogParts) (messages : List LogMessage) (w : Worker (World lib))
      → All IsWellTyped received
      → Messages received messages
      → work server (aggregate_write (configured_writers lib now cfg)) (map parts received) w
        ≡ (record w { world = delivered lib now cfg messages w.world }, working)
  unfolding work
  after_work received messages w typed known =
      ap (λ l. work server (aggregate_write (configured_writers lib now cfg)) l w)
        (sym (append-nil (map parts received)))
      ∙ work-delivered_as lib now cfg server received messages [] w typed known

  module _ (http : Controllers.Library) (size : String → ℕ) (reliable : IsReliable http.connection)
      (working_disk : IsWorking http.disk size) (keystone : Keystone) (error_text : Error → String)
      (matches : List Route → Request → Option (Route × List (String × String)))
      (not_found : ResponseWriter → ResponseWriter) where
    -- With the writers of main, a server of InfluxDB that takes every batch and answers a query
    -- for a measurement, whose name needs no escape and whose points have growing times, with the
    -- messages of its points, and a client library that makes every point that has a measurement:
    -- the syslog worker, on a fresh store, takes parsed messages whose fields have the types that
    -- the parsers give them and waits for more; and on the store that it leaves, a request without
    -- dates, whose path leads to the download of a named log and whose token keystone answers with
    -- an admin role, is answered by the router with the authenticator with the status 200, an
    -- attachment of that name, and the lines of all messages of that application that the parsed
    -- ones stand for, in order, if the connection takes all that is written, the disk works, and
    -- there is more fuel than messages and one.
    pub received-served :
        (received : List LogParts) (messages : List LogMessage) (w : Worker (World lib))
        (router : Router) (api : ApiServer) (k : KeystoneAuth) (req : Request) (route : Route)
        (vars : List (String × String)) (context : KeystoneContext) (role : String) (fuel : ℕ)
        → All IsWellTyped received
        → Messages received messages
        → w.world.store.points ≡ []
        → db.storage.stored w.world.store.server ≡ []
        → IsChronological (map (λ m. point_time m (now m)) (of_app (get "log" vars) messages))
        → router.authenticator ≡ some k
        → matches router.routes req ≡ some (route, vars)
        → route.endpoint ≡ log_file
        → HasToken keystone req context
        → Memᴰ role context.roles
        → Memᴰ role k.admin_roles
        → get "log" vars ≢ ""
        → IsPlain (get "log" vars)
        → get "start_date" req.query ≡ ""
        → get "end_date" req.query ≡ ""
        → suc (length messages) < fuel
        → (after : Worker (World lib)) × (answer : ResponseWriter) × (work server
              (aggregate_write (configured_writers lib now cfg))
              (map parts received)
              w
            ≡ (after, working))
          × (serve
                (over_store lib http keystone error_text matches not_found after.world.store)
                api
                fuel
                router
                req
                new_writer
              ≡ some (ok (answer, none)))
          × Answers
              (get "log" vars)
              (lines (map (λ m. m.message) (of_app (get "log" vars) messages)))
              answer
    received-served received messages w router api k req route vars context role fuel typed known
          no_points fresh ordered guarded found file has held listed given plain start end enough =
        let name = get "log" vars in
        let calls = write_all lib now messages in
        let store = w.world.store in
        let (answer, served, answers) =
          logged-served lib db http size reliable working_disk keystone error_text matches not_found
            calls store router api k req route vars context role fuel no_points fresh
            (write_all-IsQuiet lib now db messages) (flush-ok lib up (run lib calls store))
            (subst IsChronological (sym (times-accepted lib now up name given db messages store))
              ordered)
            guarded found file has held listed given plain start end
            (subst (λ n. suc n < fuel) (sym (length-write_all lib now messages)) enough) in
        (
          record w { world = delivered lib now cfg messages w.world },
          answer,
          after_work received messages w typed known,
          served,
          subst (λ ms. Answers name (lines ms) answer)
              (logged-write_all lib now up name given messages store) answers,
        )
