-- ===== src/Service/Tests.antt =====
-- A machine on which all services start, and the theorems on it.
use coriolis_logger.Common.{
  false, ◌≡◌, refl, String, true, none, List, [], ◌∷◌, ◌++◌, map, pos, wrap64, ◌*ℤ◌, ok, ◌⧺◌,
}
use coriolis_logger.Decimal.{itoa}
use coriolis_logger.Clock.{Time, unix}
use coriolis_logger.Logging.{LogMessage}
use coriolis_logger.Logging.Tests.{old_message, old_parts}
use coriolis_logger.Logging.Aggregate.{aggregate_write}
use coriolis_logger.Config.{Platform, tls_config, log_format, automatic}
use coriolis_logger.Config.Tests.{config, config_passes, machine, influx, syslog}
use coriolis_logger.Influxdb
use coriolis_logger.Influxdb.{Store, returned, do_work, on_event, write_ticker}
use coriolis_logger.Influxdb.Tests.{library}
use coriolis_logger.Websocket.Connection.{new_client}
use coriolis_logger.SyslogWorker
use coriolis_logger.SyslogWorker.{Worker, parts, finished, work, start, listen, clean_stale_socket}
use coriolis_logger.SyslogWorker.Messages.{Messages}
use coriolis_logger.SyslogWorker.Tests.{server, files, typed}
use coriolis_logger.Service.{World, configured_writers}
use coriolis_logger.Service.Pipeline.{delivered, work-delivered}
use coriolis_logger.Service.Shutdown.{work-ctx_done}
use coriolis_logger.Influxdb.Calls.{reads, call}
use coriolis_logger.Influxdb.Conservation.Stored.{kept}
use coriolis_logger.Websocket.Hub.{new_hub, takes_register}
use coriolis_logger.Service.Pipeline.{writer}
use coriolis_logger.Service.Ending.{
  Ending, at_select, with_store, Moves, awaits_syslog, signalled, store_ends,
}
use coriolis_logger.Service.Ending.Waits.{HasWaited}
use coriolis_logger.Service.Ending.Returning.{Finishes, Moves-returned}
use coriolis_logger.Service.Interleaving.{Act, logs, acts, takes, stays}
use coriolis_logger.Service.Startup.{
  Machine, Process, datastore_worker, hub_worker, syslog_worker, api_server, serving, startup,
}
use coriolis_logger.Service.Startup.Sound.{HasStarted, startup_sound}
use coriolis_logger.Service.Startup.Outcomes.{IsReady, first_worker, startup_serves}

abbrev services : (p : Platform) → Machine p library String
services p = record {
  client = λ cfg tls. ok [];
  server = server;
  listen = λ address. ok address;
  files = files;
  heap = λ p. new_client "a" (record { severity = none; app_name = none });
}

config-IsReady : IsReady machine library (services machine) "/etc/logger.toml" config influx []
unfolding tls_config write_ticker wrap64 ◌*ℤ◌
config-IsReady = record {
  tls = none;
  interval = pos 1000000000;
  given = λ e. cc;
  decoded = refl;
  valid = config_passes;
  store = refl;
  section = refl;
  tls_files = refl;
  connected = refl;
  ticks = refl;
}

starts : (start server (first_worker machine library (services machine) config influx [])).1 ≡ ok tt
unfolding start listen clean_stale_socket
starts = refl

known_format : log_format syslog ≡ ok automatic
unfolding log_format
known_format = refl

startup_serves_example :
    (process : Process library String) × (startup machine library
        (services machine)
        "/etc/logger.toml"
      ≡ serving process (datastore_worker ∷ hub_worker ∷ syslog_worker ∷ api_server ∷ []))
    × (process.worker
        ≡ (start server (first_worker machine library (services machine) config influx [])).0)
    × (process.format ≡ automatic)
    × (process.api.listener ≡ "127.0.0.1:" ⧺ itoa (pos 9998))
    × (process.api.cfg ≡ config.api_server)
startup_serves_example =
    startup_serves machine library (services machine) "/etc/logger.toml" config influx [] automatic
      ("127.0.0.1:" ⧺ itoa (pos 9998)) config-IsReady known_format starts refl

started :
    (process : Process library String) × (startup machine library
        (services machine)
        "/etc/logger.toml"
      ≡ serving process (datastore_worker ∷ hub_worker ∷ syslog_worker ∷ api_server ∷ []))
started =
    let (process, serves, worker_of_start, known, bound, kept) =
      startup_serves machine library (services machine) "/etc/logger.toml" config influx []
        automatic ("127.0.0.1:" ⧺ itoa (pos 9998)) config-IsReady known_format starts refl in
    (process, serves)

startup_sound_example :
    HasStarted machine library
      (services machine)
      "/etc/logger.toml"
      started.0
      (datastore_worker ∷ hub_worker ∷ syslog_worker ∷ api_server ∷ [])
startup_sound_example =
    startup_sound machine library (services machine) "/etc/logger.toml" started.0
      (datastore_worker ∷ hub_worker ∷ syslog_worker ∷ api_server ∷ []) started.1

abbrev now : LogMessage → Time
now m = unix (pos 1571700001)

abbrev worker : Worker (World library)
worker = first_worker machine library (services machine) config influx []

work-delivered_example :
    (messages : List LogMessage) × Messages (old_parts ∷ [] ∷ old_parts ∷ []) messages
    × (work server
          (aggregate_write (configured_writers library now syslog))
          (map parts (old_parts ∷ [] ∷ old_parts ∷ []) ++ [])
          worker
        ≡ work server
            (aggregate_write (configured_writers library now syslog))
            []
            (record worker { world = delivered library now syslog messages worker.world }))
work-delivered_example =
    work-delivered library now syslog server (old_parts ∷ [] ∷ old_parts ∷ []) [] worker typed

work-ctx_done_example :
    (messages : List LogMessage) × (w' : Worker (World library)) × Messages
      (old_parts ∷ [] ∷ old_parts ∷ [])
      messages
    × (work server
          (aggregate_write (configured_writers library now syslog))
          (map parts (old_parts ∷ [] ∷ old_parts ∷ []) ++ SyslogWorker.ctx_done ∷ [])
          worker
        ≡ (w', finished))
    × (w'.closed ≡ true)
    × (w'.world ≡ delivered library now syslog messages worker.world)
    × (do_work library (Influxdb.ctx_done ∷ []) w'.world.store ≡ (
      record (delivered library now syslog messages worker.world).store { closed = true },
      returned,
    ))
work-ctx_done_example =
    work-ctx_done library now syslog server (old_parts ∷ [] ∷ old_parts ∷ []) [] [] worker typed
      refl

-- A turn of the hub, a message, and the first read of a reader.
abbrev steps : List Act
steps = takes takes_register ∷ logs old_message ∷ acts reads ∷ []

abbrev turned : World library
turned = record worker.world { hub = new_hub (services machine).heap }

abbrev logged_world : World library
logged_world = (writer library now syslog old_message turned).0

abbrev last : World library
last = record logged_world { store = call library reads logged_world.store }

-- The signal has come, and the loop of the store has ended first.
abbrev signalled_end : Ending library
signalled_end = record (at_select library worker) { place = awaits_syslog; cancelled = true }

abbrev closed_store : Store library
closed_store = record worker.world.store { closed = true }

abbrev ending : Ending library
ending = record (with_store library closed_store signalled_end) { store_runs = false }

store_ended : on_event library Influxdb.ctx_done worker.world.store ≡ (closed_store, returned)
unfolding on_event
store_ended = refl

ending_reached : Moves library now syslog server (at_select library worker) ending
ending_reached =
    Moves.moves (Moves.moves Moves.stays (signalled _ refl))
      (store_ends signalled_end Influxdb.ctx_done closed_store refl refl store_ended)

worker-open :
    (worker.closed ≡ false) × (worker.channel_closed ≡ false) × (worker.world.store.closed ≡ false)
worker-open = (refl, refl, refl)

Moves-returned_example :
    HasWaited awaits_syslog true false true × Finishes library now syslog server ending
Moves-returned_example =
    Moves-returned library now syslog server worker ending worker-open.0 worker-open.1 worker-open.2
      ending_reached refl (λ h. cc)
