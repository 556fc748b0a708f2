-- ===== src/Service/Startup.antt =====
-- `main` of cmd/coriolis-logger/main.go, up to its wait for a signal.
pub mod Outcomes
pub mod Sound
use coriolis_logger.Common.{
  ℕ, String, Bool, List, [], ◌∷◌, if◌then◌else◌, ◌==◌, Error, plain, Result, ok, err, panic, Option,
}
use coriolis_logger.Config.{
  Platform, ClientTls, InfluxDb, Config, LogFormat, new_config, config_validate,
}
use coriolis_logger.Influxdb.{Store, write_ticker}
use coriolis_logger.Influxdb.Client.{Library}
use coriolis_logger.Datastore.{get_datastore}
use coriolis_logger.Websocket.{Client}
use coriolis_logger.Websocket.Hub.{new_hub}
use coriolis_logger.SyslogWorker
use coriolis_logger.SyslogWorker.{Files, Worker, new_syslog_server, start}
use coriolis_logger.Api
use coriolis_logger.Api.{get_api_server}
use coriolis_logger.Service.{World}

-- What runs once its `Start` has returned.
pub data Service : Type 0 where
  datastore_worker hub_worker syslog_worker api_server : Service

-- What main finds on the machine besides the platform: the constructor of the InfluxDB client, the
-- syslog server's library, net.Listen, the files, and an empty heap of clients.
pub record Machine (p : Platform) (lib : Library) (Listener : Type 0) : Type 0 where
  pub client : InfluxDb → Option (ClientTls p) → Result lib.Server
  pub server : SyslogWorker.Server
  pub listen : String → Result Listener
  pub files : Files
  pub heap : ℕ → Client

pub record Process (lib : Library) (Listener : Type 0) : Type 0 where
  pub worker : Worker (World lib)
  pub format : LogFormat
  pub api : Api.Server Listener

-- `exited` is os.Exit(1) while these services run; `crashed` is a panic.
pub data Outcome (lib : Library) (Listener : Type 0) : Type 0 where
  usage : Outcome lib Listener
  exited : Error → List Service → Outcome lib Listener
  crashed : List Service → Outcome lib Listener
  serving : Process lib Listener → List Service → Outcome lib Listener

module _ (p : Platform) (lib : Library) {Listener : Type 0} (machine : Machine p lib Listener) where
  open machine use {client, server, listen, files, heap}

  -- `if err != nil { os.Exit(1) }` after a step.
  abbrev after {ℓ} :
      {A : Type ℓ} → List Service → Result A → (A → Outcome lib Listener) → Outcome lib Listener
  after running (ok a) next = next a
  after running (err e) next = exited e running
  after running panic next = crashed running

  serve_api : Config → LogFormat → Worker (World lib) → Outcome lib Listener
  serve_api cfg format worker =
      after (datastore_worker ∷ hub_worker ∷ syslog_worker ∷ [])
        (get_api_server p listen cfg.api_server)
        (λ api.
          serving (record { worker = worker; format = format; api = api })
            (datastore_worker ∷ hub_worker ∷ syslog_worker ∷ api_server ∷ []))

  start_syslog : Config → Worker (World lib) × LogFormat → Outcome lib Listener
  start_syslog cfg (worker, format) =
      let (worker', started) = start server worker in
      after (datastore_worker ∷ hub_worker ∷ []) started (λ done. serve_api cfg format worker')

  -- From the start of the datastore, whose goroutine makes its ticker.
  start_services : Config → Store lib → Outcome lib Listener
  start_services cfg store =
      let world : World lib = record { store = store; stdout = []; hub = new_hub heap } in
      after (datastore_worker ∷ []) (write_ticker store.cfg) (λ interval.
        after (datastore_worker ∷ hub_worker ∷ []) (new_syslog_server p cfg.syslog world files)
          (start_syslog cfg))

  unfoldable pub startup : String → Outcome lib Listener
  unfolding start_services start_syslog serve_api
  startup path =
      if path == ""
      then usage
      else after [] (new_config p path) (λ cfg.
        after [] (config_validate p cfg)
          (λ valid. after [] (get_datastore p lib client cfg.syslog) (start_services cfg)))
