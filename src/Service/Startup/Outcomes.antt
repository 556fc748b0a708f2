-- ===== src/Service/Startup/Outcomes.antt =====
-- Where the start of the process ends.
use coriolis_logger.Common.{
  ◌≡◌, ◌≢◌, refl, ◌∙◌, inl, inr, arith, String, false, Option, some, [], ◌∷◌, ℤ, ◌==◌, eq_iff,
  Bool-cases, Error, wrapped, ok, err, ◌⧺◌,
}
use coriolis_logger.Decimal.{itoa}
use coriolis_logger.Config.{
  Platform, ClientTls, InfluxDb, Config, LogFormat, log_format, new_config, config_validate,
  syslog_validate, api_server_validate, tls_config,
}
use coriolis_logger.Config.Validity.{api_server_validate_sound, tls_validate_iff}
use coriolis_logger.Influxdb.{write_ticker}
use coriolis_logger.Influxdb.Client.{Library}
use coriolis_logger.Datastore.Choice.{get_datastore_influx_db}
use coriolis_logger.Websocket.Hub.{new_hub}
use coriolis_logger.SyslogWorker.{Worker, new_syslog_server, start}
use coriolis_logger.Api
use coriolis_logger.Api.{get_api_server}
use coriolis_logger.Api.Routing.Access.{get_router-api_server_validate}
use coriolis_logger.Service.{World}
use coriolis_logger.Service.Startup.{
  datastore_worker, hub_worker, syslog_worker, api_server, Machine, Process, exited, serving,
  start_services, start_syslog, serve_api, startup,
}

api_valid :
    (p : Platform) (c : Config)
    → config_validate p c ≡ ok tt
    → api_server_validate p c.api_server ≡ ok tt
unfolding config_validate
api_valid p c h = ground arith

syslog_valid :
    (p : Platform) (c : Config) → config_validate p c ≡ ok tt → syslog_validate p c.syslog ≡ ok tt
unfolding config_validate
syslog_valid p c h = ground arith

nonempty : (s : String) → s ≢ "" → (s == "") ≡ false
nonempty s h = ground (arith, eq_iff s "")

-- A configuration that was read, with a valid store in InfluxDB.
pub record IsReady (p : Platform) (lib : Library) {Listener : Type 0}
    (machine : Machine p lib Listener) (path : String) (c : Config) (i : InfluxDb)
    (influx : lib.Server) : Type 0 where
  pub tls : Option (ClientTls p)
  pub interval : ℤ
  pub given : path ≢ ""
  pub decoded : p.decode_file path ≡ ok c
  pub valid : config_validate p c ≡ ok tt
  pub store : c.syslog.data_store ≡ "influxdb"
  pub section : c.syslog.influx_db ≡ some i
  pub tls_files : tls_config p i ≡ ok tls
  pub connected : machine.client i tls ≡ ok influx
  pub ticks : write_ticker i ≡ ok interval

module _ (p : Platform) (lib : Library) {Listener : Type 0} (machine : Machine p lib Listener) where
  -- The worker before its start.
  abbrev pub first_worker : (c : Config) → InfluxDb → lib.Server → Worker (World lib)
  first_worker c i influx = record {
    cfg = c.syslog;
    world = record {
      store = record { cfg = i; points = []; server = influx; closed = false };
      stdout = [];
      hub = new_hub machine.heap;
    };
    files = machine.files;
    channel_closed = false;
    closed = false;
  }

  new_config_decoded :
      (path : String) (c : Config)
      → p.decode_file path ≡ ok c
      → config_validate p c ≡ ok tt
      → new_config p path ≡ ok c
  unfolding new_config
  new_config_decoded path c decoded valid = rw (decoded, valid, new_config) refl

  reaches_services :
      (path : String) (c : Config) (i : InfluxDb) (influx : lib.Server)
      (r : IsReady p lib machine path c i influx)
      → startup p lib machine path
        ≡ start_services p lib machine c
            (record { cfg = i; points = []; server = influx; closed = false })
  unfolding startup
  reaches_services path c i influx r =
      let chosen =
        get_datastore_influx_db p lib machine.client c.syslog i r.tls influx
          (syslog_valid p c r.valid) r.store r.section r.tls_files r.connected in
      rw
        (
          nonempty path r.given,
          new_config_decoded path c r.decoded r.valid,
          r.valid,
          chosen,
          startup,
        )
        refl

  -- From a file with a valid configuration and a store in InfluxDB, whose TLS files can be read,
  -- whose client is made and whose write interval gives a ticker: if the format is unknown, main
  -- exits with that error while the datastore and the hub run.
  startup_bad_format :
      (path : String) (c : Config) (i : InfluxDb) (influx : lib.Server) (e : Error)
      → IsReady p lib machine path c i influx
      → log_format c.syslog ≡ err e
      → startup p lib machine path
        ≡ exited (wrapped "getting log format" e) (datastore_worker ∷ hub_worker ∷ [])
  unfolding start_services new_syslog_server
  startup_bad_format path c i influx e r bad =
      reaches_services path c i influx r
      ∙ rw (r.ticks, syslog_valid p c r.valid, bad, start_services, new_syslog_server) refl

  get_api_server_valid :
      (c : Config) (listener : Listener)
      → api_server_validate p c.api_server ≡ ok tt
      → machine.listen (c.api_server.bind ⧺ ":" ⧺ itoa c.api_server.port) ≡ ok listener
      → (api : Api.Server Listener) × (get_api_server p machine.listen c.api_server ≡ ok api)
        × (api.listener ≡ listener)
        × (api.cfg ≡ c.api_server)
  unfolding get_api_server
  get_api_server_valid c listener valid bound =
      let (router, e, known_routes, auth) = get_router-api_server_validate p c.api_server valid in
      let tls = (api_server_validate_sound p c.api_server valid).tls in
      elim (Bool-cases c.api_server.use_tls) [
        | inl uses ↦ (
          record { listener = listener; router = router; cfg = c.api_server },
          rw
              (
                e,
                uses,
                (tls_validate_iff p c.api_server.tls_config).1 (tls uses),
                bound,
                get_api_server,
              )
              refl,
          refl,
          refl,
        )
        | inr plain_http ↦ (
          record { listener = listener; router = router; cfg = c.api_server },
          rw (e, plain_http, bound, get_api_server) refl,
          refl,
          refl,
        )
      ]

  -- From a file with a valid configuration and a store in InfluxDB, whose TLS files can be read,
  -- whose client is made and whose write interval gives a ticker: if the format is known, the
  -- syslog worker starts and the address of the API server can be listened on, main comes to serve
  -- with all four services running, on that listener and with that configuration.
  pub startup_serves :
      (path : String) (c : Config) (i : InfluxDb) (influx : lib.Server) (format : LogFormat)
      (listener : Listener)
      → IsReady p lib machine path c i influx
      → log_format c.syslog ≡ ok format
      → (start machine.server (first_worker c i influx)).1 ≡ ok tt
      → machine.listen (c.api_server.bind ⧺ ":" ⧺ itoa c.api_server.port) ≡ ok listener
      → (process : Process lib Listener) × (startup p lib machine path
          ≡ serving process (datastore_worker ∷ hub_worker ∷ syslog_worker ∷ api_server ∷ []))
        × (process.worker ≡ (start machine.server (first_worker c i influx)).0)
        × (process.format ≡ format)
        × (process.api.listener ≡ listener)
        × (process.api.cfg ≡ c.api_server)
  unfolding start_services new_syslog_server start_syslog serve_api
  startup_serves path c i influx format listener r known starts bound =
      let (api, made, at, kept) = get_api_server_valid c listener (api_valid p c r.valid) bound in
      (
        record {
          worker = (start machine.server (first_worker c i influx)).0;
          format = format;
          api = api;
        },
        reaches_services path c i influx r
            ∙ rw
                (
                  r.ticks,
                  syslog_valid p c r.valid,
                  known,
                  starts,
                  made,
                  start_services,
                  new_syslog_server,
                  start_syslog,
                  serve_api,
                )
                refl,
        refl,
        refl,
        at,
        kept,
      )
