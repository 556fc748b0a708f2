-- ===== src/Service/Startup/Sound.antt =====
-- What has gone well when main serves.
use coriolis_logger.Common.{
  ◌≡◌, refl, sym, ap, ◌∙◌, subst, inl, inr, arith, String, false, Option, none, some, List, [], ◌∷◌,
  ℤ, ◌==◌, eq_iff, Bool-cases, Result, ok, err, panic, wrap, if◌then◌else◌, wrap-eq-ok, some_inj,
  ok_injective, >>=-eq-ok, ◌⧺◌,
}
use coriolis_logger.Decimal.{itoa}
use coriolis_logger.Config.{
  Platform, InfluxDb, Config, LogFormat, log_format, new_config, config_validate, syslog_validate,
  tls_validate,
}
use coriolis_logger.Influxdb.{Store, write_ticker}
use coriolis_logger.Influxdb.Client.{Library}
use coriolis_logger.Datastore.{get_datastore}
use coriolis_logger.Datastore.Choice.{IsMade, get_datastore-IsMade}
use coriolis_logger.Websocket.Hub.{new_hub}
use coriolis_logger.SyslogWorker.{Worker, new_syslog_server, start}
use coriolis_logger.Api
use coriolis_logger.Api.{get_api_server}
use coriolis_logger.Api.Routing.{get_router}
use coriolis_logger.Service.{World}
use coriolis_logger.Service.Startup.{
  datastore_worker, hub_worker, syslog_worker, api_server, Service, Machine, Process, Outcome,
  serving, after, start_services, start_syslog, serve_api, startup,
}
use coriolis_logger.Service.Startup.Outcomes.{IsReady}

module _ (p : Platform) (lib : Library) {Listener : Type 0} (machine : Machine p lib Listener) where
  data Passed {A : Type 0} (r : Result A) (next : A → Outcome lib Listener)
      (process : Process lib Listener) (services : List Service) : Type 0 where
    passed : (a : A) → r ≡ ok a → next a ≡ serving process services → Passed r next process services

  -- A step before main serves has not failed.
  after-serving :
      {A : Type 0} (running : List Service) (r : Result A) (next : A → Outcome lib Listener)
      {process : Process lib Listener} {services : List Service}
      → after p lib machine running r next ≡ serving process services
      → Passed r next process services
  after-serving running (ok a) next e = passed a refl e
  after-serving running (err x) next e = cc
  after-serving running panic next e = cc

  -- The process and the services of an outcome that serves.
  process_of : Outcome lib Listener → Option (Process lib Listener × List Service)
  process_of (serving process services) = some (process, services)
  process_of _ = none

  serving-eq :
      {a b : Process lib Listener} {xs ys : List Service}
      → ◌≡◌ {A = Outcome lib Listener} (serving a xs) (serving b ys)
      → (a ≡ b) × (xs ≡ ys)
  unfolding process_of
  serving-eq {a} {b} {xs} {ys} e =
      let h : ◌≡◌ {A = Process lib Listener × List Service} (a, xs) (b, ys) =
        some_inj (ap process_of e) in
      (ap (λ q. q.0) h, ap (λ q. q.1) h)

  abbrev new_worker : Config → Store lib → Worker (World lib)
  new_worker c store = record {
    cfg = c.syslog;
    world = record { store = store; stdout = []; hub = new_hub machine.heap };
    files = machine.files;
    channel_closed = false;
    closed = false;
  }

  -- What main does with a configuration and a store when it serves: the process is made of them, and
  -- all four services run.
  pub record Serves (c : Config) (store : Store lib) (process : Process lib Listener)
      (services : List Service) : Type 0 where
    pub interval : ℤ
    pub ticks : write_ticker store.cfg ≡ ok interval
    pub known : log_format c.syslog ≡ ok process.format
    pub worker_starts : (start machine.server (new_worker c store)).1 ≡ ok tt
    pub worker : process.worker ≡ (start machine.server (new_worker c store)).0
    pub bound :
        machine.listen (c.api_server.bind ⧺ ":" ⧺ itoa c.api_server.port) ≡ ok process.api.listener
    pub kept : process.api.cfg ≡ c.api_server
    pub all_run : services ≡ datastore_worker ∷ hub_worker ∷ syslog_worker ∷ api_server ∷ []

  pub record HasStarted (path : String) (process : Process lib Listener) (services : List Service)
      : Type 0 where
    pub config : Config
    pub influx : InfluxDb
    pub server : lib.Server
    pub ready : IsReady p lib machine path config influx server
    pub serves :
        Serves config
          (record { cfg = influx; points = []; server = server; closed = false })
          process
          services

  new_config_found :
      (path : String) (c : Config) → new_config p path ≡ ok c → p.decode_file path ≡ ok c
  unfolding new_config
  new_config_found path c e =
      let (found, decoded, rest) = >>=-eq-ok (p.decode_file path) _ e in
      let (valid, v, same) = >>=-eq-ok (config_validate p found) _ rest in decoded ∙ same

  get_api_server_found :
      (c : Config) (api : Api.Server Listener)
      → get_api_server p machine.listen c.api_server ≡ ok api
      → (machine.listen (c.api_server.bind ⧺ ":" ⧺ itoa c.api_server.port) ≡ ok api.listener)
        × (api.cfg ≡ c.api_server)
  unfolding get_api_server
  get_api_server_found c api e =
      let a = c.api_server in
      let (router, got, later) = >>=-eq-ok (wrap "getting router" (get_router a)) _ e in
      let (checked, v, last) =
        >>=-eq-ok
          (if a.use_tls then wrap "validating TLS config" (tls_validate p a.tls_config) else ok tt)
          _ later in
      let (listener, bound, made) =
        >>=-eq-ok (machine.listen (a.bind ⧺ ":" ⧺ itoa a.port)) _ last in
      let same = ok_injective made in
      (bound ∙ ap (λ h. ok h.listener) same, sym (ap (λ h. h.cfg) same))

  new_syslog_server_found :
      (c : Config) (world : World lib) (w : Worker (World lib)) (format : LogFormat)
      → new_syslog_server p c.syslog world machine.files ≡ ok (w, format)
      → (log_format c.syslog ≡ ok format)
        × (w ≡ record {
          cfg = c.syslog;
          world = world;
          files = machine.files;
          channel_closed = false;
          closed = false;
        })
  unfolding new_syslog_server
  new_syslog_server_found c world w format e =
      let (valid, v, later) =
        >>=-eq-ok (wrap "validating syslog config" (syslog_validate p c.syslog)) _ e in
      let (found, known, made) =
        >>=-eq-ok (wrap "getting log format" (log_format c.syslog)) _ later in
      let same = ok_injective made in
      (
        wrap-eq-ok "getting log format" (log_format c.syslog) found known ∙ ap (λ q. ok q.1) same,
        sym (ap (λ q. q.0) same),
      )

  serve_api_sound :
      (c : Config) (store : Store lib) (w : Worker (World lib)) (format : LogFormat) (interval : ℤ)
      {process : Process lib Listener} {services : List Service}
      → write_ticker store.cfg ≡ ok interval
      → log_format c.syslog ≡ ok format
      → (start machine.server (new_worker c store)).1 ≡ ok tt
      → w ≡ (start machine.server (new_worker c store)).0
      → serve_api p lib machine c format w ≡ serving process services
      → Serves c store process services
  unfolding serve_api
  serve_api_sound c store w format interval {process} {services} ticks known starts started e =
      elim (after-serving _ (get_api_server p machine.listen c.api_server) _ e) [
        | passed api made last ↦
            let (same, all_run) = serving-eq last in
            let (bound, kept) = get_api_server_found c api made in
            record {
              interval = interval;
              ticks = ticks;
              known = known ∙ ap (λ q. ok q.format) same;
              worker_starts = starts;
              worker = ap (λ q. q.worker) (sym same) ∙ started;
              bound = bound ∙ ap (λ q. ok q.api.listener) same;
              kept = ap (λ q. q.api.cfg) (sym same) ∙ kept;
              all_run = sym all_run;
            }
      ]

  start_syslog_sound :
      (c : Config) (store : Store lib) (w : Worker (World lib)) (format : LogFormat) (interval : ℤ)
      {process : Process lib Listener} {services : List Service}
      → write_ticker store.cfg ≡ ok interval
      → log_format c.syslog ≡ ok format
      → w ≡ new_worker c store
      → start_syslog p lib machine c (w, format) ≡ serving process services
      → Serves c store process services
  unfolding start_syslog
  start_syslog_sound c store w format interval ticks known new e =
      elim (after-serving _ (start machine.server w).1 _ e) [
        | passed done started later ↦
            serve_api_sound c store (start machine.server w).0 format interval ticks known
              (ap (λ v. (start machine.server v).1) (sym new) ∙ started)
              (ap (λ v. (start machine.server v).0) new) later
      ]

  start_services_sound :
      (c : Config) (store : Store lib) {process : Process lib Listener} {services : List Service}
      → start_services p lib machine c store ≡ serving process services
      → Serves c store process services
  unfolding start_services
  start_services_sound c store e = elim (after-serving _ (write_ticker store.cfg) _ e) [
    | passed interval ticks later ↦
        elim (after-serving _
          (new_syslog_server p c.syslog
            (record { store = store; stdout = []; hub = new_hub machine.heap }) machine.files)
          _ later) [
            | passed (w, format) made last ↦
                let (known, new) = new_syslog_server_found c _ w format made in
                start_syslog_sound c store w format interval ticks known new last
          ]
  ]

  started_with :
      (path : String) (c : Config) (store : Store lib) {process : Process lib Listener}
      {services : List Service}
      → (path == "") ≡ false
      → new_config p path ≡ ok c
      → config_validate p c ≡ ok tt
      → IsMade p lib machine.client c.syslog store
      → Serves c store process services
      → HasStarted path process services
  started_with path c store {process} {services} given found valid made serves =
      let in_section = subst (λ s. Serves c s process services) made.fresh serves in
      record {
        config = c;
        influx = made.section;
        server = made.server;
        ready = record {
          tls = made.tls;
          interval = in_section.interval;
          given = ground (arith, given, eq_iff path "");
          decoded = new_config_found path c found;
          valid = valid;
          store = made.chosen;
          section = made.there;
          tls_files = made.tls_files;
          connected = made.connected;
          ticks = in_section.ticks;
        };
        serves = in_section;
      }

  -- main serves only if a file is given, it is read to a valid configuration whose store is in
  -- InfluxDB, its TLS files can be read, the client is made, the write interval gives a ticker,
  -- the format of the syslog server is known and its worker starts, and the address of the API
  -- server can be listened on; the process then has that format, that worker, that listener and
  -- that configuration of the API server, and all four services run.
  pub startup_sound :
      (path : String) (process : Process lib Listener) (services : List Service)
      → startup p lib machine path ≡ serving process services
      → HasStarted path process services
  unfolding startup
  startup_sound path process services e = elim (Bool-cases (path == "")) [
    | inl missing ↦ let impossible = rw (missing, startup) at e in cc
    | inr given ↦ elim (after-serving [] (new_config p path) _ (rw (given, startup) at e)) [
      | passed c found e₁ ↦ elim (after-serving [] (config_validate p c) _ e₁) [
        | passed done valid e₂ ↦
            elim (after-serving [] (get_datastore p lib machine.client c.syslog) _ e₂) [
              | passed store got e₃ ↦
                  started_with path c store given found valid
                    (get_datastore-IsMade p lib machine.client c.syslog store got)
                    (start_services_sound c store e₃)
            ]
      ]
    ]
  ]
