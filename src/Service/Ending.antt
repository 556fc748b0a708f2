-- ===== src/Service/Ending.antt =====
-- The end of `main` in cmd/coriolis-logger/main.go: the wait for a signal, `cancel`, and the waits for
-- the syslog worker and the store, while the loops of these two go on. The hub, for which main does not
-- wait, is left out.
pub mod Rounds
pub mod Waits
pub mod Returning
use coriolis_logger.Common.{◌≡◌, Bool, true, false, [], ◌∷◌}
use coriolis_logger.Clock.{Time}
use coriolis_logger.Logging.{LogMessage}
use coriolis_logger.Logging.Aggregate.{aggregate_write}
use coriolis_logger.Config.{Syslog}
use coriolis_logger.Influxdb
use coriolis_logger.Influxdb.{Store, Event, running, returned, panicked, on_event}
use coriolis_logger.Influxdb.Client.{Library}
use coriolis_logger.SyslogWorker
use coriolis_logger.SyslogWorker.{
  Server, Worker, Arrival, parts, channel_end, working, finished, crashed, work,
}
use coriolis_logger.Service.{World, configured_writers}

-- What main is about to do; `died` is the end of the process by a panic or by log.Fatal.
pub data Place : Type 0 where
  awaits_signal awaits_syslog awaits_datastore stops_api has_returned died : Place

-- The worker writes to the world that holds the store. `error_sent` says that errChan holds an error.
pub record Ending (lib : Library) : Type 0 where
  pub place : Place
  pub cancelled : Bool
  pub error_sent : Bool
  pub syslog : Worker (World lib)
  pub syslog_runs : Bool
  pub store_runs : Bool

module _ (lib : Library) where
  -- The state in which main comes to its `select`.
  abbrev pub at_select : Worker (World lib) → Ending lib
  at_select w = record {
    place = awaits_signal;
    cancelled = false;
    error_sent = false;
    syslog = w;
    syslog_runs = true;
    store_runs = true;
  }

  abbrev pub store_of : Ending lib → Store lib
  store_of e = e.syslog.world.store

  abbrev pub with_store : Store lib → Ending lib → Ending lib
  with_store s e = record e {
    syslog = record e.syslog { world = record e.syslog.world { store = s } };
  }

  -- What the `select` of the syslog worker can receive: no one else closes its channel.
  abbrev pub Arrives : Ending lib → Arrival → Type 0
  Arrives e (parts msg) = Unit
  Arrives e channel_end = e.syslog.channel_closed ≡ true
  Arrives e SyslogWorker.ctx_done = e.cancelled ≡ true

  -- What the `select` of the store can receive: nothing calls its Stop.
  abbrev pub Comes : Ending lib → Event → Type 0
  Comes e Influxdb.ctx_done = e.cancelled ≡ true
  Comes e Influxdb.quit = ⊥
  Comes e Influxdb.tick = Unit
  Comes e (Influxdb.rotation_tick now) = Unit

module _ (lib : Library) (now : LogMessage → Time) (cfg : Syslog) (server : Server) where
  -- One round of the loop of the syslog worker.
  abbrev pub round : Arrival → Worker (World lib) → Worker (World lib) × SyslogWorker.Progress
  round a = work server (aggregate_write (configured_writers lib now cfg)) (a ∷ [])

  pub data Move : Ending lib → Ending lib → Type 0 where
    -- the two cases of the `select`
    signalled :
        (e : Ending lib)
        → e.place ≡ awaits_signal
        → Move e (record e { place = awaits_syslog; cancelled = true })
    worker_failed :
        (e : Ending lib)
        → e.place ≡ awaits_signal
        → e.error_sent ≡ true
        → Move e (record e { place = awaits_syslog; cancelled = true })
    -- the two calls of Wait, and that of Stop
    syslog_waited :
        (e : Ending lib)
        → e.place ≡ awaits_syslog
        → e.syslog.closed ≡ true
        → Move e (record e { place = awaits_datastore })
    datastore_waited :
        (e : Ending lib)
        → e.place ≡ awaits_datastore
        → (store_of lib e).closed ≡ true
        → Move e (record e { place = stops_api })
    api_stopped :
        (e : Ending lib) → e.place ≡ stops_api → Move e (record e { place = has_returned })
    -- a round of the loop of the syslog worker
    syslog_works :
        (e : Ending lib) (a : Arrival) (w : Worker (World lib))
        → e.syslog_runs ≡ true
        → Arrives lib e a
        → round a e.syslog ≡ (w, working)
        → Move e (record e { syslog = w })
    syslog_ends :
        (e : Ending lib) (a : Arrival) (w : Worker (World lib))
        → e.syslog_runs ≡ true
        → Arrives lib e a
        → round a e.syslog ≡ (w, finished)
        → Move e (record e { syslog = w; syslog_runs = false })
    syslog_crashes :
        (e : Ending lib) (a : Arrival) (w : Worker (World lib))
        → e.syslog_runs ≡ true
        → Arrives lib e a
        → round a e.syslog ≡ (w, crashed)
        → Move e (record e { place = died })
    -- a round of the loop of the store
    store_works :
        (e : Ending lib) (event : Event) (s : Store lib)
        → e.store_runs ≡ true
        → Comes lib e event
        → on_event lib event (store_of lib e) ≡ (s, running)
        → Move e (with_store lib s e)
    store_ends :
        (e : Ending lib) (event : Event) (s : Store lib)
        → e.store_runs ≡ true
        → Comes lib e event
        → on_event lib event (store_of lib e) ≡ (s, returned)
        → Move e (record (with_store lib s e) { store_runs = false })
    store_crashes :
        (e : Ending lib) (event : Event) (s : Store lib)
        → e.store_runs ≡ true
        → Comes lib e event
        → on_event lib event (store_of lib e) ≡ (s, panicked)
        → Move e (record e { place = died })
    -- log.Fatal, once Serve of the API server returns an error, as it does when Stop is called
    serve_failed : (e : Ending lib) → Move e (record e { place = died })

  pub data Moves (e : Ending lib) : Ending lib → Type 0 where
    stays : Moves e e
    moves : {f g : Ending lib} → Moves e f → Move f g → Moves e g
