-- ===== src/Influxdb/Conservation.antt =====
-- No point is lost, repeated or put out of order between `Write` and the server.
pub mod Stored
use mathlib.Core.List.{append-nil, append_assoc}
use coriolis_logger.Common.{
  All, All-map, String, ◌≡◌, refl, sym, ap, ◌∙◌, inl, inr, arith, Option, none, some, List, [], ◌∷◌,
  ◌++◌, length, leb, Error, Result, ok, err, panic, wrap, Result-cases, Bool-cases,
}
use coriolis_logger.Clock.{Time}
use coriolis_logger.Logging.{LogMessage}
use coriolis_logger.Influxdb.Client.{Library, Storage, History}
use coriolis_logger.Influxdb.{
  delete_query, Store, LogEntry, max_points, Event, ctx_done, tick, quit, rotation_tick,
  after_write, write_batch, flush, point_of, append_point, after_flush, write, after_query,
  delete_names, delete_logs, rotate, list, on_event, cutoff,
}
use coriolis_logger.Influxdb.Calls.{Call, writes, reads, receives, call, run, point_if_ok, accepted}
use Stored.{kept, flush-kept, Keeps, run-stored}

module _ (lib : Library) (history : History lib) where
  open history use {storage, query_keeps}
  open storage use {stored}

  abbrev held : Store lib → List lib.Point
  held = kept lib storage

  after_query-stored :
      (text : String) (server : lib.Server) (database : String)
      → stored (after_query lib (lib.query server text database)).0 ≡ stored server
  unfolding after_query
  after_query-stored text server database = ground (arith, query_keeps server text database)

  delete_names-stored :
      (database : String) (t : Time) (entry : LogEntry) (server : lib.Server)
      → stored (delete_names lib database t entry server).0 ≡ stored server
  unfolding delete_names
  delete_names-stored database t [] server = refl
  delete_names-stored database t ((key, name) ∷ entry) server =
      let server' = (after_query lib (lib.query server (delete_query name t) database)).0 in
      ground (
        arith,
        after_query-stored (delete_query name t) server database,
        delete_names-stored database t entry server',
      )

  delete_logs-stored :
      (database : String) (t : Time) (logs : List LogEntry) (server : lib.Server)
      → stored (delete_logs lib database t logs server).0 ≡ stored server
  unfolding delete_logs
  delete_logs-stored database t [] server = refl
  delete_logs-stored database t (entry ∷ logs) server =
      let server' = (delete_names lib database t entry server).0 in
      ground (
        arith,
        delete_names-stored database t entry server,
        delete_logs-stored database t logs server',
      )

  rotate-kept : (t : Time) (s : Store lib) → held (rotate lib t s).0 ≡ held s
  unfolding rotate
  rotate-kept t s = elim (Result-cases (wrap "listing logs" (list lib s))) [
    | inl (logs, e) ↦
        rw (e, rotate) (ap (λ l. l ++ s.points) (delete_logs-stored s.cfg.database t logs s.server))
    | inr (inl (x, e)) ↦ rw (e, rotate) refl
    | inr (inr e) ↦ rw (e, rotate) refl
  ]

  on_event-kept : (e : Event) (s : Store lib) → held (on_event lib e s).0 ≡ held s
  unfolding on_event
  on_event-kept ctx_done s = refl
  on_event-kept quit s = refl
  on_event-kept tick s = ground (arith, flush-kept lib storage s)
  on_event-kept (rotation_tick now) s = ground (arith, rotate-kept (cutoff s.cfg now) s)

  receives-kept : (e : Event) (s : Store lib) → held (call lib (receives e) s) ≡ held s
  unfolding call
  receives-kept e s = ground (arith, on_event-kept e s)

  all-Keeps : (calls : List Call) → All (Keeps lib storage) calls
  all-Keeps [] = tt
  all-Keeps (writes msg now ∷ calls) = (tt, all-Keeps calls)
  all-Keeps (reads ∷ calls) = (tt, all-Keeps calls)
  all-Keeps (receives e ∷ calls) = (receives-kept e, all-Keeps calls)

  -- Every call keeps the points in the server and the buffer, and adds those that it accepts.
  pub run-kept :
      (calls : List Call) (s : Store lib)
      → kept lib history.storage (run lib calls s)
        ≡ kept lib history.storage s ++ accepted lib calls s
  run-kept calls s = run-stored lib storage calls s (all-Keeps calls)
