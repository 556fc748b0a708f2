-- ===== src/Influxdb.antt =====
-- datastore/influxdb/influxdb.go: the buffer of points, its flushes, the listing and the rotation of
-- logs, and the worker's loop. A method that changes the store returns the new store beside its
-- result. The mutex makes flush and append single steps.
pub mod Client
pub mod Query
pub mod Reader
pub mod Buffer
pub mod Calls
pub mod Logged
pub mod Answering
pub mod Stopping
pub mod Listing
pub mod Conservation
pub mod Rotation
pub mod Loop
pub mod Tests
use coriolis_logger.Common.{
  ℕ, ◌*◌, String, Bool, true, false, not, Option, none, some, List, [], ◌∷◌, ◌++◌, length, leb,
  if◌then◌else◌, ℤ, pos, neg, ◌*ℤ◌, ltb_ℤ, eqb_ℤ, wrap64, ◌==◌, ◌⧺◌, Error, plain, about, wrapped,
  is_eof, Result, ok, err, panic, ◌>>=◌, ◌>>◌, wrap,
}
use coriolis_logger.Decimal.{itoa}
use coriolis_logger.Clock.{Time, second, unix_nano, add}
use coriolis_logger.Logging.{LogMessage, RfcVersion, rfc3164, severity_string, facility_string}
use coriolis_logger.Config.{InfluxDb, get_log_retention}
use Client.{result_of, Library, Cell, text, other, Row, Series, Response, Chunk, response, failed}

abbrev pub max_points : ℕ
max_points = 20000

pub record Store (lib : Library) : Type 0 where
  pub cfg : InfluxDb
  pub points : List lib.Point
  pub server : lib.Server
  pub closed : Bool

-- The map {"log_name": name} of a log.
abbrev pub LogEntry : Type 0
LogEntry = List (String × String)

-- The first cell of every row that is not empty.
unfoldable pub names_of_rows : Series → Result (List LogEntry)
names_of_rows [] = ok []
names_of_rows ([] ∷ rows) = names_of_rows rows
names_of_rows ((text name ∷ cells) ∷ rows) =
    names_of_rows rows >>= λ names. ok ((("log_name", name) ∷ []) ∷ names)
names_of_rows ((other ∷ cells) ∷ rows) = panic

unfoldable pub names_of_series : List Series → Result (List LogEntry)
names_of_series [] = ok []
names_of_series (rows ∷ series) = do
  names ← names_of_rows rows
  more ← names_of_series series
  ok (names ++ more)

unfoldable pub names_of_results : List (List Series) → Result (List LogEntry)
names_of_results [] = ok []
names_of_results (series ∷ results) = do
  names ← names_of_series series
  more ← names_of_results results
  ok (names ++ more)

-- The loop of `List` over the responses.
unfoldable pub collect_names : List Chunk → Result (List LogEntry)
collect_names [] = ok []
collect_names (failed e ∷ chunks) = if is_eof e then ok [] else err (wrapped "fetching response" e)
collect_names (response r ∷ chunks) =
    let rest = collect_names chunks in
    if r.error == ""
    then names_of_results r.results >>= (λ names. rest >>= λ more. ok (names ++ more))
    else err (about "error executing query" r.error)

-- The day in nanoseconds.
abbrev pub day : ℕ
day = 86400000000000

unfoldable pub cutoff : InfluxDb → Time → Time
cutoff cfg now = add now (wrap64 (wrap64 (neg (get_log_retention cfg)) *ℤ pos day))

unfoldable pub delete_query : String → Time → String
delete_query name older_than =
    "delete from \"" ⧺ name ⧺ "\" where time < " ⧺ itoa (unix_nano older_than)

-- `time.NewTicker` panics on a duration that is not positive.
abbrev new_ticker : ℤ → Result ℤ
new_ticker d = if ltb_ℤ (pos 0) d then ok d else panic

unfoldable pub write_ticker : InfluxDb → Result ℤ
write_ticker cfg =
    let interval = if eqb_ℤ cfg.write_interval (pos 0) then pos 1 else cfg.write_interval in
    new_ticker (wrap64 (interval *ℤ pos second))

-- What the worker's `select` may receive; a rotation comes with the time of the clock.
pub data Event : Type 0 where
  ctx_done tick quit : Event
  rotation_tick : Time → Event

-- Whether the loop waits for its next event, has returned, or has brought the process down.
pub data Status : Type 0 where
  running returned panicked : Status

unfoldable pub point_time : LogMessage → Time → Time
point_time msg now = elim msg.rfc [ rfc3164 ↦ now | _ ↦ msg.timestamp ]

module _ (lib : Library) where
  open lib use {Point, Server, new_point, new_batch_points, query, query_as_chunk}

  after_write : Store lib → Server × Option Error → Store lib × Result (Unit {0})
  after_write s (server, none) = (record s { server = server; points = [] }, ok tt)
  after_write s (server, some e) =
      (record s { server = server }, err (wrapped "writing log line to influx" e))

  write_batch : Store lib → List Point → Store lib × Result (Unit {0})
  write_batch s [] = (s, ok tt)
  write_batch s (point ∷ points) =
      after_write s (lib.write s.server s.cfg.database (point ∷ points))

  unfoldable pub flush : Store lib → Store lib × Result (Unit {0})
  unfolding write_batch after_write
  flush s = elim (result_of (new_batch_points s.cfg.database "ns")) [
    | ok batch ↦ write_batch s s.points
    | err e ↦ (s, err (wrapped "getting influx batch point" e))
    | panic ↦ (s, panic)
  ]

  unfoldable pub point_of : LogMessage → Time → Result Point
  point_of msg now = result_of (
      new_point msg.app_name
        (("hostname", msg.hostname)
          ∷ ("severity", severity_string msg.severity)
          ∷ ("facility", facility_string msg.facility)
          ∷ [])
        (("message", msg.message) ∷ []) (point_time msg now))

  append_point : Store lib → Result Point → Store lib × Result (Unit {0})
  append_point s (ok point) = (record s { points = s.points ++ point ∷ [] }, ok tt)
  append_point s (err e) = (s, err (wrapped "adding new log message point" e))
  append_point s panic = (s, panic)

  after_flush : LogMessage → Time → Store lib × Result (Unit {0}) → Store lib × Result (Unit {0})
  after_flush msg now (s, ok done) = append_point s (point_of msg now)
  after_flush msg now (s, err e) = (s, err (wrapped "flushing logs" e))
  after_flush msg now (s, panic) = (s, panic)

  -- `Write`, at the time `now`.
  unfoldable pub write : LogMessage → Time → Store lib → Store lib × Result (Unit {0})
  unfolding after_flush append_point
  write msg now s =
      after_flush msg now (if leb max_points (length s.points) then flush s else (s, ok tt))

  -- `List`
  unfoldable pub list : Store lib → Result (List LogEntry)
  list s = do
    chunks ← wrap "listing logs" (query_as_chunk s.server "SHOW MEASUREMENTS" s.cfg.database 0)
    collect_names chunks

  after_query : Server × Result String → Server × Result (Unit {0})
  after_query (server, ok error) =
      (server, if error == "" then ok tt else err (about "error executing query" error))
  after_query (server, err e) = (server, err (wrapped "executing query" e))
  after_query (server, panic) = (server, panic)

  -- The names of a log's map, one after the other, until a query fails.
  unfoldable pub delete_names : String → Time → LogEntry → Server → Server × Result (Unit {0})
  unfolding after_query
  delete_names database older_than [] server = (server, ok tt)
  delete_names database older_than ((key, name) ∷ entry) server =
      let (server', r) = after_query (query server (delete_query name older_than) database) in
      elim r [
        | ok done ↦ delete_names database older_than entry server'
        | err e ↦ (server', err e)
        | panic ↦ (server', panic)
      ]

  unfoldable pub delete_logs : String → Time → List LogEntry → Server → Server × Result (Unit {0})
  delete_logs database older_than [] server = (server, ok tt)
  delete_logs database older_than (entry ∷ logs) server =
      let (server', r) = delete_names database older_than entry server in
      elim r [
        | ok done ↦ delete_logs database older_than logs server'
        | err e ↦ (server', err e)
        | panic ↦ (server', panic)
      ]

  with_server : Store lib → Server × Result (Unit {0}) → Store lib × Result (Unit {0})
  with_server s (server, r) = (record s { server = server }, r)

  -- `Rotate`
  unfoldable pub rotate : Time → Store lib → Store lib × Result (Unit {0})
  unfolding with_server
  rotate older_than s = elim (wrap "listing logs" (list s)) [
    | ok logs ↦ with_server s (delete_logs s.cfg.database older_than logs s.server)
    | err e ↦ (s, err e)
    | panic ↦ (s, panic)
  ]

  abbrev status_of : Store lib × Result (Unit {0}) → Store lib × Status
  status_of (s, panic) = (s, panicked)
  status_of (s, _) = (s, running)

  abbrev go_on : (Store lib → Store lib × Status) → Store lib × Status → Store lib × Status
  go_on rest (s, running) = rest s
  go_on rest (s, status) = (s, status)

  -- One round of the loop. Errors are logged and dropped.
  unfoldable pub on_event : Event → Store lib → Store lib × Status
  on_event ctx_done s = (record s { closed = true }, returned)
  on_event quit s = (record s { closed = true }, returned)
  on_event tick s = status_of (flush s)
  on_event (rotation_tick now) s = status_of (rotate (cutoff s.cfg now) s)

  -- The loop of `doWork` over the events that the `select` takes, in order.
  unfoldable pub do_work : List Event → Store lib → Store lib × Status
  do_work [] s = (s, running)
  do_work (e ∷ events) s = go_on (do_work events) (on_event e s)
