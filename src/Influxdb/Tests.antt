-- ===== src/Influxdb/Tests.antt =====
-- A server that keeps the points it is sent, and the theorems on it.
use coriolis_logger.Common.{
  ◌≡◌, ◌≢◌, refl, ◌⊎◌, arith, String, none, List, [], ◌∷◌, ◌++◌, length, false, ℤ, pos, ◌*◌, ◌+ℤ◌,
  ◌≤ℤ◌, ◌⧺◌, plain, ok, err, true,
}
use coriolis_logger.Clock.{Time, unix, zero_time}
use coriolis_logger.Clock.Laws.{nanos}
use coriolis_logger.Config.{InfluxDb, get_log_retention}
use coriolis_logger.Logging.{LogMessage, rfc5424}
use coriolis_logger.Params.{QueryParams}
use coriolis_logger.Influxdb.{
  Store, LogEntry, ctx_done, tick, rotation_tick, running, day, cutoff, flush, point_of, write,
  list, rotate, delete_logs, delete_names, collect_names, names_of_results, names_of_series,
  names_of_rows, on_event, do_work,
}
use coriolis_logger.Influxdb.Client.{given, Library, Storage, History, response, text, Series}
use coriolis_logger.Influxdb.Query.{prepare_query}
use coriolis_logger.Influxdb.Query.Conditions.{prepare_query_lem, where_text, conditions}
use coriolis_logger.Influxdb.Calls.{Call, writes, reads, receives, call, run, accepted}
use coriolis_logger.Influxdb.Rotation.{cutoff-exact, cutoff-wraps, deleted, log_names, rotate_ok}
use coriolis_logger.Influxdb.Stopping.{stop, stop-run}

-- A point is its measurement with its fields; a listing has two logs.
abbrev pub Point : Type 0
Point = String × List (String × String)

abbrev listing : List (List Series)
listing = (((text "dockerd" ∷ []) ∷ [] ∷ (text "worker" ∷ []) ∷ []) ∷ []) ∷ []

abbrev pub library : Library
library = record {
  Point = Point;
  Server = List Point;
  new_point = λ name tags fields t. given (name, fields);
  new_batch_points = λ database precision. given tt;
  write = λ server database points. (server ++ points, none);
  query = λ server q database. (server, ok "");
  query_as_chunk =
      λ server q database size. ok (response (record { error = ""; results = listing }) ∷ []);
}

abbrev pub storage : Storage library
storage = record {
  stored = λ server. server;
  write_ok = λ server database points e. refl;
  write_failed = λ server database points e h. absurd cc;
}

abbrev pub history : History library
history = record { storage = storage; query_keeps = λ server q database. refl }

abbrev cfg : ℤ → InfluxDb
cfg days = record {
  url = "http://localhost:8086";
  username = "";
  password = "";
  database = "logs";
  verify_server = true;
  ca_cert = "";
  client_crt = "";
  client_key = "";
  write_interval = pos 1;
  log_retention_period = days;
}

abbrev now : Time
now = record { sec = pos 1571700000; nsec = 5 }

abbrev store : Store library
store = record { cfg = cfg (pos 3); points = []; server = []; closed = false }

abbrev message : String → LogMessage
message s = record {
  timestamp = unix (pos 1571700000);
  hostname = "node";
  priority = pos 30;
  facility = pos 3;
  severity = pos 6;
  app_name = "worker";
  proc_id = pos 0;
  message = s;
  rfc = rfc5424;
}

abbrev calls : List Call
calls =
    writes (message "one") now
    ∷ receives tick
    ∷ writes (message "two") now
    ∷ reads
    ∷ receives (rotation_tick now)
    ∷ receives ctx_done
    ∷ writes (message "three") now
    ∷ []

-- Two of the three messages of `calls` have come to the server, and one waits.
calls-run :
    (length (run library calls store).server ≡ 2)
    × (length (run library calls store).points ≡ 1)
    × (length (accepted library calls store) ≡ 3)
unfolding run accepted call flush point_of write on_event rotate list collect_names names_of_results
    names_of_series names_of_rows delete_logs delete_names cutoff
calls-run = (refl, refl, refl)

retention : (days : ℤ) → days ≢ pos 0 → get_log_retention (cfg days) ≡ days
unfolding get_log_retention
retention days h = ground arith

cutoff-exact_example : nanos (cutoff (cfg (pos 7)) now) +ℤ pos (7 * day) ≡ nanos now
cutoff-exact_example =
    cutoff-exact (cfg (pos 7)) now (omega arith) 7 (retention (pos 7) cc) (omega arith)

cutoff-wraps_example : nanos now +ℤ pos 1 ≤ℤ nanos (cutoff (cfg (pos 106752)) now)
cutoff-wraps_example =
    cutoff-wraps (cfg (pos 106752)) now (omega arith) 106752 (retention (pos 106752) cc)
      (omega arith) (omega arith)

rotate-ok : (rotate library now store).1 ≡ ok tt
unfolding rotate list collect_names names_of_results names_of_series names_of_rows delete_logs
    delete_names
rotate-ok = refl

rotate_ok_example :
    (logs : List LogEntry) × (list library store ≡ ok logs)
    × ((rotate library now store).0
        ≡ record store { server = deleted library "logs" now (log_names logs) [] })
rotate_ok_example = rotate_ok library now store rotate-ok

ticks-run : (do_work library (tick ∷ rotation_tick now ∷ []) store).1 ≡ running
unfolding do_work on_event flush rotate list collect_names names_of_results names_of_series
    names_of_rows delete_logs delete_names
ticks-run = refl

abbrev params : QueryParams
params = record {
  hostname = "node";
  start_date = unix (pos 5);
  end_date = zero_time;
  app_name = "worker";
  severity = pos 6;
}

prepare_query_lem_example :
    ((params.app_name ≡ "") × (prepare_query params ≡ err (plain "missing application name")))
    ⊎ ((params.app_name ≢ "")
        × (prepare_query params
            ≡ ok (
                "select time,severity,message from \""
                ⧺ params.app_name
                ⧺ "\""
                ⧺ where_text (conditions params))))
prepare_query_lem_example = prepare_query_lem params

abbrev one : String
one = "one"

stop-run_example :
    stop library (tick ∷ rotation_tick now ∷ []) (record { store = store; quit_closed = false }) ≡ (
      record {
        store = record (run library (receives tick ∷ receives (rotation_tick now) ∷ []) store) {
          closed = true;
        };
        quit_closed = true;
      },
      ok tt,
    )
stop-run_example =
    stop-run library (tick ∷ rotation_tick now ∷ []) (record { store = store; quit_closed = false })
      refl refl ticks-run
