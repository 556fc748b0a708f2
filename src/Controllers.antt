-- ===== src/Controllers.antt =====
-- apiserver/controllers/controllers.go: access, severities, origins, dates, and the three handlers.
pub mod Download
pub mod Inputs
pub mod Dates
pub mod Broken
pub mod Access
pub mod Transfer
pub mod LogDownload
pub mod Session
pub mod Termination
pub mod Tests
use coriolis_logger.Common.{
  ℕ, String, Bool, true, false, Option, none, some, List, [], ◌∷◌, if◌then◌else◌, ℤ, pos, ltb_ℤ,
  ◌==◌, ◌||◌, ◌⧺◌, Error, about, wrapped, plain, Result, ok, err, panic,
}
use coriolis_logger.Decimal.{NumError, parse_int, atoi, parse_bool}
use coriolis_logger.Clock.{Time, zero_time, unix}
use coriolis_logger.Logging.{default_severity_level}
use coriolis_logger.Config.{ApiServer}
use coriolis_logger.Params.{QueryParams}
use coriolis_logger.Influxdb.{LogEntry}
use coriolis_logger.Websocket.{ClientFilterOptions}
use coriolis_logger.Http.{
  AuthDetails, Request, get, ResponseWriter, Connection, write_header, write, status_forbidden,
  status_bad_request, status_internal_server_error,
}
use Download.{Disk, download_as_file, download_as_chunks}

abbrev is_admin_of : Option AuthDetails → Bool
is_admin_of none = false
is_admin_of (some details) = details.is_admin

-- `canAccess`
unfoldable pub can_access : Request → Bool
can_access req = is_admin_of req.auth_details

-- The value with its error; a text that is no number gives the value 0 beside the error.
abbrev severity_of : String → ℤ × Option NumError → ℤ × Option Error
severity_of text (n, some e) = (pos 0, some (about "invalid severity" text))
severity_of text (n, none) =
    (if ltb_ℤ (pos 7) n || ltb_ℤ n (pos 0) then default_severity_level else n, none)

unfoldable pub get_severity : String → ℤ × Option Error
get_severity text =
    if text == "" then (default_severity_level, none) else severity_of text (atoi text)

unfoldable pub is_allowed : List String → String → Bool
is_allowed [] origin = false
is_allowed (val ∷ origins) origin = val == "*" || val == origin || is_allowed origins origin

abbrev pub origin_check : List String → Request → Bool
origin_check origins req =
    let origin = get "Origin" req.headers in
    if origin == "" then true else is_allowed origins origin

-- `getCORSChecker`: no checker of its own leaves the check to the websocket library.
unfoldable pub get_cors_checker : ApiServer → Option (Request → Bool)
get_cors_checker cfg = elim cfg.cors_origins [
  | [] ↦ none
  | first ∷ others ↦ some (origin_check (first ∷ others))
]

abbrev time_of : ℤ × Option NumError → Time × Option Error
time_of (n, some e) = (zero_time, some (wrapped "converting timestamp" (plain "invalid number")))
time_of (n, none) = (unix n, none)

unfoldable pub timestamp_to_time : String → Time × Option Error
timestamp_to_time stamp = if stamp == "" then (zero_time, none) else time_of (parse_int stamp)

-- The Upgrader of gorilla/websocket, with its check of the origin.
pub record Upgrader : Type 0 where
  pub read_buffer_size : ℕ
  pub write_buffer_size : ℕ
  pub check_origin : Option (Request → Bool)

-- The hub and the store are those of the process.
pub record LogHandlers : Type 0 where
  pub cfg : ApiServer
  pub upgrader : Upgrader

-- `NewLogHandler`
unfoldable pub new_log_handler : ApiServer → LogHandlers
new_log_handler cfg = record {
  cfg = cfg;
  upgrader = record {
    read_buffer_size = 1024;
    write_buffer_size = 16384;
    check_origin = get_cors_checker cfg;
  };
}

-- What the handlers use of the libraries: `printf` is Fprintf's text for a format with no operands,
-- `quote` is `%q` of a text, `marshal` the JSON of {"logs": logs}, with nil for `none`.
-- `upgrade` is the upgrade to a websocket: the writer after it, and
-- whether there is a connection.
pub record Library : Type 0 where
  pub connection : Connection
  pub disk : Disk
  pub printf : String → String
  pub quote : String → String
  pub marshal : Option (List LogEntry) → Result String
  pub upgrade : Upgrader → Request → ResponseWriter → ResponseWriter × Option Error

unfoldable pub query_params : Request → QueryParams
query_params req = record {
  hostname = "";
  start_date = (timestamp_to_time (get "start_date" req.query)).0;
  end_date = (timestamp_to_time (get "end_date" req.query)).0;
  app_name = get "log" req.vars;
  severity = (get_severity (get "severity" req.query)).0;
}

abbrev pub forbidden_text : String
forbidden_text = "you need admin level access to view logs"

abbrev or_none : Result (List LogEntry) → Option (List LogEntry)
or_none (ok logs) = some logs
or_none _ = none

module _ (lib : Library) where
  open lib use {connection, disk, printf, quote, marshal, upgrade}

  forbid : ResponseWriter → ResponseWriter
  forbid w = (write connection forbidden_text (write_header status_forbidden w)).0

  after_upgrade :
      ClientFilterOptions
      → ResponseWriter × Option Error
      → ResponseWriter × Option ClientFilterOptions
  after_upgrade options (w, some e) = (w, none)
  after_upgrade options (w, none) = (w, some options)

  -- `WSHandler`: the writer, and the options of the client that it registers. The error of
  -- `get_severity` is logged, and its value used.
  unfoldable pub ws_handler :
      LogHandlers → Request → ResponseWriter → ResponseWriter × Option ClientFilterOptions
  unfolding forbid after_upgrade
  ws_handler l req w =
      if can_access req
      then after_upgrade
          (record {
            severity = some (get_severity (get "severity" req.query)).0;
            app_name = some (get "app_name" req.query);
          })
          (upgrade l.upgrader req w)
      else (forbid w, none)

  -- A complaint with the status 400, after which the handler goes on.
  complain : String → ResponseWriter → ResponseWriter
  complain text w = (write connection (printf text) (write_header status_bad_request w)).0

  complain_if : Option Error → String → ResponseWriter → ResponseWriter
  complain_if none text w = w
  complain_if (some e) text w = complain text w

  -- The complaints about the name and the dates, in order.
  unfoldable pub check_inputs : Request → ResponseWriter → ResponseWriter
  unfolding complain complain_if
  check_inputs req w =
      let start = get "start_date" req.query in
      let end = get "end_date" req.query in
      let w₁ = if get "log" req.vars == "" then complain "missing log name" w else w in
      let w₂ = complain_if (timestamp_to_time start).1 ("invalid start date: " ⧺ quote start) w₁ in
      complain_if (timestamp_to_time end).1 ("invalid end date: " ⧺ quote end) w₂

  -- The JSON of the logs, written with the format string's own rules, or nothing after an error.
  unfoldable pub list_answer : Result (List LogEntry) → ResponseWriter → Result ResponseWriter
  list_answer logs w = elim (marshal (or_none logs)) [
    | ok js ↦ ok (write connection (printf js) w).0
    | err e ↦ ok (write connection (printf "") (write_header status_internal_server_error w)).0
    | panic ↦ panic
  ]

  -- `ListLogsHandler` over the result of the store's `List`.
  unfoldable pub list_logs_handler : Result (List LogEntry) → ResponseWriter → Result ResponseWriter
  unfolding list_answer
  list_logs_handler logs w = elim logs [
    | panic ↦ panic
    | ok entries ↦ list_answer (ok entries) w
    | err e ↦ list_answer (err e) (write_header status_internal_server_error w)
  ]

  module _ {R : Type 0} (read_next : R → R × Result String) (result_reader : QueryParams → R) where
    -- `DownloadLogHandler`, with fuel for the loops over the reader.
    unfoldable pub download_log_handler :
        ℕ → Request → ResponseWriter → Option (Result ResponseWriter)
    unfolding forbid
    download_log_handler fuel req w =
        let name = get "log" req.vars in
        let reader = result_reader (query_params req) in
        let checked = check_inputs req w in
        if can_access req
        then (if parse_bool (get "disable_chunked" req.query)
            then download_as_file connection read_next disk fuel reader checked name
            else download_as_chunks connection read_next fuel reader checked name)
        else some (ok (forbid w))
