-- ===== src/SyslogWorker/Tests.antt =====
-- A worker whose writer keeps the texts of the messages, and whose socket was left by another.
use coriolis_logger.Common.{
  ◌≡◌, refl, String, Bool, true, false, Option, none, some, List, [], ◌∷◌, All, ◌==◌, if◌then◌else◌,
  Error, about, ok,
}
use coriolis_logger.Logging.{lookup}
use coriolis_logger.Logging.Fields.{IsWellTyped}
use coriolis_logger.Logging.Tests.{old_parts}
use coriolis_logger.Config.{Platform, Syslog, syslog_validate}
use coriolis_logger.Config.Tests.{machine}
use coriolis_logger.SyslogWorker.{Files, Server, Worker, start}
use coriolis_logger.SyslogWorker.Socket.{stat_of, start-syslog_validate}

abbrev address : String
address = "/run/log.sock"

abbrev pub server : Server
server = record {
  listen_unixgram = λ path files. (files, if_free (files path));
  listen_tcp = λ path. none;
  listen_udp = λ path. none;
  boot = none;
  kill = none;
  remove = λ path. none;
}
  where
    if_free : Option Bool → Option Error
    if_free none = none
    if_free (some b) = some (about "address already in use" address)

abbrev cfg : Syslog
cfg = record {
  listener = "unixgram";
  address = address;
  format = "automatic";
  log_to_stdout = false;
  data_store = "stdout";
  influx_db = none;
}

abbrev pub files : Files
files path = if path == address then some true else if path == "/" then some false else none

abbrev platform : Platform
platform = record machine { stat = λ path. stat_of path (files path) }

abbrev worker : Worker (List String)
worker = record { cfg = cfg; world = []; files = files; channel_closed = false; closed = false }

pub old_parts-IsWellTyped : IsWellTyped old_parts
unfolding lookup
old_parts-IsWellTyped = record {
  timestamp = refl;
  hostname = refl;
  priority = refl;
  facility = refl;
  severity = refl;
  app_name = refl;
  proc_id = refl;
  message = refl;
  tag = refl;
  content = refl;
}

pub nothing-IsWellTyped : IsWellTyped []
unfolding lookup
nothing-IsWellTyped = record {
  timestamp = refl;
  hostname = refl;
  priority = refl;
  facility = refl;
  severity = refl;
  app_name = refl;
  proc_id = refl;
  message = refl;
  tag = refl;
  content = refl;
}

pub typed : All IsWellTyped (old_parts ∷ [] ∷ old_parts ∷ [])
typed = (old_parts-IsWellTyped, (nothing-IsWellTyped, (old_parts-IsWellTyped, tt)))

valid : syslog_validate platform cfg ≡ ok tt
unfolding syslog_validate
valid = refl

start-syslog_validate_example : (start server worker).1 ≡ ok tt
start-syslog_validate_example =
    start-syslog_validate platform server worker valid refl refl refl (λ fs free. rw free refl) refl
