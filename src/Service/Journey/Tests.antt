-- ===== src/Service/Journey/Tests.antt =====
-- A message of an application, one that is refused, and one of another application.

use coriolis_logger.Common.{
  ◌≡◌, refl, inl, inr, arith, none, some, false, List, [], ◌∷◌, map, All, ok,
}
use coriolis_logger.Clock.{zero_time}
use coriolis_logger.Logging.{
  LogMessage, LogParts, rfc5424, lookup, proc_number, syslog_to_log_message, get_rfc_version,
  validate_message, message_of,
}
use coriolis_logger.Decimal.{parse_int}
use coriolis_logger.Logging.Fields.{IsWellTyped, IsComplete}
use coriolis_logger.Logging.Conversion.{syslog_to_log_message_iff}
use coriolis_logger.Logging.Aggregate.{aggregate_write}
use coriolis_logger.Logging.Tests.{old_parts, new_parts, old_message, old_parts_read}
use coriolis_logger.Config.Tests.{syslog, api_server}
use coriolis_logger.SyslogWorker.{Worker, parts, work, working}
use coriolis_logger.SyslogWorker.Messages.{Messages, no_messages, read, refused}
use coriolis_logger.SyslogWorker.Tests.{server, files, old_parts-IsWellTyped, nothing-IsWellTyped}
use coriolis_logger.Websocket.Hub.{new_hub}
use coriolis_logger.Websocket.Connection.{new_client}
use coriolis_logger.Influxdb.Answering.{IsUp}
use coriolis_logger.Influxdb.Reader.Lines.{lines}
use coriolis_logger.Http.{get, ResponseWriter, new_writer}
use coriolis_logger.Controllers.LogDownload.{Answers}
use coriolis_logger.Controllers.LogDownload.Tests.{lib, size}
use coriolis_logger.Auth.Tests.{keystone, cfg, with_token, context}
use coriolis_logger.Api.Routing.{serve}
use coriolis_logger.Service.{World, configured_writers}
use coriolis_logger.Service.Archive.Served.{over_store}
use coriolis_logger.Service.Archive.Tests.{
  archive, database, store, log_route, matches, router, worker-IsPlain, token-known, admin_role,
  listed,
}
use coriolis_logger.Service.Journey.Received.{received-served}

archive-IsUp : IsUp archive
archive-IsUp = record {
  batch = λ database. refl;
  taken = λ server database points. refl;
  made = λ name message tags t given. ((name, message, t, get "hostname" tags), refl);
}

abbrev new_message : LogMessage
new_message = record old_message { app_name = "worker"; rfc = rfc5424 }

new_parts_read : syslog_to_log_message new_parts ≡ ok new_message
unfolding syslog_to_log_message get_rfc_version validate_message message_of lookup proc_number
    parse_int
new_parts_read = refl

new_parts-IsWellTyped : IsWellTyped new_parts
unfolding lookup
new_parts-IsWellTyped = record {
  timestamp = refl;
  hostname = refl;
  priority = refl;
  facility = refl;
  severity = refl;
  app_name = refl;
  proc_id = refl;
  message = refl;
  tag = refl;
  content = refl;
}

nothing_incomplete : ¬ IsComplete []
unfolding lookup
nothing_incomplete (inl ((timestamp, rest), more)) = cc
nothing_incomplete (inr (plain, ((timestamp, rest), more))) = cc

abbrev received : List LogParts
received = new_parts ∷ [] ∷ old_parts ∷ []

typed : All IsWellTyped received
typed = (new_parts-IsWellTyped, (nothing-IsWellTyped, (old_parts-IsWellTyped, tt)))

stand_for : Messages received (new_message ∷ old_message ∷ [])
stand_for = read ((syslog_to_log_message_iff new_parts new_message).0 new_parts_read) (
    refused nothing_incomplete
      (read ((syslog_to_log_message_iff old_parts old_message).0 old_parts_read) no_messages))

abbrev worker : Worker (World archive)
worker = record {
  cfg = syslog;
  world = record {
    store = store;
    stdout = [];
    hub = new_hub (λ p. new_client "a" (record { severity = none; app_name = none }));
  };
  files = files;
  channel_closed = false;
  closed = false;
}

received-served_example :
    (after : Worker (World archive)) × (answer : ResponseWriter) × (work server
        (aggregate_write (configured_writers archive (λ m. zero_time) syslog))
        (map parts received)
        worker
      ≡ (after, working))
    × (serve
          (over_store archive lib keystone (λ e. "refused") matches (λ w. w) after.world.store)
          api_server
          4
          router
          with_token
          new_writer
        ≡ some (ok (answer, none)))
    × Answers "worker" (lines ("started" ∷ [])) answer
unfolding get
received-served_example =
    received-served archive database archive-IsUp (λ m. zero_time) server syslog lib size
      (λ body s. refl)
      (record {
        creates = refl;
        appends = λ content s. refl;
        sizes = λ content. refl;
        seeks = refl;
      })
      keystone (λ e. "refused") matches (λ w. w) received (new_message ∷ old_message ∷ []) worker
      router api_server cfg with_token log_route (("log", "worker") ∷ []) context "admin" 4 typed
      stand_for refl refl (tt, tt) refl refl refl token-known admin_role listed (λ e. cc)
      worker-IsPlain refl refl (omega arith)
