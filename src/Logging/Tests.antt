-- ===== src/Logging/Tests.antt =====
-- Messages as the parsers hand them over, and the theorems at concrete inputs.
use coriolis_logger.Common.{
  neg, ℕ, ◌+◌, ◌≡◌, refl, none, some, [], ◌∷◌, pos, negsuc, plain, wrapped, ok, err, panic, ◌⊎◌,
}
use coriolis_logger.Clock.{unix}
use coriolis_logger.Decimal.{parse_int}
use coriolis_logger.Logging.{
  LogMessage, LogParts, rfc3164, rfc5424, time, text, number, other, lookup, syslog_to_log_message,
  get_rfc_version, validate_message, message_of, proc_number, invalid_message,
}
use coriolis_logger.Logging.Fields.{Reads, IsComplete, IsWellTyped}
use coriolis_logger.Logging.Conversion.{syslog_to_log_message_iff, syslog_to_log_message_outcome}
use coriolis_logger.Logging.Aggregate.{Writer, aggregate_write, write_each}

abbrev pub old_parts : LogParts
old_parts =
    ("timestamp", time (unix (pos 1571700000)))
    ∷ ("hostname", text "node")
    ∷ ("priority", number (pos 30))
    ∷ ("facility", number (pos 3))
    ∷ ("severity", number (pos 6))
    ∷ ("tag", text "dockerd")
    ∷ ("content", text "started")
    ∷ []

abbrev pub old_message : LogMessage
old_message = record {
  timestamp = unix (pos 1571700000);
  hostname = "node";
  priority = pos 30;
  facility = pos 3;
  severity = pos 6;
  app_name = "dockerd";
  proc_id = pos 0;
  message = "started";
  rfc = rfc3164;
}

abbrev pub new_parts : LogParts
new_parts =
    ("structured_data", text "-")
    ∷ ("version", number (pos 1))
    ∷ ("msg_id", text "-")
    ∷ ("app_name", text "worker")
    ∷ ("proc_id", text "-")
    ∷ ("message", text "started")
    ∷ old_parts

pub old_parts_read : syslog_to_log_message old_parts ≡ ok old_message
unfolding syslog_to_log_message get_rfc_version validate_message message_of lookup
old_parts_read = refl

-- A process id that is too large is kept at the bound of an int; one that is no number is 0.
proc_numbers :
    (proc_number "42" ≡ pos 42)
    × (proc_number "-7" ≡ negsuc 6)
    × (proc_number "x1" ≡ pos 0)
    × (proc_number "99999999999999999999x" ≡ pos 9223372036854775807)
unfolding proc_number parse_int neg
proc_numbers = (refl, refl, refl, refl)

-- A hostname that is no text makes the assertion fail.
wrong_type : syslog_to_log_message (("hostname", other) ∷ old_parts) ≡ panic
unfolding syslog_to_log_message get_rfc_version validate_message message_of lookup
wrong_type = refl

-- A message of the new format, with the number of its process.
abbrev numbered_parts : LogParts
numbered_parts = ("proc_id", text "42") ∷ new_parts

abbrev numbered_message : LogMessage
numbered_message = record old_message { app_name = "worker"; proc_id = pos 42; rfc = rfc5424 }

numbered_parts_read : syslog_to_log_message numbered_parts ≡ ok numbered_message
unfolding syslog_to_log_message get_rfc_version validate_message message_of lookup proc_number
    parse_int
numbered_parts_read = refl

syslog_to_log_message_iff_example : Reads numbered_parts numbered_message
syslog_to_log_message_iff_example =
    (syslog_to_log_message_iff numbered_parts numbered_message).0 numbered_parts_read

new_parts-IsWellTyped : IsWellTyped new_parts
unfolding lookup
new_parts-IsWellTyped = record {
  timestamp = refl;
  hostname = refl;
  priority = refl;
  facility = refl;
  severity = refl;
  app_name = refl;
  proc_id = refl;
  message = refl;
  tag = refl;
  content = refl;
}

syslog_to_log_message_outcome_example :
    (IsComplete new_parts × ((m : LogMessage) × (syslog_to_log_message new_parts ≡ ok m)))
    ⊎ ((¬ IsComplete new_parts)
        × (syslog_to_log_message new_parts ≡ err (wrapped "getting RFC version" invalid_message)))
syslog_to_log_message_outcome_example =
    syslog_to_log_message_outcome new_parts new_parts-IsWellTyped

-- Writers to a counter: one that counts, and one that counts and fails.
abbrev counting : Writer ℕ
counting msg n = (n + 1, none)

abbrev failing : Writer ℕ
failing msg n = (n + 10, some (plain "full"))

every_writer_runs : (aggregate_write (failing ∷ counting ∷ failing ∷ []) old_message 0).0 ≡ 21
unfolding aggregate_write write_each
every_writer_runs = refl
