-- ===== src/Logging/Conversion.antt =====
-- `SyslogToLogMessage` decides `Reads`.
use coriolis_logger.Common.{
  ℤ, ◌≡◌, ◌⊎◌, ◌↔◌, eq_iff, inl, inr, arith, String, true, none, Error, ok, err, is_ok, ok_of_is_ok,
  wrapped, >>=-eq-ok, wrap,
}
use coriolis_logger.Logging.{
  RfcVersion, rfc5424, rfc3164, LogMessage, LogParts, invalid_message, as_text, unset, lookup, has,
  validate_message, get_rfc_version, message_of, proc_number, syslog_to_log_message,
}
use coriolis_logger.Logging.Fields.{
  IsProcId, IsComplete, IsWellTyped, Reads, ReadsRfc3164, ReadsRfc5424,
}

proc_number-IsProcId : (s : String) → IsProcId s (proc_number s)
unfolding proc_number
proc_number-IsProcId s = ground (arith, eq_iff s "", eq_iff s "-")

IsProcId-proc_number : (s : String) (n : ℤ) → IsProcId s n → proc_number s ≡ n
unfolding proc_number
IsProcId-proc_number s n h = ground (arith, eq_iff s "", eq_iff s "-")

Reads-read : (msg : LogParts) (m : LogMessage) → Reads msg m → syslog_to_log_message msg ≡ ok m
unfolding syslog_to_log_message message_of get_rfc_version validate_message
Reads-read msg m (inl r) = ground arith
Reads-read msg m (inr (proc, r)) = ground (arith, IsProcId-proc_number proc m.proc_id r.proc_id)

version-rfc3164 :
    (msg : LogParts)
    → get_rfc_version msg ≡ ok rfc3164
    → (lookup "structured_data" msg ≡ none) × (validate_message msg rfc3164 ≡ true)
unfolding get_rfc_version
version-rfc3164 msg h = ground arith

version-rfc5424 :
    (msg : LogParts)
    → get_rfc_version msg ≡ ok rfc5424
    → (has msg "structured_data" ≡ true) × (validate_message msg rfc5424 ≡ true)
unfolding get_rfc_version
version-rfc5424 msg h = ground arith

validated-version :
    (msg : LogParts)
    → validate_message msg rfc5424 ≡ true
    → (has msg "version" ≡ true) × (has msg "msg_id" ≡ true)
unfolding validate_message
validated-version msg h = ground arith

message_of-unset : (msg : LogParts) {m : LogMessage} → message_of msg unset ≡ ok m → ⊥
unfolding message_of
message_of-unset msg h = cc

message_of-rfc3164 :
    (msg : LogParts) (m : LogMessage)
    → message_of msg rfc3164 ≡ ok m
    → lookup "structured_data" msg ≡ none
    → ReadsRfc3164 msg m
unfolding message_of
message_of-rfc3164 msg m e h = ground arith

message_of-rfc5424 :
    (msg : LogParts) (m : LogMessage)
    → message_of msg rfc5424 ≡ ok m
    → has msg "structured_data" ≡ true
    → has msg "version" ≡ true
    → has msg "msg_id" ≡ true
    → (proc : String) × ReadsRfc5424 msg m proc
unfolding message_of
message_of-rfc5424 msg m e h v i =
    let (proc, found, rest) = >>=-eq-ok (as_text (lookup "proc_id" msg)) _ e in
    (proc, ground (arith, found, rest, proc_number-IsProcId proc))

read-Reads : (msg : LogParts) (m : LogMessage) → syslog_to_log_message msg ≡ ok m → Reads msg m
unfolding syslog_to_log_message
read-Reads msg m e =
    let (version, found, rest) = >>=-eq-ok (wrap "getting RFC version" (get_rfc_version msg)) _ e in
    by_version version found rest
  where
    by_version :
        (version : RfcVersion)
        → wrap "getting RFC version" (get_rfc_version msg) ≡ ok version
        → message_of msg version ≡ ok m
        → Reads msg m
    by_version unset found rest = absurd (message_of-unset msg rest)
    by_version rfc3164 found rest =
        let (plain, _) = version-rfc3164 msg (ground arith) in
        inl (message_of-rfc3164 msg m rest plain)
    by_version rfc5424 found rest =
        let (structured, valid) = version-rfc5424 msg (ground arith) in
        inr (
          message_of-rfc5424 msg m rest structured (validated-version msg valid).0
            (validated-version msg valid).1)

-- SyslogToLogMessage gives the message m for a map of parsed fields exactly when the map stands
-- for m in the format of RFC 3164 or in that of RFC 5424, as described by the relation Reads: the
-- types and values of the fields of that format, and a process id that is 0 for an empty text or a
-- dash and else what strconv.Atoi gives, its error dropped.
pub syslog_to_log_message_iff :
    (msg : LogParts) (m : LogMessage) → (syslog_to_log_message msg ≡ ok m) ↔ Reads msg m
syslog_to_log_message_iff msg m = (read-Reads msg m, Reads-read msg m)

module _ (msg : LogParts) where
  IsComplete-or_rejected :
      IsComplete msg
      ⊎ (syslog_to_log_message msg ≡ err (wrapped "getting RFC version" invalid_message))
  unfolding syslog_to_log_message get_rfc_version validate_message
  IsComplete-or_rejected = ground arith

  complete_accepted : IsWellTyped msg → IsComplete msg → is_ok (syslog_to_log_message msg) ≡ true
  unfolding syslog_to_log_message message_of get_rfc_version validate_message
  complete_accepted w (inl c) = ground arith
  complete_accepted w (inr c) = ground arith

-- For a map whose fields, where they are there, have the types that the parsers give them,
-- SyslogToLogMessage does not panic: it gives a message if every field of one of the formats is
-- there, and otherwise the error that the message is invalid.
pub syslog_to_log_message_outcome :
    (msg : LogParts)
    → IsWellTyped msg
    → (IsComplete msg × ((m : LogMessage) × (syslog_to_log_message msg ≡ ok m)))
      ⊎ ((¬ IsComplete msg)
          × (syslog_to_log_message msg ≡ err (wrapped "getting RFC version" invalid_message)))
syslog_to_log_message_outcome msg w = elim (IsComplete-or_rejected msg) [
  | inl c ↦ inl (c, ok_of_is_ok _ (complete_accepted msg w c))
  | inr e ↦ inr ((λ c. refused (complete_accepted msg w c) e), e)
]
  where
    refused :
        {e : Error}
        → is_ok (syslog_to_log_message msg) ≡ true
        → syslog_to_log_message msg ≡ err e
        → ⊥
    refused h e = ground arith
