-- ===== src/Logging.antt =====
-- logging/syslog.go: the log message, and how a parsed syslog message becomes one.
-- A parsed message, `map[string]interface{}`, is an association list whose values carry their
-- dynamic type; a type assertion that fails panics.
pub mod Aggregate
pub mod Conversion
pub mod Fields
pub mod Tests
use coriolis_logger.Common.{
  ℕ, String, Bool, true, false, not, ◌&&◌, ◌||◌, Option, none, some, List, [], ◌∷◌, ◌++◌, all,
  is_some, if◌then◌else◌, ℤ, pos, negsuc, ◌==◌, Error, plain, Result, ok, err, panic, ◌>>=◌, ◌>>◌,
  guard, wrap,
}
use coriolis_logger.Decimal.{itoa, atoi}
use coriolis_logger.Clock.{Time}

-- `unset` is the empty string, the zero value of the type.
pub data RfcVersion : Type 0 where
  unset rfc5424 rfc3164 : RfcVersion

-- Severities and facilities are ints; these are the severities that have names.
abbrev pub emergency : ℤ
emergency = pos 0

abbrev pub informational : ℤ
informational = pos 6

abbrev pub debug : ℤ
debug = pos 7

abbrev pub default_severity_level : ℤ
default_severity_level = informational

-- `Severity.String` and `Facility.String`
abbrev pub severity_string : ℤ → String
severity_string s = itoa s

abbrev pub facility_string : ℤ → String
facility_string f = itoa f

pub record LogMessage : Type 0 where
  pub timestamp : Time
  pub hostname : String
  pub priority : ℤ
  pub facility : ℤ
  pub severity : ℤ
  pub app_name : String
  pub proc_id : ℤ
  pub message : String
  pub rfc : RfcVersion

-- A value of type `interface{}`; `other` is one of a type that the program does not ask for.
pub data Value : Type 0 where
  time : Time → Value
  text : String → Value
  number : ℤ → Value
  other : Value

abbrev pub LogParts : Type 0
LogParts = List (String × Value)

unfoldable pub lookup {ℓ} : {A : Type ℓ} → String → List (String × A) → Option A
lookup k [] = none
lookup k ((j, v) ∷ m) = if j == k then some v else lookup k m

abbrev pub has : LogParts → String → Bool
has msg k = is_some (lookup k msg)

-- `msg[k].(time.Time)`, `msg[k].(string)` and `msg[k].(int)`; a missing key gives nil.
abbrev pub as_time : Option Value → Result Time
as_time (some (time t)) = ok t
as_time _ = panic

abbrev pub as_text : Option Value → Result String
as_text (some (text s)) = ok s
as_text _ = panic

abbrev pub as_number : Option Value → Result ℤ
as_number (some (number n)) = ok n
as_number _ = panic

abbrev pub common_fields : List String
common_fields = "timestamp" ∷ "hostname" ∷ "priority" ∷ "facility" ∷ "severity" ∷ []

abbrev pub version_fields : RfcVersion → List String
version_fields rfc5424 =
    "app_name" ∷ "version" ∷ "proc_id" ∷ "msg_id" ∷ "structured_data" ∷ "message" ∷ []
version_fields rfc3164 = "tag" ∷ "content" ∷ []
version_fields unset = []

unfoldable pub validate_message : LogParts → RfcVersion → Bool
validate_message msg rfc = all (has msg) (common_fields ++ version_fields rfc)

abbrev pub invalid_message : Error
invalid_message = plain "invalid syslog message"

abbrev checked : LogParts → RfcVersion → Result RfcVersion
checked msg rfc = if validate_message msg rfc then ok rfc else err invalid_message

unfoldable pub get_rfc_version : LogParts → Result RfcVersion
get_rfc_version msg =
    if has msg "structured_data"
    then checked msg rfc5424
    else if has msg "content"
    then checked msg rfc3164
    else err invalid_message

-- The error of Atoi is dropped, and its value kept.
unfoldable pub proc_number : String → ℤ
proc_number s = if not (s == "") && not (s == "-") then (atoi s).0 else pos 0

unfoldable pub message_of : LogParts → RfcVersion → Result LogMessage
message_of msg rfc3164 = do
  timestamp ← as_time (lookup "timestamp" msg)
  hostname ← as_text (lookup "hostname" msg)
  priority ← as_number (lookup "priority" msg)
  facility ← as_number (lookup "facility" msg)
  severity ← as_number (lookup "severity" msg)
  app_name ← as_text (lookup "tag" msg)
  message ← as_text (lookup "content" msg)
  ok (record {
    timestamp = timestamp;
    hostname = hostname;
    priority = priority;
    facility = facility;
    severity = severity;
    app_name = app_name;
    proc_id = pos 0;
    message = message;
    rfc = rfc3164;
  })
message_of msg rfc5424 = do
  proc ← as_text (lookup "proc_id" msg)
  timestamp ← as_time (lookup "timestamp" msg)
  hostname ← as_text (lookup "hostname" msg)
  priority ← as_number (lookup "priority" msg)
  facility ← as_number (lookup "facility" msg)
  severity ← as_number (lookup "severity" msg)
  app_name ← as_text (lookup "app_name" msg)
  message ← as_text (lookup "message" msg)
  ok (record {
    timestamp = timestamp;
    hostname = hostname;
    priority = priority;
    facility = facility;
    severity = severity;
    app_name = app_name;
    proc_id = proc_number proc;
    message = message;
    rfc = rfc5424;
  })
message_of msg unset = err (plain "failed to parse log message")

unfoldable pub syslog_to_log_message : LogParts → Result LogMessage
syslog_to_log_message msg = do
  rfc ← wrap "getting RFC version" (get_rfc_version msg)
  message_of msg rfc
