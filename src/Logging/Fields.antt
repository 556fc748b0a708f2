-- ===== src/Logging/Fields.antt =====
-- logging/syslog.go: which parsed messages stand for which log message, said without the code.
use coriolis_logger.Common.{
  List, [], ◌∷◌, All, ◌≡◌, ◌≢◌, ◌⊎◌, String, Bool, true, false, Option, none, some, ℤ, pos,
}
use coriolis_logger.Decimal.{atoi}
use coriolis_logger.Logging.{
  rfc5424, rfc3164, LogMessage, LogParts, Value, time, text, number, lookup, has,
}

-- The fields that both formats share, with their types.
pub record ReadsCommon (msg : LogParts) (m : LogMessage) : Type 0 where
  pub timestamp : lookup "timestamp" msg ≡ some (time m.timestamp)
  pub hostname : lookup "hostname" msg ≡ some (text m.hostname)
  pub priority : lookup "priority" msg ≡ some (number m.priority)
  pub facility : lookup "facility" msg ≡ some (number m.facility)
  pub severity : lookup "severity" msg ≡ some (number m.severity)

-- A message of the old format: a tag and a content, and no structured data.
pub record ReadsRfc3164 (msg : LogParts) (m : LogMessage) : Type 0 where
  pub fields : ReadsCommon msg m
  pub unstructured : lookup "structured_data" msg ≡ none
  pub tag : lookup "tag" msg ≡ some (text m.app_name)
  pub content : lookup "content" msg ≡ some (text m.message)
  pub proc_id : m.proc_id ≡ pos 0
  pub rfc : m.rfc ≡ rfc3164

-- The process id that its text stands for: 0 for an empty text or a dash, and for any other what
-- strconv.Atoi gives, whose error is dropped.
abbrev pub IsProcId : String → ℤ → Type 0
IsProcId s n = (((s ≡ "") ⊎ (s ≡ "-")) × (n ≡ pos 0)) ⊎ ((s ≢ "") × (s ≢ "-") × (n ≡ (atoi s).0))

-- A message of the new format.
pub record ReadsRfc5424 (msg : LogParts) (m : LogMessage) (proc : String) : Type 0 where
  pub fields : ReadsCommon msg m
  pub structured_data : has msg "structured_data" ≡ true
  pub version : has msg "version" ≡ true
  pub msg_id : has msg "msg_id" ≡ true
  pub app_name : lookup "app_name" msg ≡ some (text m.app_name)
  pub message : lookup "message" msg ≡ some (text m.message)
  pub proc_text : lookup "proc_id" msg ≡ some (text proc)
  pub proc_id : IsProcId proc m.proc_id
  pub rfc : m.rfc ≡ rfc5424

abbrev pub Reads : LogParts → LogMessage → Type 0
Reads msg m = ReadsRfc3164 msg m ⊎ ((proc : String) × ReadsRfc5424 msg m proc)

-- The fields that are there have the types that the parsers give them.
abbrev is_time : Option Value → Bool
is_time none = true
is_time (some (time t)) = true
is_time _ = false

abbrev is_text : Option Value → Bool
is_text none = true
is_text (some (text s)) = true
is_text _ = false

abbrev is_number : Option Value → Bool
is_number none = true
is_number (some (number n)) = true
is_number _ = false

pub record IsWellTyped (msg : LogParts) : Type 0 where
  pub timestamp : is_time (lookup "timestamp" msg) ≡ true
  pub hostname : is_text (lookup "hostname" msg) ≡ true
  pub priority : is_number (lookup "priority" msg) ≡ true
  pub facility : is_number (lookup "facility" msg) ≡ true
  pub severity : is_number (lookup "severity" msg) ≡ true
  pub app_name : is_text (lookup "app_name" msg) ≡ true
  pub proc_id : is_text (lookup "proc_id" msg) ≡ true
  pub message : is_text (lookup "message" msg) ≡ true
  pub tag : is_text (lookup "tag" msg) ≡ true
  pub content : is_text (lookup "content" msg) ≡ true

abbrev HasAll : LogParts → List String → Type 0
HasAll msg = All (λ k. has msg k ≡ true)

abbrev pub HasCommon : LogParts → Type 0
HasCommon msg = HasAll msg ("timestamp" ∷ "hostname" ∷ "priority" ∷ "facility" ∷ "severity" ∷ [])

-- Every field that its format asks for is there.
abbrev pub IsComplete : LogParts → Type 0
IsComplete msg =
    (HasCommon msg
      × HasAll msg
          ("structured_data" ∷ "version" ∷ "msg_id" ∷ "app_name" ∷ "proc_id" ∷ "message" ∷ []))
    ⊎ ((lookup "structured_data" msg ≡ none)
        × (HasCommon msg × HasAll msg ("content" ∷ "tag" ∷ [])))
