-- ===== src/Websocket/Filter.antt =====
-- `ShouldSend` against a description of what a client wants.
use coriolis_logger.Common.{◌≡◌, ◌↔◌, ◌⊎◌, arith, String, true, Option, none, some, ℤ, ◌≤ℤ◌, eq_iff}
use coriolis_logger.Logging.{LogMessage, informational}
use coriolis_logger.Websocket.{ClientFilterOptions, should_send}

-- At most as verbose as the client asks for, or as informational messages if it does not say.
abbrev pub IsWithin : Option ℤ → ℤ → Type 0
IsWithin none severity = severity ≤ℤ informational
IsWithin (some limit) severity = severity ≤ℤ limit

-- Of the application that the client asks for; none or the empty name asks for all.
abbrev pub IsFrom : Option String → String → Type 0
IsFrom none name = Unit
IsFrom (some wanted) name = (wanted ≡ "") ⊎ (wanted ≡ name)

-- A client is sent a message exactly when its severity is within that of the client, informational
-- if it gives none, and it is from the application of the client, any if it gives none or the
-- empty name.
pub should_send_iff :
    (options : ClientFilterOptions) (msg : LogMessage)
    → (should_send options msg ≡ true)
      ↔ (IsWithin options.severity msg.severity × IsFrom options.app_name msg.app_name)
unfolding should_send
should_send_iff options msg = by_options options.severity options.app_name
  where
    by_options :
        (s : Option ℤ) (a : Option String)
        → (should_send (record { severity = s; app_name = a }) msg ≡ true)
          ↔ (IsWithin s msg.severity × IsFrom a msg.app_name)
    by_options none none = ground arith
    by_options (some limit) none = ground arith
    by_options none (some name) = ground (arith, eq_iff name "", eq_iff name msg.app_name)
    by_options (some limit) (some name) = ground (arith, eq_iff name "", eq_iff name msg.app_name)
