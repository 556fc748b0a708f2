-- ===== src/Websocket.antt =====
-- writers/websocket/client.go and payload.go: what a client of the log stream asks for, and what it
-- is sent. The connection itself belongs to gorilla/websocket.
pub mod Filter
pub mod Hub
pub mod Connection
mod Tests
use coriolis_logger.Common.{
  ℕ, String, Bool, true, false, not, ◌&&◌, Option, none, some, if◌then◌else◌, ℤ, ltb_ℤ, ◌==◌, List,
}
use coriolis_logger.Clock.{Time}
use coriolis_logger.Logging.{LogMessage, default_severity_level}

-- Nil pointers are `none`.
pub record ClientFilterOptions : Type 0 where
  pub severity : Option ℤ
  pub app_name : Option String

-- The LogMessage of payload.go.
pub record Payload : Type 0 where
  pub severity : ℤ
  pub app_name : String
  pub message : String
  pub hostname : String
  pub timestamp : Time

abbrev or_else {ℓ} : {A : Type ℓ} → Option A → A → A
or_else none d = d
or_else (some a) d = a

-- `ShouldSend`
unfoldable pub should_send : ClientFilterOptions → LogMessage → Bool
should_send options msg =
    let severity = or_else options.severity default_severity_level in
    let bin_name = or_else options.app_name "" in
    if not (bin_name == "") && not (bin_name == msg.app_name)
    then false
    else if ltb_ℤ severity msg.severity
    then false
    else true

-- `SyslogMessageToLogMessage`
unfoldable pub payload_of : LogMessage → Payload
payload_of msg = record {
  severity = msg.severity;
  app_name = msg.app_name;
  message = msg.message;
  hostname = msg.hostname;
  timestamp = msg.timestamp;
}

-- The fields of a Client that the hub and its own goroutines share: `send` is the buffer of the
-- channel, and `closed` says that the channel was closed.
pub record Client : Type 0 where
  pub id : String
  pub options : ClientFilterOptions
  pub send : List Payload
  pub closed : Bool
