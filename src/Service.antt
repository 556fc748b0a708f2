-- ===== src/Service.antt =====
-- cmd/coriolis-logger/main.go, and writers/stdout: the writers that a configuration gives, and the
-- world that they write to.
pub mod Pipeline
pub mod Startup
mod Tests
pub mod Shutdown
pub mod Interleaving
pub mod Archive
pub mod Journey
pub mod Listing
pub mod Ending
pub mod Stopping
use coriolis_logger.Common.{
  String, Bool, Option, none, some, List, [], ◌∷◌, ◌++◌, if◌then◌else◌, Error, error_of, Result,
}
use coriolis_logger.Clock.{Time}
use coriolis_logger.Logging.{LogMessage}
use coriolis_logger.Logging.Aggregate.{Writer}
use coriolis_logger.Config.{Syslog}
use coriolis_logger.Influxdb
use coriolis_logger.Influxdb.{Store}
use coriolis_logger.Influxdb.Client.{Library}
use coriolis_logger.Websocket.Hub
use coriolis_logger.Websocket.Hub.{Hub}

-- The store, the lines on the standard output, and the hub.
pub record World (lib : Library) : Type 0 where
  pub store : Store lib
  pub stdout : List String
  pub hub : Hub

-- `now` is the time at which the store takes a message. The calls that `Write` makes of the client
-- library give a value or an error, so that it has no panic to pass on.
module _ (lib : Library) (now : LogMessage → Time) where
  unfoldable pub store_writer : Writer (World lib)
  store_writer msg w =
      let (store, r) = Influxdb.write lib msg (now msg) w.store in
      (record w { store = store }, error_of r)

  -- `Write` of a StdOutWriter
  unfoldable pub stdout_writer : Writer (World lib)
  stdout_writer msg w = (record w { stdout = w.stdout ++ msg.message ∷ [] }, none)

  unfoldable pub hub_writer : Writer (World lib)
  hub_writer msg w = let (hub, e) = Hub.write msg w.hub in (record w { hub = hub }, e)

  unfoldable pub configured_writers : Syslog → List (Writer (World lib))
  configured_writers cfg =
      (store_writer ∷ (if cfg.log_to_stdout then stdout_writer ∷ [] else [])) ++ hub_writer ∷ []
