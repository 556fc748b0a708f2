-- ===== src/Service/Interleaving/Watched/Tests.antt =====
-- A message of the syslog worker on its way to a client.
use mathlib.Core.List.{Perm}
use coriolis_logger.Common.{◌≡◌, refl, false, List, [], ◌∷◌, ◌++◌, pos, All, ok}
use coriolis_logger.Clock.{Time, unix}
use coriolis_logger.Logging.{LogMessage}
use coriolis_logger.Logging.Tests.{old_message}
use coriolis_logger.Config.Tests.{influx, syslog}
use coriolis_logger.Logging.Aggregate.{aggregate_write, write_each}
use coriolis_logger.Influxdb.{flush}
use coriolis_logger.Influxdb.Calls.{reads, call}
use coriolis_logger.Influxdb.Tests.{library}
use coriolis_logger.Websocket.{should_send}
use coriolis_logger.Websocket.Hub.{
  Turn, takes_broadcast, sends, receives, write, update, fan_out, pick, send, step,
}
use coriolis_logger.Websocket.Hub.Owed.Payloads.{taken, over}
use coriolis_logger.Websocket.Hub.Watching.{watched, refused}
use coriolis_logger.Websocket.Hub.Watching.Tests.{ids, all_messages, hub, hub-IsWatching}
use coriolis_logger.Websocket.Hub.Watching.Runs.{due}
use coriolis_logger.Service.{World, configured_writers, hub_writer, store_writer}
use coriolis_logger.Service.Pipeline.{writer}
use coriolis_logger.Service.Interleaving.{
  Act, logs, acts, takes, Steps, logged, acted, took, stays, goes, messages_of, turns_of,
}
use coriolis_logger.Service.Interleaving.Watched.{IsUndisturbed, Steps-watched}

abbrev now : LogMessage → Time
now m = unix (pos 1571700001)

abbrev world : World library
world = record {
  store = record { cfg = influx; points = []; server = []; closed = false };
  stdout = [];
  hub = hub;
}

abbrev steps : List Act
steps =
    logs old_message
    ∷ takes takes_broadcast
    ∷ acts reads
    ∷ takes (sends 0)
    ∷ takes (receives 0)
    ∷ []

-- A turn, or the same hub after a panic.
abbrev turn : Turn → World library → World library
turn t w = elim (step t w.hub) [ ok h ↦ record w { hub = h } | _ ↦ w ]

abbrev logged_world : World library
logged_world = (writer library now syslog old_message world).0

abbrev broadcast_world : World library
broadcast_world = turn takes_broadcast logged_world

abbrev read_world : World library
read_world = record broadcast_world { store = call library reads broadcast_world.store }

abbrev sent_world : World library
sent_world = turn (sends 0) read_world

abbrev last : World library
last = turn (receives 0) sent_world

steps-run : Steps library now syslog steps world last
unfolding step write update fan_out pick send should_send call flush aggregate_write write_each
    configured_writers hub_writer store_writer
steps-run = goes logged (goes (took refl) (goes acted (goes (took refl) (goes (took refl) stays))))

none_refused : over refused (turns_of steps) hub ≡ []
unfolding over refused step write update fan_out pick send should_send
none_refused = refl

undisturbed : All (IsUndisturbed ids 0) steps
undisturbed = (tt, (tt, (tt, (tt, (tt, tt)))))

Steps-watched_example :
    Perm
      (over (taken 0) (turns_of steps) hub ++ due 0 all_messages last.hub)
      (due 0 all_messages hub ++ watched all_messages (messages_of steps))
Steps-watched_example =
    Steps-watched library now syslog ids 0 all_messages steps world last steps-run undisturbed
      hub-IsWatching none_refused
