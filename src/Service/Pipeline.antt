-- ===== src/Service/Pipeline.antt =====
-- From the messages that the syslog server parses to the store, the standard output and the hub.
use mathlib.Core.List.{append_assoc, append-nil}
use coriolis_logger.Common.{
  ◌≡◌, refl, sym, ap, ◌∙◌, String, Bool, List, [], ◌∷◌, ◌++◌, map, All, if◌then◌else◌, Bool-cases,
  inl, inr,
}
use coriolis_logger.Clock.{Time}
use coriolis_logger.Logging.{LogMessage, LogParts}
use coriolis_logger.Logging.Fields.{IsWellTyped}
use coriolis_logger.Logging.Aggregate.{Writer, aggregate_write, write_each}
use coriolis_logger.Config.{Syslog}
use coriolis_logger.Influxdb
use coriolis_logger.Influxdb.{Store}
use coriolis_logger.Influxdb.Client.{Library}
use coriolis_logger.Influxdb.Calls.{writes, call, run}
use coriolis_logger.Websocket.Hub
use coriolis_logger.Websocket.Hub.{Hub}
use coriolis_logger.SyslogWorker.{Server, Worker, Arrival, parts, work}
use coriolis_logger.SyslogWorker.Messages.{Messages, Messages-exist, written, work-written}
use coriolis_logger.Service.{World, store_writer, stdout_writer, hub_writer, configured_writers}

abbrev broadcasts : List LogMessage → Hub → Hub
broadcasts [] hub = hub
broadcasts (m ∷ messages) hub = broadcasts messages (Hub.write m hub).0

abbrev pub printed : Bool → List LogMessage → List String
printed enabled [] = []
printed enabled (m ∷ messages) =
    (if enabled then m.message ∷ [] else []) ++ printed enabled messages

module _ (lib : Library) (now : LogMessage → Time) (cfg : Syslog) where
  -- Each component as the messages reach it, on its own.
  abbrev pub delivered : List LogMessage → World lib → World lib
  delivered messages w = record {
    store = run lib (map (λ m. writes m (now m)) messages) w.store;
    stdout = w.stdout ++ printed cfg.log_to_stdout messages;
    hub = broadcasts messages w.hub;
  }

  abbrev pub writer : Writer (World lib)
  writer = aggregate_write (configured_writers lib now cfg)

  pub writer-World :
      (m : LogMessage) (w : World lib)
      → (writer m w).0 ≡ record {
        store = call lib (writes m (now m)) w.store;
        stdout = w.stdout ++ (if cfg.log_to_stdout then m.message ∷ [] else []);
        hub = (Hub.write m w.hub).0;
      }
  unfolding aggregate_write write_each configured_writers store_writer stdout_writer hub_writer call
  writer-World m w = elim (Bool-cases cfg.log_to_stdout) [
    | inl enabled ↦ rw (enabled, configured_writers) refl
    | inr disabled ↦
        rw (disabled, configured_writers)
          (ap
            (λ (o : List String). record {
              store = (Influxdb.write lib m (now m) w.store).0;
              stdout = o;
              hub = (Hub.write m w.hub).0;
            })
            (sym (append-nil w.stdout)))
  ]

  written-delivered :
      (messages : List LogMessage) (w : World lib)
      → written writer messages w ≡ delivered messages w
  unfolding run
  written-delivered [] w =
      ap (λ (o : List String). record w { stdout = o }) (sym (append-nil w.stdout))
  written-delivered (m ∷ messages) w =
      let next = (writer m w).0 in
      written-delivered messages next
      ∙ ap (delivered messages) (writer-World m w)
      ∙ ap
          (λ (o : List String).
            record (delivered messages (record {
              store = call lib (writes m (now m)) w.store;
              stdout = w.stdout;
              hub = (Hub.write m w.hub).0;
            })) { stdout = o })
          (append_assoc w.stdout _ _)

  -- The loop of the worker with those writers.
  pub work-delivered_as :
      (server : Server) (received : List LogParts) (messages : List LogMessage)
      (later : List Arrival) (w : Worker (World lib))
      → All IsWellTyped received
      → Messages received messages
      → work server writer (map parts received ++ later) w
        ≡ work server writer later (record w { world = delivered messages w.world })
  work-delivered_as server received messages later w typed known =
      work-written writer server received messages later w typed known
      ∙ ap (λ x. work server writer later (record w { world = x }))
          (written-delivered messages w.world)

  -- For parsed messages whose fields have the types that the parsers give them, and the writers
  -- that main configures: the messages that they stand for come, all of them and in order, to the
  -- store, to the standard output if it is configured, and to the hub, each as if it were the only
  -- writer, and the loop of the worker goes on with what arrives behind them.
  pub work-delivered :
      (server : Server) (received : List LogParts) (later : List Arrival) (w : Worker (World lib))
      → All IsWellTyped received
      → (messages : List LogMessage) × Messages received messages
        × (work server
              (aggregate_write (configured_writers lib now cfg))
              (map parts received ++ later)
              w
            ≡ work server
                (aggregate_write (configured_writers lib now cfg))
                later
                (record w { world = delivered messages w.world }))
  work-delivered server received later w typed =
      let (messages, known) = Messages-exist received typed in
      (messages, known, work-delivered_as server received messages later w typed known)
