-- ===== src/Service/Shutdown.antt =====
-- The end of `main`: `cancel`, and the waits for the syslog worker and the datastore.
use coriolis_logger.Common.{◌≡◌, refl, ap, ◌∙◌, inl, true, false, List, [], ◌∷◌, ◌++◌, map, All}
use coriolis_logger.Clock.{Time}
use coriolis_logger.Logging.{LogMessage, LogParts}
use coriolis_logger.Logging.Fields.{IsWellTyped}
use coriolis_logger.Logging.Aggregate.{aggregate_write}
use coriolis_logger.Config.{Syslog}
use coriolis_logger.Influxdb.{Event, Status, running, returned, do_work}
use coriolis_logger.Influxdb
use coriolis_logger.Influxdb.Client.{Library}
use coriolis_logger.Influxdb.Loop.{do_work-stop}
use coriolis_logger.SyslogWorker
use coriolis_logger.SyslogWorker.{Server, Worker, Arrival, parts, finished, work, stop, after_stop}
use coriolis_logger.SyslogWorker.Stopping.{stop-Ends}
use coriolis_logger.SyslogWorker.Messages.{Messages}
use coriolis_logger.Service.{World, configured_writers}
use coriolis_logger.Service.Pipeline.{delivered, work-delivered}

module _ (lib : Library) (now : LogMessage → Time) (cfg : Syslog) where
  do_work-ctx_done :
      (events : List Event) (s : Influxdb.Store lib)
      → do_work lib (Influxdb.ctx_done ∷ events) s ≡ (record s { closed = true }, returned)
  unfolding do_work
  do_work-ctx_done events s = do_work-stop lib [] events Influxdb.ctx_done s (inl refl) refl

  -- For an open worker with the writers of main, after parsed messages of the types that the
  -- parsers give, the end of the context ends its loop whatever the server and the removal of the
  -- socket answer: it returns with its channel closed and those messages written, and the loop of
  -- the store, at the end of the context behind that, returns with the store as the messages left
  -- it, but closed.
  pub work-ctx_done :
      (server : Server) (received : List LogParts) (later : List Arrival) (events : List Event)
      (w : Worker (World lib))
      → All IsWellTyped received
      → w.closed ≡ false
      → (messages : List LogMessage) × (w' : Worker (World lib)) × Messages received messages
        × (work server
              (aggregate_write (configured_writers lib now cfg))
              (map parts received ++ SyslogWorker.ctx_done ∷ later)
              w
            ≡ (w', finished))
        × (w'.closed ≡ true)
        × (w'.world ≡ delivered lib now cfg messages w.world)
        × (do_work lib (Influxdb.ctx_done ∷ events) w'.world.store
            ≡ (record (delivered lib now cfg messages w.world).store { closed = true }, returned))
  unfolding work
  work-ctx_done server received later events w typed open_worker =
      let (messages, known, same) =
        work-delivered lib now cfg server received (SyslogWorker.ctx_done ∷ later) w typed in
      let v : Worker (World lib) = record w { world = delivered lib now cfg messages w.world } in
      let (ended, shut, channel_shut, kept) = stop-Ends server v open_worker in
      let r = after_stop server (stop server v) in
      (
        messages,
        r.0,
        known,
        same ∙ ap (λ q. (r.0, q)) ended,
        shut,
        kept,
        do_work-ctx_done events r.0.world.store
            ∙ ap (λ (x : World lib). (record x.store { closed = true }, returned)) kept,
      )
