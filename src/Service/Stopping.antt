-- ===== src/Service/Stopping.antt =====
-- The three workers that main starts, under the interface of worker/worker.go.
mod Tests
use coriolis_logger.Common.{List}
use coriolis_logger.Influxdb
use coriolis_logger.Influxdb.{Event}
use coriolis_logger.Influxdb.Client.{Library}
use coriolis_logger.Websocket.Hub
use coriolis_logger.Websocket.Hub.{Turn}
use coriolis_logger.SyslogWorker
use coriolis_logger.SyslogWorker.{Server}
use coriolis_logger.Worker.{StopsOnce}

-- For each of the three workers, whatever its loop does meanwhile: a Stop without an error leaves
-- a worker on which Wait returns, and after a Stop that does not panic a second one panics.
pub workers-StopsOnce :
    (lib : Library) (server : Server) (W : Type 0) (events : List Event) (turns : List Turn)
    → StopsOnce (Influxdb.Stopping.stop lib events) (λ w. w.store.closed)
      × StopsOnce (Hub.Stopping.stop turns) (λ w. w.hub.closed)
      × StopsOnce (SyslogWorker.stop server {W = W}) (λ w. w.closed)
workers-StopsOnce lib server W events turns = (
  Influxdb.Stopping.stop-StopsOnce lib events,
  Hub.Stopping.stop-StopsOnce turns,
  SyslogWorker.Stopping.stop-StopsOnce server,
)
