-- ===== src/Service/Stopping/Tests.antt =====
-- Workers that are stopped, and the theorem on them.
use coriolis_logger.Common.{String, List, [], ◌∷◌}
use coriolis_logger.Influxdb
use coriolis_logger.Influxdb.{tick}
use coriolis_logger.Influxdb.Tests.{library}
use coriolis_logger.Websocket.Hub
use coriolis_logger.Websocket.Hub.{quits, takes_broadcast}
use coriolis_logger.SyslogWorker
use coriolis_logger.SyslogWorker.Tests.{server}
use coriolis_logger.Worker.{StopsOnce}
use coriolis_logger.Service.Stopping.{workers-StopsOnce}

workers-StopsOnce_example :
    StopsOnce (Influxdb.Stopping.stop library (tick ∷ [])) (λ w. w.store.closed)
    × StopsOnce (Hub.Stopping.stop (takes_broadcast ∷ quits ∷ [])) (λ w. w.hub.closed)
    × StopsOnce (SyslogWorker.stop server {W = List String}) (λ w. w.closed)
workers-StopsOnce_example =
    workers-StopsOnce library server (List String) (tick ∷ []) (takes_broadcast ∷ quits ∷ [])
