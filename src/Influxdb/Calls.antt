-- ===== src/Influxdb/Calls.antt =====
-- The store under its users: the writer of messages, the readers, which flush it, and the worker's
-- loop. The mutex and the channels let them take turns, in any order.
use coriolis_logger.Common.{List, [], ◌∷◌, ◌++◌, if◌then◌else◌, Result, ok}
use coriolis_logger.Clock.{Time}
use coriolis_logger.Logging.{LogMessage}
use coriolis_logger.Influxdb.Client.{Library}
use coriolis_logger.Influxdb.{Store, Event, flush, point_of, write, on_event}

pub data Call : Type 0 where
  -- `Write` of a message, with the time of the clock
  writes : LogMessage → Time → Call
  -- the first `ReadNext` of a reader
  reads : Call
  -- what the loop of the worker receives, while it runs
  receives : Event → Call

module _ (lib : Library) where
  unfoldable pub call : Call → Store lib → Store lib
  call (writes msg now) s = (write lib msg now s).0
  call reads s = (flush lib s).0
  call (receives e) s = if s.closed then s else (on_event lib e s).0

  unfoldable pub run : List Call → Store lib → Store lib
  run [] s = s
  run (c ∷ calls) s = run calls (call c s)

  abbrev pub point_if_ok : Result (Unit {0}) → Result lib.Point → List lib.Point
  point_if_ok (ok done) (ok point) = point ∷ []
  point_if_ok _ _ = []

  -- The points of the messages whose `Write` returned no error, in order.
  unfoldable pub accepted : List Call → Store lib → List lib.Point
  accepted [] s = []
  accepted (writes msg now ∷ calls) s =
      point_if_ok (write lib msg now s).1 (point_of lib msg now)
      ++ accepted calls (call (writes msg now) s)
  accepted (c ∷ calls) s = accepted calls (call c s)
