-- ===== src/Influxdb/Buffer.antt =====
-- What each operation of the store does to its buffer of points.
use coriolis_logger.Common.{
  ◌≤◌, ◌<◌, ◌≡◌, refl, ◌⊎◌, inl, inr, arith, List, [], ◌∷◌, length, length-append, leb, Error,
  Result, ok, err, panic, Bool-cases,
}
use coriolis_logger.Clock.{Time}
use coriolis_logger.Logging.{LogMessage}
use coriolis_logger.Influxdb.Client.{Library}
use coriolis_logger.Influxdb.Calls.{Call, writes, reads, receives, call, run}
use coriolis_logger.Influxdb.{
  Store, max_points, Event, ctx_done, tick, quit, rotation_tick, flush, point_of, append_point,
  after_flush, write, rotate, on_event, cutoff,
}

module _ (lib : Library) where
  -- A flush empties the buffer or leaves it as it was.
  flush_points :
      (s : Store lib) → ((flush lib s).0.points ≡ []) ⊎ ((flush lib s).0.points ≡ s.points)
  unfolding flush
  flush_points s = ground arith

  -- A flush that succeeds empties the buffer.
  pub flush_ok-points : (s : Store lib) → (flush lib s).1 ≡ ok tt → (flush lib s).0.points ≡ []
  unfolding flush
  flush_ok-points s h = ground arith

  -- A flush that fails leaves the buffer as it was.
  flush_err-points :
      (s : Store lib) (e : Error) → (flush lib s).1 ≡ err e → (flush lib s).0.points ≡ s.points
  unfolding flush
  flush_err-points s e h = ground arith

  append_point-bounded :
      (s : Store lib) (r : Result lib.Point)
      → length s.points < max_points
      → length (append_point lib s r).0.points ≤ max_points
  unfolding append_point
  append_point-bounded s (ok point) h = omega (arith, length-append s.points (point ∷ []))
  append_point-bounded s (err e) h = omega arith
  append_point-bounded s panic h = omega arith

  after_flush-bounded :
      (msg : LogMessage) (now : Time) (s : Store lib) (r : Result (Unit {0}))
      → (r ≡ ok tt → length s.points < max_points)
      → length s.points ≤ max_points
      → length (after_flush lib msg now (s, r)).0.points ≤ max_points
  unfolding after_flush
  after_flush-bounded msg now s (ok done) room h =
      append_point-bounded s (point_of lib msg now) (room refl)
  after_flush-bounded msg now s (err e) room h = h
  after_flush-bounded msg now s panic room h = h

  -- The buffer never holds more than `max_points` points.
  write-bounded :
      (msg : LogMessage) (now : Time) (s : Store lib)
      → length s.points ≤ max_points
      → length (write lib msg now s).0.points ≤ max_points
  unfolding write after_flush
  write-bounded msg now s h = elim (Bool-cases (leb max_points (length s.points))) [
    | inl full ↦ rw full (
        after_flush-bounded msg now (flush lib s).0 (flush lib s).1
          (λ e. rw (flush_ok-points s e) (omega arith)) (ground (arith, flush_points s)))
    | inr room ↦ rw room (after_flush-bounded msg now s (ok tt) (λ _. ground arith) h)
  ]

  rotate-points : (t : Time) (s : Store lib) → (rotate lib t s).0.points ≡ s.points
  unfolding rotate
  rotate-points t s = ground arith

  on_event-bounded :
      (e : Event) (s : Store lib)
      → length s.points ≤ max_points
      → length (on_event lib e s).0.points ≤ max_points
  unfolding on_event
  on_event-bounded ctx_done s h = h
  on_event-bounded quit s h = h
  on_event-bounded tick s h = ground (arith, flush_points s)
  on_event-bounded (rotation_tick now) s h = ground (arith, rotate-points (cutoff s.cfg now) s)

  call-bounded :
      (c : Call) (s : Store lib)
      → length s.points ≤ max_points
      → length (call lib c s).points ≤ max_points
  unfolding call
  call-bounded (writes msg now) s h = write-bounded msg now s h
  call-bounded reads s h = ground (arith, flush_points s)
  call-bounded (receives e) s h = ground (arith, on_event-bounded e s)

  -- A buffer that holds at most 20000 points never holds more, whatever sequence of writes, first
  -- reads and events of the worker follows.
  pub run-bounded :
      (calls : List Call) (s : Store lib)
      → length s.points ≤ max_points
      → length (run lib calls s).points ≤ max_points
  unfolding run
  run-bounded [] s h = h
  run-bounded (c ∷ calls) s h = run-bounded calls (call lib c s) (call-bounded c s h)
