-- ===== src/Influxdb/Answering.antt =====
-- `Write` returns; and a store whose server takes every batch, and whose library makes every point that
-- has a measurement.
use coriolis_logger.Common.{
  ◌≡◌, ◌≢◌, refl, inl, inr, String, true, Bool-cases, none, List, [], ◌∷◌, length, leb, is_ok, ok,
  panic, arith,
}
use coriolis_logger.Clock.{Time}
use coriolis_logger.Logging.{LogMessage}
use coriolis_logger.Influxdb.{
  Store, max_points, write_batch, after_write, write, flush, point_of, append_point, after_flush,
}
use coriolis_logger.Influxdb.Client.{Library, result_of}

module _ (lib : Library) where
  flush-returns : (s : Store lib) → (flush lib s).1 ≢ panic
  unfolding flush write_batch after_write
  flush-returns s h = ground arith

  -- `Write` does not panic: the functions of the client library that it calls give a value or an error.
  write-returns : (msg : LogMessage) (now : Time) (s : Store lib) → (write lib msg now s).1 ≢ panic
  unfolding write after_flush append_point point_of
  write-returns msg now s h = ground (arith, flush-returns s)

pub record IsUp (lib : Library) : Type 0 where
  pub batch : (database : String) → result_of (lib.new_batch_points database "ns") ≡ ok tt
  pub taken :
      (server : lib.Server) (database : String) (points : List lib.Point)
      → (lib.write server database points).1 ≡ none
  pub made :
      (name message : String) (tags : List (String × String)) (t : Time)
      → name ≢ ""
      → (p : lib.Point) × (result_of (lib.new_point name tags (("message", message) ∷ []) t) ≡ ok p)

module _ (lib : Library) (up : IsUp lib) where
  open up use {batch, taken, made}

  write_batch-ok : (s : Store lib) (points : List lib.Point) → (write_batch lib s points).1 ≡ ok tt
  unfolding write_batch after_write
  write_batch-ok s [] = refl
  write_batch-ok s (p ∷ points) = rw (taken s.server s.cfg.database (p ∷ points)) refl

  pub flush-ok : (s : Store lib) → (flush lib s).1 ≡ ok tt
  unfolding flush
  flush-ok s = rw (batch s.cfg.database, flush) (write_batch-ok s s.points)

  pub made_point :
      (msg : LogMessage) (now : Time)
      → msg.app_name ≢ ""
      → (p : lib.Point) × (point_of lib msg now ≡ ok p)
  unfolding point_of
  made_point msg now h = made _ _ _ _ h

  -- Whatever the buffer holds, the write makes room and appends the point.
  pub write-is_ok :
      (msg : LogMessage) (now : Time) (s : Store lib)
      → msg.app_name ≢ ""
      → is_ok (write lib msg now s).1 ≡ true
  unfolding write after_flush append_point
  write-is_ok msg now s h =
      let (p, e) = made_point msg now h in
      elim (Bool-cases (leb max_points (length s.points))) [
        | inl full ↦ rw (full, flush-ok s, e) refl
        | inr room ↦ rw (room, e) refl
      ]
