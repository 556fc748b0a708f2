-- ===== src/Influxdb/Logged.antt =====
-- The messages that `Write` has taken without an error.
use coriolis_logger.Common.{
  ◌≡◌, refl, inl, inr, String, Bool, true, ◌&&◌, Bool-cases, List, [], ◌∷◌, ◌++◌, length, leb,
  if◌then◌else◌, ◌==◌, Result, is_ok, ok, err, panic,
}
use coriolis_logger.Clock.{Time}
use coriolis_logger.Logging.{LogMessage}
use coriolis_logger.Influxdb.{
  Store, max_points, write, flush, point_of, point_time, append_point, after_flush,
}
use coriolis_logger.Influxdb.Client.{Library}
use coriolis_logger.Influxdb.Calls.{Call, writes, reads, receives, call}

module _ (lib : Library) where
  -- The messages of an application whose `Write` returned no error, in order.
  abbrev pub logged : String → List Call → Store lib → List String
  logged name [] s = []
  logged name (writes msg now ∷ calls) s =
      (if msg.app_name == name && is_ok (write lib msg now s).1 then msg.message ∷ [] else [])
      ++ logged name calls (call lib (writes msg now) s)
  logged name (reads ∷ calls) s = logged name calls (call lib reads s)
  logged name (receives e ∷ calls) s = logged name calls (call lib (receives e) s)

  -- The same for those whose points have times to keep.
  abbrev pub logged_within : String → (Time → Bool) → List Call → Store lib → List String
  logged_within name keep [] s = []
  logged_within name keep (writes msg now ∷ calls) s =
      (if (msg.app_name == name && keep (point_time msg now)) && is_ok (write lib msg now s).1
        then msg.message ∷ []
        else [])
      ++ logged_within name keep calls (call lib (writes msg now) s)
  logged_within name keep (reads ∷ calls) s = logged_within name keep calls (call lib reads s)
  logged_within name keep (receives e ∷ calls) s =
      logged_within name keep calls (call lib (receives e) s)

  pub logged_within-always :
      (name : String) (calls : List Call) (s : Store lib)
      → logged_within name (λ t. true) calls s ≡ logged name calls s
  logged_within-always name [] s = refl
  logged_within-always name (writes msg now ∷ calls) s =
      let later = logged_within-always name calls (call lib (writes msg now) s) in
      elim (Bool-cases (msg.app_name == name)) [
        | inl same ↦ rw (same, later) refl
        | inr other ↦ rw (other, later) refl
      ]
  logged_within-always name (reads ∷ calls) s = logged_within-always name calls (call lib reads s)
  logged_within-always name (receives e ∷ calls) s =
      logged_within-always name calls (call lib (receives e) s)

  append_point-ok :
      (s : Store lib) (r : Result lib.Point)
      → is_ok (append_point lib s r).1 ≡ true
      → (p : lib.Point) × (r ≡ ok p)
  unfolding append_point
  append_point-ok s (ok p) h = (p, refl)
  append_point-ok s (err e) h = cc
  append_point-ok s panic h = cc

  after_flush-ok :
      (msg : LogMessage) (now : Time) (s : Store lib) (r : Result (Unit {0}))
      → is_ok (after_flush lib msg now (s, r)).1 ≡ true
      → (p : lib.Point) × (point_of lib msg now ≡ ok p)
  unfolding after_flush
  after_flush-ok msg now s (ok done) h = append_point-ok s (point_of lib msg now) h
  after_flush-ok msg now s (err e) h = cc
  after_flush-ok msg now s panic h = cc

  -- A write without an error has made a point.
  pub write-point_of :
      (msg : LogMessage) (now : Time) (s : Store lib)
      → is_ok (write lib msg now s).1 ≡ true
      → (p : lib.Point) × (point_of lib msg now ≡ ok p)
  unfolding write
  write-point_of msg now s h = elim (Bool-cases (leb max_points (length s.points))) [
    | inl full ↦ after_flush-ok msg now (flush lib s).0 (flush lib s).1 (rw (full, write) at h)
    | inr room ↦ after_flush-ok msg now s (ok tt) (rw (room, write) at h)
  ]
