-- ===== src/Service/Journey.antt =====
-- From the messages that the syslog server parses to the download of a log over the API server.
pub mod Received
mod Tests
use mathlib.Core.List.{Memᴰ, append-nil}
use coriolis_logger.Common.{
  ℕ, suc, ◌<◌, ◌≡◌, ◌≢◌, refl, sym, ap, ◌∙◌, subst, inl, inr, arith, String, Bool, true, false,
  Bool-cases, Option, none, some, Error, List, [], ◌∷◌, ◌++◌, map, All, length, if◌then◌else◌, ◌==◌,
  eq_iff, Result, Result-cases, ◌⊎◌, err, panic, ok, is_ok,
}
use coriolis_logger.Clock.{Time}
use coriolis_logger.Logging.{LogMessage, LogParts}
use coriolis_logger.Logging.Fields.{IsWellTyped}
use coriolis_logger.Influxdb.{Store, write, point_of, point_time}
use coriolis_logger.Influxdb.Client.{Library}
use coriolis_logger.Influxdb.Calls.{Call, writes, call, run, accepted, point_if_ok}
use coriolis_logger.Influxdb.Logged.{logged}
use coriolis_logger.Influxdb.Answering.{IsUp, made_point, write-is_ok, flush-ok}
use coriolis_logger.Influxdb.Conservation.Stored.{IsQuiet}
use coriolis_logger.Service.Archive.{IsPlain, IsChronological, named, Database}

-- The messages of an application, in order.
abbrev pub of_app : String → List LogMessage → List LogMessage
of_app name [] = []
of_app name (m ∷ messages) =
    let rest = of_app name messages in if m.app_name == name then m ∷ rest else rest

module _ (lib : Library) (now : LogMessage → Time) where
  abbrev pub write_all : List LogMessage → List Call
  write_all messages = map (λ m. writes m (now m)) messages

  pub write_all-IsQuiet :
      (db : Database lib) (messages : List LogMessage)
      → All (IsQuiet lib db.storage) (write_all messages)
  write_all-IsQuiet db [] = tt
  write_all-IsQuiet db (m ∷ messages) = (tt, write_all-IsQuiet db messages)

  pub length-write_all :
      (messages : List LogMessage) → length (write_all messages) ≡ length messages
  length-write_all [] = refl
  length-write_all (m ∷ messages) = ap suc (length-write_all messages)

  point_if_ok-cases :
      (r : Result (Unit {0})) (point : Result lib.Point)
      → (point_if_ok lib r point ≡ [])
        ⊎ ((p : lib.Point) × (point ≡ ok p) × (point_if_ok lib r point ≡ p ∷ []))
  point_if_ok-cases (ok done) (ok p) = inr (p, refl, refl)
  point_if_ok-cases (ok done) (err e) = inl refl
  point_if_ok-cases (ok done) panic = inl refl
  point_if_ok-cases (err e) point = inl refl
  point_if_ok-cases panic point = inl refl

  module _ (up : IsUp lib) (name : String) (given : name ≢ "") where
    named_app : (m : LogMessage) → (m.app_name == name) ≡ true → m.app_name ≢ ""
    named_app m same = λ e. given (sym ((eq_iff m.app_name name).0 same) ∙ e)

    -- None of the messages of the application is refused.
    pub logged-write_all :
        (messages : List LogMessage) (s : Store lib)
        → logged lib name (write_all messages) s ≡ map (λ m. m.message) (of_app name messages)
    logged-write_all [] s = refl
    logged-write_all (m ∷ messages) s =
        let later = logged-write_all messages (call lib (writes m (now m)) s) in
        elim (Bool-cases (m.app_name == name)) [
          | inl same ↦ rw (same, write-is_ok lib up m (now m) s (named_app m same), later) refl
          | inr other ↦ rw (other, later) refl
        ]

    module _ (db : Database lib) where
      abbrev pub times : List lib.Point → List Time
      times points = map db.time (named lib db.measurement name points)

      point-known :
          (m : LogMessage) (t : Time) (p : lib.Point)
          → point_of lib m t ≡ ok p
          → (db.measurement p ≡ m.app_name) × (db.time p ≡ point_time m t)
      unfolding point_of
      point-known m t p e = let (by, called, at, host) = db.new_point_known _ _ _ _ p e in (by, at)

      -- One message of the application adds one point to those of a measurement.
      times-same :
          (m : LogMessage) (s : Store lib) (later : List lib.Point)
          → (m.app_name == name) ≡ true
          → times (point_if_ok lib (write lib m (now m) s).1 (point_of lib m (now m)) ++ later)
            ≡ point_time m (now m) ∷ times later
      times-same m s later same =
          let (p, e) = made_point lib up m (now m) (named_app m same) in
          let (by, at) = point-known m (now m) p e in
          let taken = write-is_ok lib up m (now m) s (named_app m same) in
          elim (Result-cases (write lib m (now m) s).1) [
            | inl (done, passed) ↦ rw (passed, e, by, same, at) refl
            | inr (inl (x, failed)) ↦ ground arith
            | inr (inr crashed) ↦ ground arith
          ]

      times-other :
          (m : LogMessage) (s : Store lib) (later : List lib.Point)
          → (m.app_name == name) ≡ false
          → times (point_if_ok lib (write lib m (now m) s).1 (point_of lib m (now m)) ++ later)
            ≡ times later
      times-other m s later other =
          elim (point_if_ok-cases (write lib m (now m) s).1 (point_of lib m (now m))) [
            | inl nothing ↦ rw nothing refl
            | inr (p, e, one) ↦ rw one (rw ((point-known m (now m) p e).0, other) refl)
          ]

      -- The points of the application have the times of its messages.
      pub times-accepted :
          (messages : List LogMessage) (s : Store lib)
          → times (accepted lib (write_all messages) s)
            ≡ map (λ m. point_time m (now m)) (of_app name messages)
      unfolding accepted
      times-accepted [] s = refl
      times-accepted (m ∷ messages) s =
          let later = times-accepted messages (call lib (writes m (now m)) s) in
          elim (Bool-cases (m.app_name == name)) [
            | inl same ↦ rw (same, times-same m s _ same, later) refl
            | inr other ↦ rw (other, times-other m s _ other, later) refl
          ]
