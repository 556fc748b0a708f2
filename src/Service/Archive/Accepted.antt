-- ===== src/Service/Archive/Accepted.antt =====
-- The points that `Write` has accepted, as the messages of their applications.
use mathlib.Core.List.{append-nil}
use coriolis_logger.Common.{
  ◌≤◌, ◌≡◌, refl, sym, ap, ◌∙◌, inl, inr, arith, String, Bool, true, false, ◌&&◌, Bool-cases, List,
  [], ◌∷◌, ◌++◌, map, All, length, length-append, if◌then◌else◌, ◌==◌, is_ok, ok, Result-cases,
}
use coriolis_logger.Clock.{Time}
use coriolis_logger.Logging.{LogMessage}
use coriolis_logger.Influxdb.{Store, write, flush, point_of, point_time}
use coriolis_logger.Influxdb.Logged.{logged_within, write-point_of}
use coriolis_logger.Influxdb.Client.{Library}
use coriolis_logger.Influxdb.Calls.{Call, writes, reads, receives, call, run, point_if_ok, accepted}
use coriolis_logger.Influxdb.Buffer.{flush_ok-points}
use coriolis_logger.Influxdb.Conservation.Stored.{flush-kept, IsQuiet, run-quiet}
use coriolis_logger.Service.Archive.{named, those, Database}

module _ (lib : Library) where
  pub length-named :
      (measurement : lib.Point → String) (name : String) (points : List lib.Point)
      → length (named lib measurement name points) ≤ length points
  length-named measurement name [] = omega arith
  length-named measurement name (p ∷ points) = ground (arith, length-named measurement name points)

  module _ (db : Database lib) where
    open db use {measurement, text, new_point_known}

    -- The messages of the points of a measurement whose times are kept.
    abbrev pub messages_of : (Time → Bool) → String → List lib.Point → List String
    messages_of keep name points =
        map text (those lib (λ p. keep (db.time p)) (named lib measurement name points))

    one_point :
        (keep : Time → Bool) (name : String) (msg : LogMessage) (t : Time) (p : lib.Point)
        → measurement p ≡ msg.app_name
        → text p ≡ msg.message
        → db.time p ≡ t
        → messages_of keep name (p ∷ [])
          ≡ (if (msg.app_name == name && keep t) && true then msg.message ∷ [] else [])
    one_point keep name msg t p by called at = elim (Bool-cases (msg.app_name == name)) [
      | inl same ↦ elim (Bool-cases (keep t)) [
        | inl within ↦ rw (by, same, at, within, called) refl
        | inr without ↦ rw (by, same, at, without) refl
      ]
      | inr other ↦ rw (by, other) refl
    ]

    no_point :
        (b : Bool) (m : String) → ◌≡◌ {A = List String} [] (if b && false then m ∷ [] else [])
    no_point true m = refl
    no_point false m = refl

    -- The message of a call, if it is of this application, at a time that is kept, and was taken.
    of_call :
        (keep : Time → Bool) (name : String) (msg : LogMessage) (now : Time) (s : Store lib)
        → messages_of keep name (point_if_ok lib (write lib msg now s).1 (point_of lib msg now)) ≡ (
            if (msg.app_name == name && keep (point_time msg now)) && is_ok (write lib msg now s).1
            then msg.message ∷ []
            else [])
    unfolding point_of
    of_call keep name msg now s = elim (Result-cases (write lib msg now s).1) [
      | inl (done, taken) ↦
          let (p, e) = write-point_of lib msg now s (ap is_ok taken) in
          let (by, called, at, host) = new_point_known _ _ _ _ p e in
          rw (taken, e) (one_point keep name msg (point_time msg now) p by called at)
      | inr (inl (x, failed)) ↦
          rw failed (no_point (msg.app_name == name && keep (point_time msg now)) msg.message)
      | inr (inr crashed) ↦
          rw crashed (no_point (msg.app_name == name && keep (point_time msg now)) msg.message)
    ]

    messages_of-append :
        (keep : Time → Bool) (name : String) (xs ys : List lib.Point)
        → messages_of keep name (xs ++ ys) ≡ messages_of keep name xs ++ messages_of keep name ys
    messages_of-append keep name [] ys = refl
    messages_of-append keep name (p ∷ xs) ys =
        let rest = messages_of-append keep name xs ys in
        elim (Bool-cases (measurement p == name)) [
          | inl same ↦ elim (Bool-cases (keep (db.time p))) [
            | inl within ↦ rw (same, within) (ap (λ l. text p ∷ l) rest)
            | inr without ↦ rw (same, without) rest
          ]
          | inr other ↦ rw other rest
        ]

    pub accepted-logged_within :
        (keep : Time → Bool) (name : String) (calls : List Call) (s : Store lib)
        → messages_of keep name (accepted lib calls s) ≡ logged_within lib name keep calls s
    unfolding accepted
    accepted-logged_within keep name [] s = refl
    accepted-logged_within keep name (writes msg now ∷ calls) s =
        let later = accepted lib calls (call lib (writes msg now) s) in
        messages_of-append keep name
          (point_if_ok lib (write lib msg now s).1 (point_of lib msg now)) later
        ∙ ap (λ l. l ++ messages_of keep name later) (of_call keep name msg now s)
        ∙ ap
            (λ l.
              (if (msg.app_name == name && keep (point_time msg now))
                  && is_ok (write lib msg now s).1
                then msg.message ∷ []
                else [])
              ++ l)
            (accepted-logged_within keep name calls (call lib (writes msg now) s))
    accepted-logged_within keep name (reads ∷ calls) s =
        accepted-logged_within keep name calls (call lib reads s)
    accepted-logged_within keep name (receives e ∷ calls) s =
        accepted-logged_within keep name calls (call lib (receives e) s)

    pub length-accepted :
        (calls : List Call) (s : Store lib) → length (accepted lib calls s) ≤ length calls
    unfolding accepted
    length-accepted [] s = omega arith
    length-accepted (writes msg now ∷ calls) s = ground (
      arith,
      length-append (point_if_ok lib (write lib msg now s).1 (point_of lib msg now))
          (accepted lib calls (call lib (writes msg now) s)),
      length-accepted calls (call lib (writes msg now) s),
    )
    length-accepted (reads ∷ calls) s =
        let h = length-accepted calls (call lib reads s) in omega arith
    length-accepted (receives e ∷ calls) s =
        let h = length-accepted calls (call lib (receives e) s) in omega arith

    -- After a flush without an error the server holds what was accepted.
    pub stored-flush :
        (calls : List Call) (s : Store lib)
        → s.points ≡ []
        → db.storage.stored s.server ≡ []
        → All (IsQuiet lib db.storage) calls
        → (flush lib (run lib calls s)).1 ≡ ok tt
        → db.storage.stored (flush lib (run lib calls s)).0.server ≡ accepted lib calls s
    stored-flush calls s no_points fresh quiet flushed =
        let after = run lib calls s in
        sym (append-nil _)
        ∙ ap (λ l. db.storage.stored (flush lib after).0.server ++ l)
            (sym (flush_ok-points lib after flushed))
        ∙ flush-kept lib db.storage after
        ∙ run-quiet lib db.storage calls s quiet
        ∙ ap (λ l. (l ++ s.points) ++ accepted lib calls s) fresh
        ∙ ap (λ l. l ++ accepted lib calls s) no_points
