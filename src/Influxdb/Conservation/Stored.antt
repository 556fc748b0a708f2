-- ===== src/Influxdb/Conservation/Stored.antt =====
-- What the operations that write to a server do to the points that it and the buffer hold.
use mathlib.Core.List.{append-nil, append_assoc}
use coriolis_logger.Common.{
  All, All-map, ◌≡◌, refl, sym, ap, ◌∙◌, inl, inr, arith, Option, none, some, List, [], ◌∷◌, ◌++◌,
  length, leb, Error, Result, ok, err, panic, Bool-cases,
}
use coriolis_logger.Clock.{Time}
use coriolis_logger.Logging.{LogMessage}
use coriolis_logger.Influxdb.Client.{Library, Storage}
use coriolis_logger.Influxdb.{
  Store, max_points, ctx_done, tick, quit, rotation_tick, after_write, write_batch, flush, point_of,
  append_point, after_flush, write, on_event,
}
use coriolis_logger.Influxdb.Calls.{Call, writes, reads, receives, call, run, point_if_ok, accepted}

module _ (lib : Library) (storage : Storage lib) where
  open storage use {stored, write_ok, write_failed}

  -- All that the server has got or that waits in the buffer, in order.
  abbrev pub kept : Store lib → List lib.Point
  kept s = stored s.server ++ s.points

  after_write-kept :
      (s : Store lib) (server : lib.Server) (e : Option Error)
      → (e ≡ none → stored server ≡ stored s.server ++ s.points)
      → ((x : Error) → e ≡ some x → stored server ≡ stored s.server)
      → kept (after_write lib s (server, e)).0 ≡ kept s
  unfolding after_write
  after_write-kept s server none sent failed = append-nil (stored server) ∙ sent refl
  after_write-kept s server (some x) sent failed = ap (λ l. l ++ s.points) (failed x refl)

  write_batch-kept :
      (s : Store lib) (points : List lib.Point)
      → s.points ≡ points
      → kept (write_batch lib s points).0 ≡ kept s
  unfolding write_batch
  write_batch-kept s [] e = refl
  write_batch-kept s (x ∷ points) e =
      let db = s.cfg.database in
      after_write-kept s (lib.write s.server db (x ∷ points)).0
        (lib.write s.server db (x ∷ points)).1
        (λ h. write_ok s.server db (x ∷ points) h ∙ ap (λ l. stored s.server ++ l) (sym e))
        (λ x' h. write_failed s.server db (x ∷ points) x' h)

  pub flush-kept : (s : Store lib) → kept (flush lib s).0 ≡ kept s
  unfolding flush
  flush-kept s = ground (arith, write_batch-kept s s.points refl)

  append_point-kept :
      (s : Store lib) (r : Result lib.Point)
      → kept (append_point lib s r).0 ≡ kept s ++ point_if_ok lib (append_point lib s r).1 r
  unfolding append_point
  append_point-kept s (ok point) = sym (append_assoc (stored s.server) s.points (point ∷ []))
  append_point-kept s (err e) = sym (append-nil _)
  append_point-kept s panic = sym (append-nil _)

  after_flush-kept :
      (msg : LogMessage) (now : Time) (s : Store lib) (r : Result (Unit {0}))
      → kept (after_flush lib msg now (s, r)).0
        ≡ kept s ++ point_if_ok lib (after_flush lib msg now (s, r)).1 (point_of lib msg now)
  unfolding after_flush
  after_flush-kept msg now s (ok done) = append_point-kept s (point_of lib msg now)
  after_flush-kept msg now s (err e) = sym (append-nil _)
  after_flush-kept msg now s panic = sym (append-nil _)

  write-kept :
      (msg : LogMessage) (now : Time) (s : Store lib)
      → kept (write lib msg now s).0
        ≡ kept s ++ point_if_ok lib (write lib msg now s).1 (point_of lib msg now)
  unfolding write
  write-kept msg now s = elim (Bool-cases (leb max_points (length s.points))) [
    | inl full ↦ rw full (
        after_flush-kept msg now (flush lib s).0 (flush lib s).1
        ∙ ap
            (λ l.
              l ++ point_if_ok lib (after_flush lib msg now (flush lib s)).1 (point_of lib msg now))
            (flush-kept s))
    | inr room ↦ rw room (after_flush-kept msg now s (ok tt))
  ]

  reads-kept : (s : Store lib) → kept (call lib reads s) ≡ kept s
  unfolding call
  reads-kept s = flush-kept s

  writes-kept :
      (msg : LogMessage) (now : Time) (s : Store lib)
      → kept (call lib (writes msg now) s)
        ≡ kept s ++ point_if_ok lib (write lib msg now s).1 (point_of lib msg now)
  unfolding call
  writes-kept msg now s = write-kept msg now s

  -- An event that is no loss to the points.
  abbrev pub Keeps : Call → Type 0
  Keeps (receives e) = (s : Store lib) → kept (call lib (receives e) s) ≡ kept s
  Keeps _ = Unit

  pub run-stored :
      (calls : List Call) (s : Store lib)
      → All Keeps calls
      → kept (run lib calls s) ≡ kept s ++ accepted lib calls s
  unfolding run accepted
  run-stored [] s h = sym (append-nil (kept s))
  run-stored (writes msg now ∷ calls) s (tt, h) =
      let after = accepted lib calls (call lib (writes msg now) s) in
      run-stored calls (call lib (writes msg now) s) h
      ∙ ap (λ l. l ++ after) (writes-kept msg now s)
      ∙ append_assoc (kept s) (point_if_ok lib (write lib msg now s).1 (point_of lib msg now)) after
  run-stored (reads ∷ calls) s (tt, h) =
      run-stored calls (call lib reads s) h
      ∙ ap (λ l. l ++ accepted lib calls (call lib reads s)) (reads-kept s)
  run-stored (receives e ∷ calls) s (keeps, h) =
      run-stored calls (call lib (receives e) s) h
      ∙ ap (λ l. l ++ accepted lib calls (call lib (receives e) s)) (keeps s)

  tick-kept : (s : Store lib) → kept (call lib (receives tick) s) ≡ kept s
  unfolding call on_event
  tick-kept s = ground (arith, flush-kept s)

  stop-kept : (s : Store lib) → kept (call lib (receives ctx_done) s) ≡ kept s
  unfolding call on_event
  stop-kept s = ground arith

  quit-kept : (s : Store lib) → kept (call lib (receives quit) s) ≡ kept s
  unfolding call on_event
  quit-kept s = ground arith

  -- Without a rotation nothing is lost.
  abbrev pub IsQuiet : Call → Type 0
  IsQuiet (receives (rotation_tick now)) = ⊥
  IsQuiet _ = Unit

  IsQuiet-Keeps : (c : Call) → IsQuiet c → Keeps c
  IsQuiet-Keeps (writes msg now) h = tt
  IsQuiet-Keeps reads h = tt
  IsQuiet-Keeps (receives tick) h = tick-kept
  IsQuiet-Keeps (receives ctx_done) h = stop-kept
  IsQuiet-Keeps (receives quit) h = quit-kept
  IsQuiet-Keeps (receives (rotation_tick now)) h = absurd h

  pub run-quiet :
      (calls : List Call) (s : Store lib)
      → All IsQuiet calls
      → kept (run lib calls s) ≡ kept s ++ accepted lib calls s
  run-quiet calls s h = run-stored calls s (All-map IsQuiet Keeps calls IsQuiet-Keeps h)
