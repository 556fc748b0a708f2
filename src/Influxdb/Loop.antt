-- ===== src/Influxdb/Loop.antt =====
-- The loop of `doWork`.
use coriolis_logger.Common.{
  ◌≡◌, refl, ◌⊎◌, inl, inr, arith, true, false, List, [], ◌∷◌, ◌++◌, map, ap, ◌∙◌, sym, subst,
}
use coriolis_logger.Influxdb.Client.{Library}
use coriolis_logger.Influxdb.{
  Store, Event, ctx_done, tick, quit, rotation_tick, Status, running, returned, panicked, go_on,
  flush, rotate, on_event, do_work,
}
use coriolis_logger.Influxdb.Calls.{receives, call, run}

-- What ends the loop: the end of the context, or `Stop`.
abbrev pub IsStop : Event → Type 0
IsStop e = (e ≡ ctx_done) ⊎ (e ≡ quit)

module _ (lib : Library) where
  go_on-running :
      (f : Store lib → Store lib × Status) (r : Store lib × Status)
      → (go_on lib f r).1 ≡ running
      → (r.1 ≡ running) × ((g : Store lib → Store lib × Status) → go_on lib g r ≡ g r.0)
  go_on-running f (s, running) h = (refl, λ g. refl)
  go_on-running f (s, returned) h = cc
  go_on-running f (s, panicked) h = cc

  on_event-stop :
      (e : Event) (s : Store lib)
      → IsStop e
      → on_event lib e s ≡ (record s { closed = true }, returned)
  unfolding on_event
  on_event-stop e s (inl stop) = rw (stop, on_event) refl
  on_event-stop e s (inr stop) = rw (stop, on_event) refl

  -- If the loop of the worker is still running after some events and then receives a stop, it
  -- returns with its channel closed, the later events are not handled, and the store is otherwise
  -- as it was: the buffer is not flushed.
  pub do_work-stop :
      (xs ys : List Event) (e : Event) (s : Store lib)
      → IsStop e
      → (do_work lib xs s).1 ≡ running
      → do_work lib (xs ++ e ∷ ys) s ≡ (record (do_work lib xs s).0 { closed = true }, returned)
  unfolding do_work
  do_work-stop [] ys e s stop h = ap (go_on lib (do_work lib ys)) (on_event-stop e s stop)
  do_work-stop (x ∷ xs) ys e s stop h =
      let r = on_event lib x s in
      let (going, step) = go_on-running (do_work lib xs) r h in
      step (do_work lib (xs ++ e ∷ ys))
      ∙ do_work-stop xs ys e r.0 stop (subst (λ q. q.1 ≡ running) (step (do_work lib xs)) h)
      ∙ ap (λ q. (record q.0 { closed = true }, returned)) (sym (step (do_work lib xs)))

  on_event-IsOpen :
      (e : Event) (s : Store lib)
      → s.closed ≡ false
      → (on_event lib e s).1 ≡ running
      → (on_event lib e s).0.closed ≡ false
  unfolding on_event flush rotate
  on_event-IsOpen ctx_done s h going = cc
  on_event-IsOpen quit s h going = cc
  on_event-IsOpen tick s h going = ground arith
  on_event-IsOpen (rotation_tick now) s h going = ground arith

  -- While the loop of the worker runs on an open store, it does to the store exactly what the
  -- sequence of its events does as calls of the store.
  pub do_work-run :
      (events : List Event) (s : Store lib)
      → s.closed ≡ false
      → (do_work lib events s).1 ≡ running
      → (do_work lib events s).0 ≡ run lib (map receives events) s
  unfolding do_work run call
  do_work-run [] s open_store h = refl
  do_work-run (e ∷ events) s open_store h =
      let r = on_event lib e s in
      let (going, step) = go_on-running (do_work lib events) r h in
      ap (λ q. q.0) (step (do_work lib events))
      ∙ do_work-run events r.0 (on_event-IsOpen e s open_store going)
          (subst (λ q. q.1 ≡ running) (step (do_work lib events)) h)
      ∙ ap (run lib (map receives events)) (rw open_store refl)
