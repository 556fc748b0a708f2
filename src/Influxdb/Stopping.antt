-- ===== src/Influxdb/Stopping.antt =====
-- `Stop` and `Wait` of the store, whose loop was started.
use coriolis_logger.Common.{
  ◌≡◌, ◌⊎◌, refl, inl, inr, Bool, true, false, Bool-cases, List, [], ◌∷◌, ◌++◌, if◌then◌else◌, map,
  ap, ◌∙◌, Result, ok, err, panic,
}
use coriolis_logger.Influxdb.Client.{Library}
use coriolis_logger.Influxdb.{
  Store, Event, ctx_done, tick, quit, rotation_tick, Status, running, returned, panicked, go_on,
  status_of, on_event, do_work,
}
use coriolis_logger.Influxdb.Calls.{receives, run}
use coriolis_logger.Influxdb.Loop.{do_work-stop, do_work-run}
use coriolis_logger.Worker.{StopsOnce}

-- The store with its quit channel.
pub record Stoppable (lib : Library) : Type 0 where
  pub store : Store lib
  pub quit_closed : Bool

module _ (lib : Library) where
  -- A panic of the loop brings the process down.
  abbrev waited : Store lib × Status → Stoppable lib × Result (Unit {0})
  waited (s, panicked) = (record { store = s; quit_closed = true }, panic)
  waited (s, _) = (record { store = s; quit_closed = true }, ok tt)

  run_to_quit : List Event → Store lib → Store lib × Status
  run_to_quit events s = if s.closed then (s, returned) else do_work lib (events ++ quit ∷ []) s

  -- `Stop`, where the loop still takes `events` before it takes the end of the quit channel.
  unfoldable pub stop : List Event → Stoppable lib → Stoppable lib × Result (Unit {0})
  unfolding run_to_quit
  stop events w = if w.quit_closed then (w, panic) else waited (run_to_quit events w.store)

  abbrev HasEnded : Store lib × Status → Type 0
  HasEnded (s, status) = (status ≡ panicked) ⊎ ((status ≡ returned) × (s.closed ≡ true))

  go_on-HasEnded :
      (f : Store lib → Store lib × Status) (r : Store lib × Status)
      → ((s : Store lib) → HasEnded (f s))
      → (r.1 ≡ returned → r.0.closed ≡ true)
      → HasEnded (go_on lib f r)
  go_on-HasEnded f (s, running) h e = h s
  go_on-HasEnded f (s, returned) h e = inr (refl, e refl)
  go_on-HasEnded f (s, panicked) h e = inl refl

  status_of-open : (r : Store lib × Result (Unit {0})) → (status_of lib r).1 ≡ returned → ⊥
  status_of-open (s, ok done) h = cc
  status_of-open (s, err e) h = cc
  status_of-open (s, panic) h = cc

  on_event-returned :
      (e : Event) (s : Store lib)
      → (on_event lib e s).1 ≡ returned
      → (on_event lib e s).0.closed ≡ true
  unfolding on_event
  on_event-returned ctx_done s h = refl
  on_event-returned quit s h = refl
  on_event-returned tick s h = absurd (status_of-open _ h)
  on_event-returned (rotation_tick now) s h = absurd (status_of-open _ h)

  do_work-HasEnded :
      (events : List Event) (s : Store lib) → HasEnded (do_work lib (events ++ quit ∷ []) s)
  unfolding do_work on_event
  do_work-HasEnded [] s = inr (refl, refl)
  do_work-HasEnded (e ∷ events) s =
      go_on-HasEnded (do_work lib (events ++ quit ∷ [])) (on_event lib e s)
        (do_work-HasEnded events) (on_event-returned e s)

  waited-ends :
      (r : Store lib × Status)
      → HasEnded r
      → (waited r).1 ≡ ok tt
      → (waited r).0.store.closed ≡ true
  waited-ends (s, panicked) ended h = cc
  waited-ends (s, running) (inr (e, closed)) h = closed
  waited-ends (s, returned) (inr (e, closed)) h = closed
  waited-ends (s, running) (inl e) h = cc
  waited-ends (s, returned) (inl e) h = cc

  waited-quit : (r : Store lib × Status) → (waited r).0.quit_closed ≡ true
  waited-quit (s, panicked) = refl
  waited-quit (s, running) = refl
  waited-quit (s, returned) = refl

  choice-HasEnded :
      (b : Bool) (s : Store lib) (r : Store lib × Status)
      → s.closed ≡ b
      → HasEnded r
      → HasEnded (if b then (s, returned) else r)
  choice-HasEnded true s r closed h = inr (refl, closed)
  choice-HasEnded false s r unclosed h = h

  run_to_quit-HasEnded : (events : List Event) (s : Store lib) → HasEnded (run_to_quit events s)
  unfolding run_to_quit
  run_to_quit-HasEnded events s = choice-HasEnded s.closed s _ refl (do_work-HasEnded events s)

  pub stop-StopsOnce : (events : List Event) → StopsOnce (stop events) (λ w. w.store.closed)
  unfolding stop run_to_quit
  stop-StopsOnce events = record {
    ends = λ w h. elim (Bool-cases w.quit_closed) [
      | inl stopped ↦ let e = rw stopped at h in cc
      | inr fresh ↦ rw fresh (waited-ends _ (run_to_quit-HasEnded events w.store) (rw fresh at h))
    ];
    once = λ w h. elim (Bool-cases w.quit_closed) [
      | inl stopped ↦ absurd (h (rw stopped refl))
      | inr fresh ↦ rw fresh (rw (waited-quit (run_to_quit events w.store)) refl)
    ];
  }

  run_to_quit-stop :
      (events : List Event) (s : Store lib)
      → s.closed ≡ false
      → (do_work lib events s).1 ≡ running
      → run_to_quit events s ≡ (record (do_work lib events s).0 { closed = true }, returned)
  unfolding run_to_quit
  run_to_quit-stop events s open_store going =
      ap (λ b. if b then (s, returned) else do_work lib (events ++ quit ∷ []) s) open_store
      ∙ do_work-stop lib events [] quit s (inr refl) going

  -- Stop, called once on a store whose channel is open and whose loop handles some events without
  -- ending before it takes the end of the quit channel, returns without an error, and leaves the
  -- store as those events make it as calls of the store, with its channel closed: the buffer is
  -- not flushed.
  pub stop-run :
      (events : List Event) (w : Stoppable lib)
      → w.quit_closed ≡ false
      → w.store.closed ≡ false
      → (do_work lib events w.store).1 ≡ running
      → stop events w ≡ (
        record {
          store = record (run lib (map receives events) w.store) { closed = true };
          quit_closed = true;
        },
        ok tt,
      )
  unfolding stop
  stop-run events w fresh open_store going =
      rw (fresh, stop)
        (ap waited (run_to_quit-stop events w.store open_store going)
          ∙ ap
              (λ (s : Store lib).
                (record { store = record s { closed = true }; quit_closed = true }, ok tt))
              (do_work-run lib events w.store open_store going))
