-- ===== src/Websocket/Hub/Stopping.antt =====
-- `Stop` and `Wait` of the hub.
use coriolis_logger.Common.{
  ◌≡◌, refl, inl, inr, Bool, true, false, Bool-cases, List, if◌then◌else◌, plain, Result, ok, err,
  panic,
}
use coriolis_logger.Websocket.Hub.{Hub, Turn, run}
use coriolis_logger.Worker.{StopsOnce}

-- The hub with its quit channel.
pub record Stoppable : Type 0 where
  pub hub : Hub
  pub quit_closed : Bool

-- `hub` is the hub at the time at which the `select` of Stop is left.
abbrev waited : Stoppable → Result Hub → Stoppable × Result (Unit {0})
waited w (ok hub) = (
  record { hub = hub; quit_closed = true },
  if hub.closed then ok tt else err (plain "timed out waiting for hub stop"),
)
waited w _ = (record w { quit_closed = true }, panic)

-- `Stop`, where `turns` are those until the loop has closed its channel or a minute is over. A panic
-- of a goroutine brings the process down.
unfoldable pub stop : List Turn → Stoppable → Stoppable × Result (Unit {0})
stop turns w = if w.quit_closed then (w, panic) else waited w (run turns w.hub)

if_closed :
    (b : Bool)
    → ◌≡◌ {A = Result (Unit {0})}
        (if b then ok tt else err (plain "timed out waiting for hub stop"))
        (ok tt)
    → b ≡ true
if_closed true h = refl
if_closed false h = cc

waited-ends :
    (w : Stoppable) (r : Result Hub) → (waited w r).1 ≡ ok tt → (waited w r).0.hub.closed ≡ true
waited-ends w (ok hub) h = if_closed hub.closed h
waited-ends w (err e) h = cc
waited-ends w panic h = cc

waited-quit : (w : Stoppable) (r : Result Hub) → (waited w r).0.quit_closed ≡ true
waited-quit w (ok hub) = refl
waited-quit w (err e) = refl
waited-quit w panic = refl

pub stop-StopsOnce : (turns : List Turn) → StopsOnce (stop turns) (λ w. w.hub.closed)
unfolding stop
stop-StopsOnce turns = record {
  ends = λ w h. elim (Bool-cases w.quit_closed) [
    | inl stopped ↦ let e = rw stopped at h in cc
    | inr fresh ↦ rw fresh (waited-ends w (run turns w.hub) (rw fresh at h))
  ];
  once = λ w h. elim (Bool-cases w.quit_closed) [
    | inl stopped ↦ absurd (h (rw stopped refl))
    | inr fresh ↦ rw fresh (rw (waited-quit w (run turns w.hub)) refl)
  ];
}
