-- ===== src/Websocket/Tests.antt =====
-- A hub with two clients, and the theorems on it.
use mathlib.Core.List.{Perm}
use coriolis_logger.Common.{
  ◌++◌, ℕ, ◌≡◌, ◌≢◌, refl, ◌↔◌, arith, true, false, none, some, [], ◌∷◌, eqb, if◌then◌else◌, pos,
  Result, ok, panic,
}
use coriolis_logger.Logging.{lookup}
use coriolis_logger.Logging.Tests.{old_message}
use coriolis_logger.Websocket.{Client, should_send, payload_of}
use coriolis_logger.Websocket.Filter.{IsWithin, IsFrom, should_send_iff}
use coriolis_logger.Websocket.Hub.{
  Delivery, Hub, new_hub, close_send, pick, expire, takes_unregister, sends, expires, step, run,
}
use coriolis_logger.Websocket.Hub.Deliveries.{expired-panics, left-panics}
use coriolis_logger.Websocket.Hub.Open.{IsOpen}
use coriolis_logger.Websocket.Hub.Owed.Payloads.{owed, taken, over}
use coriolis_logger.Websocket.Hub.Draining.{drain, run-drain}
use coriolis_logger.Websocket.Hub.Invariant.{IsWellFormed}

-- The first client asks for the messages of an application, the second for all.
abbrev heap : ℕ → Client
heap p =
    if eqb p 0
    then record {
      id = "a";
      options = record { severity = some (pos 7); app_name = some "dockerd" };
      send = [];
      closed = false;
    }
    else record {
      id = "b";
      options = record { severity = none; app_name = none };
      send = [];
      closed = false;
    }

should_send_iff_example :
    (should_send (heap 0).options old_message ≡ true)
    ↔ (IsWithin (some (pos 7)) old_message.severity × IsFrom (some "dockerd") old_message.app_name)
should_send_iff_example = should_send_iff (heap 0).options old_message

abbrev delivery : Delivery
delivery = record { id = "b"; client = 1; payload = payload_of old_message }

abbrev hub_or : Hub → Result Hub → Hub
hub_or h (ok h') = h'
hub_or h _ = h

-- Two deliveries wait for the second client.
abbrev waiting : Hub
waiting = record (new_hub heap) { clients = ("b", 1) ∷ []; pending = delivery ∷ delivery ∷ [] }

abbrev expired : Hub
expired = hub_or waiting (step (expires 0) waiting)

waiting_pick : pick 0 waiting.pending ≡ some (delivery, delivery ∷ [])
unfolding pick
waiting_pick = refl

waiting_expires : step (expires 0) waiting ≡ ok expired
unfolding step expire close_send pick new_hub
waiting_expires = refl

expired_pick : pick 0 expired.pending ≡ some (delivery, [])
unfolding step expire close_send pick new_hub
expired_pick = refl

expired-panics_example : (step (sends 0) expired ≡ panic) × (step (expires 0) expired ≡ panic)
expired-panics_example =
    expired-panics 0 0 waiting expired delivery delivery (delivery ∷ []) [] waiting_pick
      waiting_expires expired_pick refl

-- The second client leaves while a delivery waits for it.
abbrev leaving : Hub
leaving = record waiting { unregistering = 1 ∷ [] }

abbrev left : Hub
left = hub_or leaving (step takes_unregister leaving)

left_mapped : lookup (leaving.heap 1).id leaving.clients ≢ none
unfolding lookup new_hub
left_mapped = λ e. cc

left-step : step takes_unregister leaving ≡ ok left
unfolding step close_send lookup new_hub
left-step = refl

left_pick : pick 0 left.pending ≡ some (delivery, delivery ∷ [])
unfolding step close_send pick lookup new_hub
left_pick = refl

left_open : leaving.closed ≡ false
unfolding new_hub
left_open = refl

left-panics_example : (step (sends 0) left ≡ panic) × (step (expires 0) left ≡ panic)
left-panics_example =
    left-panics 0 1 [] leaving left delivery (delivery ∷ []) left_open refl left_mapped left-step
      left_pick refl

waiting-IsOpen : IsOpen waiting
unfolding new_hub
waiting-IsOpen = record { mapped = (refl, tt); awaited = (refl, (refl, tt)); registering = tt }

waiting-IsWellFormed : IsWellFormed waiting
unfolding new_hub
waiting-IsWellFormed = record {
  named = (refl, tt);
  named_pending = (refl, (refl, tt));
  bounded = λ p. ground arith;
}

run-drain_example :
    (h' : Hub) × (run (drain waiting.pending) waiting ≡ ok h')
    × (h'.pending ≡ [])
    × Perm (over (taken 1) (drain waiting.pending) waiting ++ (h'.heap 1).send) (owed 1 waiting)
run-drain_example = run-drain 1 waiting waiting-IsOpen waiting-IsWellFormed
