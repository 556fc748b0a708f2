-- ===== src/Websocket/Hub/Watching/Tests.antt =====
-- A client that stays while another one comes and goes.
use mathlib.Core.List.{Perm}
use coriolis_logger.Common.{
  ℕ, ◌≡◌, ◌≢◌, refl, String, false, none, some, List, [], ◌∷◌, ◌++◌, pos, All, Result, ok, eq_iff,
  eqb, if◌then◌else◌,
}
use coriolis_logger.Logging.{lookup}
use coriolis_logger.Logging.Tests.{old_message}
use coriolis_logger.Websocket.{ClientFilterOptions, should_send}
use coriolis_logger.Websocket.Hub.{
  Hub, Turn, takes_register, takes_unregister, takes_broadcast, sends, receives, leaves, registers,
  writes, register, write, update, delete, fan_out, pick, send, close_send, step, run,
}
use coriolis_logger.Websocket.Hub.Owed.Payloads.{taken, over}
use coriolis_logger.Websocket.Hub.Watching.{IsWatching, IsSteady, here, noted, watched}
use coriolis_logger.Websocket.Hub.Watching.Runs.{due, run-watched}
use coriolis_logger.Websocket.Connection.{new_client}

abbrev pub ids : ℕ → String
ids p = if eqb p 0 then "a" else "b"

abbrev pub all_messages : ClientFilterOptions
all_messages = record { severity = some (pos 7); app_name = none }

-- The first client is on the map.
abbrev pub hub : Hub
hub = record {
  heap = λ p. new_client (ids p) all_messages;
  clients = ("a", 0) ∷ [];
  broadcast = old_message ∷ [];
  registering = [];
  unregistering = [];
  pending = [];
  closed = false;
}

abbrev turns : List Turn
turns =
    registers 1
    ∷ takes_register
    ∷ takes_broadcast
    ∷ writes old_message
    ∷ sends 1
    ∷ receives 0
    ∷ leaves 1
    ∷ takes_unregister
    ∷ takes_broadcast
    ∷ writes old_message
    ∷ []

abbrev hub_or : Result Hub → Hub
hub_or (ok h) = h
hub_or _ = hub

abbrev after : Hub
after = hub_or (run turns hub)

turns-run : run turns hub ≡ ok after
unfolding run step register write send pick fan_out should_send delete update lookup close_send
turns-run = refl

id-named : (q : ℕ) → (hub.heap q).id ≡ ids q
id-named q = refl

all_set : (hub.heap 0).options ≡ all_messages
all_set = refl

pub hub-IsWatching : IsWatching ids 0 all_messages hub
hub-IsWatching = record {
  runs = refl;
  once = here tt;
  set = all_set;
  named = id-named;
  come = tt;
  go = tt;
}

others : ids 1 ≢ ids 0
others e = let k = (eq_iff "b" "a").1 e in cc

turns-IsSteady : All (IsSteady ids 0) turns
turns-IsSteady = (others, (tt, (tt, (tt, (tt, (tt, (others, (tt, (tt, (tt, tt))))))))))

run-watched_example :
    Perm
      (over (taken 0) turns hub ++ due 0 all_messages after)
      (due 0 all_messages hub ++ watched all_messages (over noted turns hub))
run-watched_example =
    run-watched ids 0 all_messages turns hub after turns-IsSteady hub-IsWatching turns-run
