-- ===== src/Controllers/Session/Tests.antt =====
-- An admin who connects to an empty hub.
use mathlib.Core.List.{Perm}
use coriolis_logger.Common.{
  ℕ, ◌≡◌, refl, String, Option, eqb, eqb→eq, if◌then◌else◌, false, none, List, [], ◌∷◌, ◌++◌, All,
  arith, Result, ok, ◌>>=◌,
}
use coriolis_logger.Logging.Tests.{old_message}
use coriolis_logger.Config.Tests.{api_server}
use coriolis_logger.Http.{get, ResponseWriter, new_writer}
use coriolis_logger.Websocket.{ClientFilterOptions, should_send, Client}
use coriolis_logger.Websocket.Hub.{
  Hub, Turn, new_hub, takes_register, takes_broadcast, writes, sends, receives, step, register,
  write, update, delete, fan_out, pick, send, run,
}
use coriolis_logger.Websocket.Hub.Owed.Payloads.{taken, over}
use coriolis_logger.Websocket.Hub.Watching.{IsSteady, noted, watched}
use coriolis_logger.Websocket.Hub.Watching.Runs.{due}
use coriolis_logger.Websocket.Connection.{new_client}
use coriolis_logger.Controllers.{can_access, get_severity, new_log_handler, ws_handler}
use coriolis_logger.Controllers.LogDownload.Tests.{lib, request, request-admin}
use coriolis_logger.Controllers.Session.{ws_connect, options_of}
use coriolis_logger.Controllers.Session.Watched.{IsFreeFor, ws_connect-watched}

abbrev heap : ℕ → Client
heap p = new_client "" (record { severity = none; app_name = none })

abbrev hub : Hub
hub = new_hub heap

hub-fresh :
    (hub.registering ≡ [])
    × (hub.broadcast ≡ [])
    × (hub.closed ≡ false)
    × (hub.clients ≡ [])
    × (hub.pending ≡ [])
unfolding new_hub
hub-fresh = (refl, refl, refl, refl, refl)

abbrev ids : ℕ → String
ids q = if eqb q 0 then "a" else ""

abbrev response : ResponseWriter × Option ClientFilterOptions
response = ws_handler lib (new_log_handler api_server) request new_writer

abbrev turns : List Turn
turns = writes old_message ∷ takes_broadcast ∷ sends 0 ∷ receives 0 ∷ []

turns-IsSteady : All (IsSteady ids 0) turns
turns-IsSteady = (tt, (tt, (tt, (tt, tt))))

hub-IsFreeFor : IsFreeFor ids 0 hub
unfolding new_hub
hub-IsFreeFor = record {
  free = refl;
  silent = refl;
  runs = refl;
  unmapped = tt;
  unawaited = tt;
  named = λ q other. ground (arith, eqb→eq q 0);
  go = tt;
}

abbrev hub_or : Result Hub → Hub
hub_or (ok h) = h
hub_or _ = hub

abbrev after : Hub
after = hub_or ((ws_connect "a" 0 response hub).1 >>= run (takes_register ∷ turns))

after-run : ((ws_connect "a" 0 response hub).1 >>= run (takes_register ∷ turns)) ≡ ok after
unfolding ws_connect ws_handler run step register write send new_hub pick fan_out should_send delete
    update can_access get get_severity
after-run = refl

abbrev asked : ClientFilterOptions
asked = options_of (get_severity (get "severity" request.query)).0 (get "app_name" request.query)

ws_connect-watched_example :
    (g : Hub) × (((ws_connect "a" 0 response hub).1 >>= run (takes_register ∷ [])) ≡ ok g)
    × Perm (over (taken 0) turns g ++ due 0 asked after) (watched asked (over noted turns g))
ws_connect-watched_example =
    ws_connect-watched lib (new_log_handler api_server) request new_writer ids 0 turns hub after
      request-admin refl hub-IsFreeFor turns-IsSteady after-run
