-- ===== src/Service/Interleaving/Watched.antt =====
-- The messages of the syslog worker on their way to a client of the websocket, among whatever else the
-- process does.
mod Tests
use mathlib.Core.List.{Perm}
use coriolis_logger.Common.{ℕ, ◌≡◌, ◌≢◌, refl, ap, ◌∙◌, subst, String, List, [], ◌∷◌, ◌++◌, All, ok}
use coriolis_logger.Clock.{Time}
use coriolis_logger.Logging.{LogMessage}
use coriolis_logger.Config.{Syslog}
use coriolis_logger.Influxdb.Client.{Library}
use coriolis_logger.Websocket.{ClientFilterOptions}
use coriolis_logger.Websocket.Hub.{Turn, writes}
use coriolis_logger.Websocket.Hub.Owed.Payloads.{taken, over}
use coriolis_logger.Websocket.Hub.Watching.{IsWatching, IsSteady, watched, noted, refused, handed}
use coriolis_logger.Websocket.Hub.Watching.Runs.{due, all_handed, run-watched, run-none_refused}
use coriolis_logger.Service.{World}
use coriolis_logger.Service.Interleaving.{
  Act, logs, acts, takes, Steps, messages_of, turns_of, Steps-IsApart,
}

-- The hub gets messages of the syslog worker only, and no turn disturbs the client.
abbrev pub IsUndisturbed : (ℕ → String) → ℕ → Act → Type 0
IsUndisturbed ids p (takes (writes m)) = ⊥
IsUndisturbed ids p (takes t) = IsSteady ids p t
IsUndisturbed ids p _ = Unit

undisturbed-IsSteady :
    (ids : ℕ → String) (p : ℕ) (t : Turn)
    → IsUndisturbed ids p (takes t)
    → IsSteady ids p t × (handed t ≡ [])
undisturbed-IsSteady ids p (writes m) calm = absurd calm
undisturbed-IsSteady ids p _ calm = (calm, refl)

turns_of-IsSteady :
    (ids : ℕ → String) (p : ℕ) (steps : List Act)
    → All (IsUndisturbed ids p) steps
    → All (IsSteady ids p) (turns_of steps) × (all_handed (turns_of steps) ≡ messages_of steps)
turns_of-IsSteady ids p [] calm = (tt, refl)
turns_of-IsSteady ids p (logs m ∷ steps) (calm, later) =
    let (steady, same) = turns_of-IsSteady ids p steps later in ((tt, steady), ap (λ l. m ∷ l) same)
turns_of-IsSteady ids p (acts c ∷ steps) (calm, later) = turns_of-IsSteady ids p steps later
turns_of-IsSteady ids p (takes t ∷ steps) (calm, later) =
    let (steady, same) = turns_of-IsSteady ids p steps later in
    let (now, nothing) = undisturbed-IsSteady ids p t calm in
    ((now, steady), ap (λ l. l ++ all_handed (turns_of steps)) nothing ∙ same)

module _ (lib : Library) (now : LogMessage → Time) (cfg : Syslog) where
  -- Over any interleaving of messages that the syslog worker hands to its writers, calls of the
  -- store and turns of the hub without a panic, in which the hub gets no messages but those and
  -- refuses none of them, no timer goes off, the hub is not stopped, no client with the id of a
  -- client on the map is registered or leaves, and that client does not change its options: the
  -- payloads that its writer takes, those then on the way to it and those of the messages then in
  -- the broadcast channel that it wants are up to order those that were on the way or in the
  -- channel at first, followed by those of the wanted ones among the messages of the worker.
  pub Steps-watched :
      (ids : ℕ → String) (p : ℕ) (options : ClientFilterOptions) (steps : List Act)
      (w w' : World lib)
      → Steps lib now cfg steps w w'
      → All (IsUndisturbed ids p) steps
      → IsWatching ids p options w.hub
      → over refused (turns_of steps) w.hub ≡ []
      → Perm
          (over (taken p) (turns_of steps) w.hub ++ due p options w'.hub)
          (due p options w.hub ++ watched options (messages_of steps))
  Steps-watched ids p options steps w w' ran calm watching none_refused =
      let (store, hub, out) = Steps-IsApart lib now cfg ran in
      let (steady, same) = turns_of-IsSteady ids p steps calm in
      let handed_over = run-none_refused (turns_of steps) w.hub w'.hub hub none_refused in
      subst
        (λ messages.
          Perm (over (taken p) (turns_of steps) w.hub ++ due p options w'.hub)
            (due p options w.hub ++ watched options messages))
        (handed_over ∙ same)
        (run-watched ids p options (turns_of steps) w.hub w'.hub steady watching hub)
