-- ===== src/Websocket/Hub/Watching/Runs.antt =====
-- Runs of turns around a client that stays on the map.
use mathlib.Core.List.{Perm, append_assoc, append-nil}
use mathlib.Core.List.Perm
use coriolis_logger.Common.{
  Result-cases, refl, inl, inr, ℕ, ◌≡◌, sym, ap, ◌∙◌, String, List, [], ◌∷◌, ◌++◌, All, ok,
  ok_becomes, >>=-eq-ok,
}
use coriolis_logger.Logging.{LogMessage}
use coriolis_logger.Websocket.{ClientFilterOptions, Payload}
use coriolis_logger.Websocket.Hub.{Hub, Turn, expires, step, run}
use coriolis_logger.Websocket.Hub.Owed.{run-owed}
use coriolis_logger.Websocket.Hub.Owed.Payloads.{owed, taken, wanted, over, IsTimer}
use coriolis_logger.Websocket.Hub.Watching.{
  watched-append, noted, refused, handed, not_refused, IsWatching, IsSteady, watched, offered,
}
use coriolis_logger.Websocket.Hub.Watching.Turns.{step-IsCarried}

-- The payloads that wait for a client, and those of the messages that wait for the hub.
abbrev pub due : ℕ → ClientFilterOptions → Hub → List Payload
due p options h = owed p h ++ watched options h.broadcast

run-IsCarried :
    (ids : ℕ → String) (p : ℕ) (options : ClientFilterOptions) (turns : List Turn) (h h' : Hub)
    → All (IsSteady ids p) turns
    → IsWatching ids p options h
    → run turns h ≡ ok h'
    → over (wanted p) turns h ++ watched options h'.broadcast
      ≡ watched options h.broadcast ++ over (offered options) turns h
unfolding run over
run-IsCarried ids p options [] h h' steady w e =
    ok_becomes (λ g. watched options g.broadcast ≡ watched options h.broadcast ++ []) h
      (sym (append-nil _)) e
run-IsCarried ids p options (t ∷ turns) h h' (steady, rest_steady) w e =
    let (mid, first, rest) = >>=-eq-ok (step t h) (run turns) e in
    let (w', here_carried) = step-IsCarried ids p options h w t mid steady first in
    let later_carried = run-IsCarried ids p options turns mid h' rest_steady w' rest in
    rw (first, over)
      (append_assoc (wanted p t h) _ _
        ∙ ap (λ l. wanted p t h ++ l) later_carried
        ∙ sym (append_assoc (wanted p t h) _ _)
        ∙ ap (λ l. l ++ over (offered options) turns mid) here_carried
        ∙ append_assoc (watched options h.broadcast) _ _)

watched-over :
    (options : ClientFilterOptions) (turns : List Turn) (h : Hub)
    → over (offered options) turns h ≡ watched options (over noted turns h)
unfolding over
watched-over options [] h = refl
watched-over options (t ∷ turns) h = elim (Result-cases (step t h)) [
  | inl (mid, e) ↦
      rw (e, over)
        (ap (λ l. offered options t h ++ l) (watched-over options turns mid)
          ∙ sym (watched-append options (noted t h) (over noted turns mid)))
  | inr (inl (x, e)) ↦ rw (e, over) refl
  | inr (inr e) ↦ rw (e, over) refl
]

-- The messages of the calls of `Write`.
abbrev pub all_handed : List Turn → List LogMessage
all_handed [] = []
all_handed (t ∷ turns) = handed t ++ all_handed turns

empty_parts {ℓ} : {A : Type ℓ} (xs ys : List A) → xs ++ ys ≡ [] → (xs ≡ []) × (ys ≡ [])
empty_parts [] ys e = (refl, e)
empty_parts (x ∷ xs) ys e = cc

pub run-none_refused :
    (turns : List Turn) (h h' : Hub)
    → run turns h ≡ ok h'
    → over refused turns h ≡ []
    → over noted turns h ≡ all_handed turns
unfolding run over
run-none_refused [] h h' e none_refused = refl
run-none_refused (t ∷ turns) h h' e none_refused =
    let (mid, first, rest) = >>=-eq-ok (step t h) (run turns) e in
    let (now, later) =
      empty_parts (refused t h) (over refused turns mid) (rw (first, over) at none_refused) in
    rw (first, over)
      (ap (λ l. l ++ over noted turns mid) (not_refused t h now)
        ∙ ap (λ l. handed t ++ l) (run-none_refused turns mid h' rest later))

steady-no-IsTimer : (ids : ℕ → String) (p : ℕ) (t : Turn) → IsSteady ids p t → ¬ IsTimer t
steady-no-IsTimer ids p (expires n) steady = absurd steady
steady-no-IsTimer ids p _ steady = λ k. k

All-no-IsTimer :
    (ids : ℕ → String) (p : ℕ) (turns : List Turn)
    → All (IsSteady ids p) turns
    → All (λ t. ¬ IsTimer t) turns
All-no-IsTimer ids p [] steady = steady
All-no-IsTimer ids p (t ∷ turns) (steady, rest) =
    (steady-no-IsTimer ids p t steady, All-no-IsTimer ids p turns rest)

-- Over any turns of a hub without a panic in which no timer goes off, the hub is not stopped, no
-- client with the id of a client on the map is registered or leaves, and that client does not
-- change its options: the payloads that its writer takes, those then on the way to it and those of
-- the messages then in the broadcast channel that it wants are up to order those that were on the
-- way or in the channel at first, followed by those of the wanted ones among the messages whose
-- Write meanwhile returned no error, whatever other clients do.
pub run-watched :
    (ids : ℕ → String) (p : ℕ) (options : ClientFilterOptions) (turns : List Turn) (h h' : Hub)
    → All (IsSteady ids p) turns
    → IsWatching ids p options h
    → run turns h ≡ ok h'
    → Perm
        (over (taken p) turns h ++ due p options h')
        (due p options h ++ watched options (over noted turns h))
run-watched ids p options turns h h' steady w e =
    let kept = run-owed p turns h h' (All-no-IsTimer ids p turns steady) e in
    rw
      (
        sym (append_assoc (over (taken p) turns h) (owed p h') (watched options h'.broadcast)),
        append_assoc (owed p h) (watched options h.broadcast)
            (watched options (over noted turns h)),
        sym (watched-over options turns h),
        sym (run-IsCarried ids p options turns h h' steady w e),
        sym (append_assoc (owed p h) (over (wanted p) turns h) (watched options h'.broadcast)),
      )
      (Perm.append_right (watched options h'.broadcast) kept)
