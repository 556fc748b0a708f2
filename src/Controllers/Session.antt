-- ===== src/Controllers/Session.antt =====
-- `WSHandler` behind its upgrade: the client that it makes and registers, and what that client is sent.
mod Tests
pub mod Connected
pub mod Watched
use mathlib.Core.List.{append-nil, append_assoc}
use coriolis_logger.Common.{
  ℕ, ◌≡◌, ◌≢◌, refl, sym, ap, ◌∙◌, inl, inr, arith, String, Bool, true, false, not, ◌&&◌, ◌||◌,
  Bool-cases, Option, none, some, List, [], ◌∷◌, ◌++◌, map, All, eqb, eqb→eq, if◌then◌else◌, ◌==◌,
  eq_iff, ℤ, ltb_ℤ, Result, ok, ◌>>=◌, subst,
}
use coriolis_logger.Logging.{LogMessage}
use coriolis_logger.Http.{Request, get, ResponseWriter}
use coriolis_logger.Websocket.{ClientFilterOptions, Client, Payload, should_send, payload_of}
use coriolis_logger.Websocket.Hub.{
  Hub, Delivery, Turn, registers, takes_register, takes_broadcast, writes, register, write, update,
  delete, fan_out, step, run,
}
use coriolis_logger.Websocket.Hub.Invariant.{All-delete}
use coriolis_logger.Websocket.Hub.Owed.Payloads.{only, owed, payloads_to, payloads_to-append}
use coriolis_logger.Websocket.Hub.Watching.{others-payloads}
use coriolis_logger.Websocket.Connection.{new_client}
use coriolis_logger.Websocket.Connection.Reading.{update-same}
use coriolis_logger.Controllers.{can_access, get_severity, LogHandlers, Library, ws_handler}

-- From the upgrade to the registration: a new client at the pointer p, with a new id.
unfoldable pub ws_connect :
    String → ℕ → ResponseWriter × Option ClientFilterOptions → Hub → ResponseWriter × Result Hub
ws_connect id p (w, none) h = (w, ok h)
ws_connect id p (w, some options) h =
    (w, step (registers p) (record h { heap = update h.heap p (new_client id options) }))

-- What a client asks for with a severity and an application.
abbrev pub is_asked_for : ℤ → String → LogMessage → Bool
is_asked_for severity app msg =
    not (ltb_ℤ severity msg.severity) && (app == "" || app == msg.app_name)

abbrev pub asked_for : ℤ → String → List LogMessage → List LogMessage
asked_for severity app [] = []
asked_for severity app (m ∷ messages) =
    let rest = asked_for severity app messages in
    if is_asked_for severity app m then m ∷ rest else rest

-- Messages that come to the hub one after the other.
abbrev pub broadcasts : List LogMessage → List Turn
broadcasts [] = []
broadcasts (m ∷ messages) = writes m ∷ takes_broadcast ∷ broadcasts messages

abbrev pub options_of : ℤ → String → ClientFilterOptions
options_of severity app = record { severity = some severity; app_name = some app }

should_send-is_asked_for :
    (severity : ℤ) (app : String) (m : LogMessage)
    → should_send (options_of severity app) m ≡ is_asked_for severity app m
unfolding should_send
should_send-is_asked_for severity app m = ground (arith, eq_iff app "", eq_iff app m.app_name)

-- A hub that runs, waits for messages, and has the client before others.
abbrev pub listening_to : String → ℕ → List (String × ℕ) → Hub → Hub
listening_to id p rest g = record g { clients = (id, p) ∷ rest; broadcast = []; closed = false }

module _ (p : ℕ) (id : String) (rest : List (String × ℕ)) (others : All (λ e. e.1 ≢ p) rest) where
  abbrev pub listening : Hub → Hub
  listening = listening_to id p rest

  after_broadcast : LogMessage → Hub → Hub
  after_broadcast m g = record g { pending = g.pending ++ fan_out g.heap m ((id, p) ∷ rest) }

  run-listening :
      (m : LogMessage) (turns : List Turn) (g : Hub)
      → run (writes m ∷ takes_broadcast ∷ turns) (listening g)
        ≡ run turns (listening (after_broadcast m g))
  unfolding run step write after_broadcast
  run-listening m turns g = refl

  fan_out-payloads :
      (m : LogMessage) (heap : ℕ → Client)
      → payloads_to p (fan_out heap m ((id, p) ∷ rest))
        ≡ (if should_send (heap p).options m then payload_of m ∷ [] else [])
  unfolding fan_out payloads_to
  fan_out-payloads m heap = elim (Bool-cases (should_send (heap p).options m)) [
    | inl asked ↦ rw (asked, others-payloads p heap m rest others) (ground arith)
    | inr unasked ↦ rw (unasked, others-payloads p heap m rest others) refl
  ]

  module _ (severity : ℤ) (app : String) where
    after_broadcast-owed :
        (m : LogMessage) (g : Hub)
        → (g.heap p).options ≡ options_of severity app
        → owed p (after_broadcast m g)
          ≡ owed p g ++ (if is_asked_for severity app m then payload_of m ∷ [] else [])
    unfolding after_broadcast
    after_broadcast-owed m g set =
        ap (λ l. (g.heap p).send ++ l) (payloads_to-append p g.pending _)
        ∙ sym (append_assoc (g.heap p).send _ _)
        ∙ ap (λ l. owed p g ++ l)
            (fan_out-payloads m g.heap
              ∙ ap (λ (b : Bool). if b then payload_of m ∷ [] else [])
                  (ap (λ o. should_send o m) set ∙ should_send-is_asked_for severity app m))

    payloads-asked_for :
        (m : LogMessage) (messages : List LogMessage)
        → map payload_of (asked_for severity app (m ∷ messages))
          ≡ (if is_asked_for severity app m then payload_of m ∷ [] else [])
            ++ map payload_of (asked_for severity app messages)
    payloads-asked_for m messages = elim (Bool-cases (is_asked_for severity app m)) [
      | inl asked ↦ rw asked refl
      | inr unasked ↦ rw unasked refl
    ]

    pub run-broadcasts :
        (messages : List LogMessage) (g : Hub)
        → (g.heap p).options ≡ options_of severity app
        → (h : Hub) × (run (broadcasts messages) (listening g) ≡ ok h)
          × (owed p h ≡ owed p g ++ map payload_of (asked_for severity app messages))
    unfolding run after_broadcast
    run-broadcasts [] g set = (listening g, refl, sym (append-nil (owed p g)))
    run-broadcasts (m ∷ messages) g set =
        let (h, ran, owes) = run-broadcasts messages (after_broadcast m g) set in
        (
          h,
          run-listening m (broadcasts messages) g ∙ ran,
          owes
              ∙ ap (λ l. l ++ map payload_of (asked_for severity app messages))
                  (after_broadcast-owed m g set)
              ∙ append_assoc (owed p g) _ _
              ∙ ap (λ l. owed p g ++ l) (sym (payloads-asked_for m messages)),
        )
