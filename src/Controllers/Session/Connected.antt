-- ===== src/Controllers/Session/Connected.antt =====
-- A connection to the websocket, from the request to what waits for its client.
use coriolis_logger.Common.{
  ℕ, ◌≡◌, ◌≢◌, refl, ap, ◌∙◌, arith, String, true, false, none, some, List, [], ◌∷◌, ◌++◌, map, All,
  eqb→eq, ℤ, ok, ◌>>=◌,
}
use coriolis_logger.Logging.{LogMessage}
use coriolis_logger.Http.{Request, get, ResponseWriter}
use coriolis_logger.Websocket.{ClientFilterOptions, payload_of}
use coriolis_logger.Websocket.Hub.{
  Hub, Delivery, Turn, takes_register, register, update, delete, step, run,
}
use coriolis_logger.Websocket.Hub.Invariant.{All-delete}
use coriolis_logger.Websocket.Hub.Owed.Payloads.{owed, payloads_to}
use coriolis_logger.Websocket.Connection.{new_client}
use coriolis_logger.Websocket.Connection.Reading.{update-same}
use coriolis_logger.Controllers.{can_access, get_severity, LogHandlers, Library, ws_handler}
use coriolis_logger.Controllers.Session.{
  ws_connect, asked_for, broadcasts, options_of, listening_to, run-broadcasts,
}

-- The hub with the new client in its heap.
abbrev pub with_client : String → ℕ → ClientFilterOptions → Hub → Hub
with_client id p options h = record h {
  heap = update h.heap p (new_client id options);
  registering = [];
}

-- The hub once it has taken the new client off its channel.
taken_on_idle :
    (id : String) (p : ℕ) (options : ClientFilterOptions) (w : ResponseWriter) (turns : List Turn)
    (h : Hub)
    → ((ws_connect id p
          (w, some options)
          (record h { registering = []; broadcast = []; closed = false })).1
        >>= run (takes_register ∷ turns))
      ≡ run turns (listening_to id p (delete id h.clients) (with_client id p options h))
unfolding ws_connect run step register
taken_on_idle id p options w turns h =
    ap
      (λ (j : String).
        run turns (listening_to j p (delete j h.clients) (with_client id p options h)))
      (ap (λ c. c.id) (update-same h.heap p (new_client id options)))

pub taken_on :
    (id : String) (p : ℕ) (options : ClientFilterOptions) (w : ResponseWriter) (turns : List Turn)
    (h : Hub)
    → h.registering ≡ []
    → h.broadcast ≡ []
    → h.closed ≡ false
    → ((ws_connect id p (w, some options) h).1 >>= run (takes_register ∷ turns))
      ≡ run turns (listening_to id p (delete id h.clients) (with_client id p options h))
taken_on id p options w turns h free silent runs =
    ap (λ (g : Hub). (ws_connect id p (w, some options) g).1 >>= run (takes_register ∷ turns))
      (λ i. record h { registering = free i; broadcast = silent i; closed = runs i })
    ∙ taken_on_idle id p options w turns h

-- Nothing waits for a new client.
pub fresh-owed :
    (p : ℕ) (pending : List Delivery) → All (λ d. d.client ≢ p) pending → payloads_to p pending ≡ []
unfolding payloads_to
fresh-owed p [] h = refl
fresh-owed p (d ∷ pending) (other, h) = ground (arith, fresh-owed p pending h, eqb→eq d.client p)

module _ (lib : Library) (l : LogHandlers) where
  abbrev pub severity_in : Request → ℤ
  severity_in req = (get_severity (get "severity" req.query)).0

  pub ws_handler-upgraded :
      (req : Request) (w : ResponseWriter)
      → can_access req ≡ true
      → (lib.upgrade l.upgrader req w).1 ≡ none
      → ws_handler lib l req w ≡ (
        (lib.upgrade l.upgrader req w).0,
        some (options_of (severity_in req) (get "app_name" req.query)),
      )
  unfolding ws_handler
  ws_handler-upgraded req w admin upgraded = rw (admin, upgraded, ws_handler) refl

  -- If an admin connects to the websocket, the upgrade succeeds, the hub runs with empty register
  -- and broadcast channels, and no client of the map or of a waiting delivery stands at the
  -- pointer of the new one, then the hub takes it on, and after any sequence of messages broadcast
  -- one by one the payloads that wait for it are those of exactly the messages within the severity
  -- and from the application that the request asked for, in order.
  ws_connect-owed :
      (req : Request) (w : ResponseWriter) (id : String) (p : ℕ) (messages : List LogMessage)
      (h : Hub)
      → can_access req ≡ true
      → (lib.upgrade l.upgrader req w).1 ≡ none
      → h.registering ≡ []
      → h.broadcast ≡ []
      → h.closed ≡ false
      → All (λ e. e.1 ≢ p) h.clients
      → All (λ d. d.client ≢ p) h.pending
      → (h' : Hub) × (((ws_connect id p (ws_handler lib l req w) h).1
            >>= run (takes_register ∷ broadcasts messages))
          ≡ ok h')
        × (owed p h'
            ≡ map payload_of (asked_for (severity_in req) (get "app_name" req.query) messages))
  ws_connect-owed req w id p messages h admin upgraded free silent runs others none_waits =
      let asked = options_of (severity_in req) (get "app_name" req.query) in
      let g = with_client id p asked h in
      let same = update-same h.heap p (new_client id asked) in
      let kept = All-delete (λ e. e.1 ≢ p) id h.clients others in
      let (h', ran, owes) =
        run-broadcasts p id (delete id h.clients) kept (severity_in req) (get "app_name" req.query)
          messages g (ap (λ c. c.options) same) in
      let nothing =
        ap (λ c. c.send ++ payloads_to p h.pending) same ∙ fresh-owed p h.pending none_waits in
      (
        h',
        ap (λ r. (ws_connect id p r h).1 >>= run (takes_register ∷ broadcasts messages))
              (ws_handler-upgraded req w admin upgraded)
            ∙ taken_on id p asked (lib.upgrade l.upgrader req w).0 (broadcasts messages) h free
                silent runs
            ∙ ran,
        owes
            ∙ ap
                (λ xs.
                  xs
                  ++ map payload_of
                      (asked_for (severity_in req) (get "app_name" req.query) messages))
                nothing,
      )
