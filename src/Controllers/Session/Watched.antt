-- ===== src/Controllers/Session/Watched.antt =====
-- A connection to the websocket among whatever else the hub does.
use mathlib.Core.List.{Perm}
use coriolis_logger.Common.{
  ℕ, ◌≡◌, ◌≢◌, refl, sym, ap, ◌∙◌, subst, arith, String, true, false, none, List, [], ◌∷◌, ◌++◌,
  All, eqb→eq, ok, ◌>>=◌,
}
use coriolis_logger.Http.{Request, get, ResponseWriter}
use coriolis_logger.Websocket.{ClientFilterOptions}
use coriolis_logger.Websocket.Hub.{Hub, Turn, takes_register, update, delete, run}
use coriolis_logger.Websocket.Hub.Invariant.{All-delete}
use coriolis_logger.Websocket.Hub.Owed.Payloads.{payloads_to, taken, over}
use coriolis_logger.Websocket.Hub.Watching.{IsWatching, IsSteady, here, noted, watched}
use coriolis_logger.Websocket.Hub.Watching.Runs.{due, run-watched}
use coriolis_logger.Websocket.Connection.{new_client}
use coriolis_logger.Websocket.Connection.Reading.{update-same}
use coriolis_logger.Controllers.{can_access, LogHandlers, Library, ws_handler}
use coriolis_logger.Controllers.Session.{ws_connect, options_of, listening_to}
use coriolis_logger.Controllers.Session.Connected.{
  with_client, taken_on, fresh-owed, severity_in, ws_handler-upgraded,
}

-- A hub at rest that knows nothing of a pointer, and whose other clients have these ids.
pub record IsFreeFor (ids : ℕ → String) (p : ℕ) (h : Hub) : Type 0 where
  pub free : h.registering ≡ []
  pub silent : h.broadcast ≡ []
  pub runs : h.closed ≡ false
  pub unmapped : All (λ e. e.1 ≢ p) h.clients
  pub unawaited : All (λ d. d.client ≢ p) h.pending
  pub named : (q : ℕ) → p ≢ q → (h.heap q).id ≡ ids q
  pub go : All (λ q. ids q ≢ ids p) h.unregistering

module _ (ids : ℕ → String) (p : ℕ) (asked : ClientFilterOptions) (h : Hub)
    (f : IsFreeFor ids p h) where
  -- The hub once the client is on its map.
  abbrev joined : Hub
  joined = listening_to (ids p) p (delete (ids p) h.clients) (with_client (ids p) p asked h)

  joined-named : (q : ℕ) → (update h.heap p (new_client (ids p) asked) q).id ≡ ids q
  unfolding update
  joined-named q = ground (arith, eqb→eq p q, f.named q)

  joined-IsWatching : IsWatching ids p asked joined
  joined-IsWatching = record {
    runs = refl;
    once = here (All-delete (λ e. e.1 ≢ p) (ids p) h.clients f.unmapped);
    set = ap (λ c. c.options) (update-same h.heap p (new_client (ids p) asked));
    named = joined-named;
    come = tt;
    go = f.go;
  }

  joined-due : due p asked joined ≡ []
  joined-due =
      ap (λ l. l ++ [])
        (ap (λ c. c.send ++ payloads_to p h.pending)
            (update-same h.heap p (new_client (ids p) asked))
          ∙ fresh-owed p h.pending f.unawaited)

module _ (lib : Library) (l : LogHandlers) where
  -- If an admin connects to the websocket, the upgrade succeeds, and the hub runs, has empty
  -- register and broadcast channels, and knows nothing of the pointer of the new client, then the
  -- hub takes the client on; and over any turns behind that, without a panic, in which no timer
  -- goes off, the hub is not stopped, no client with the id of the new one is registered or
  -- leaves, and the new one does not change its options, the payloads that its writer takes, with
  -- those still on the way to it and those of the messages in the broadcast channel that it asked
  -- for, are up to order those of exactly the messages whose Write meanwhile returned no error and
  -- that its severity and application ask for.
  pub ws_connect-watched :
      (req : Request) (w : ResponseWriter) (ids : ℕ → String) (p : ℕ) (turns : List Turn)
      (h h' : Hub)
      → can_access req ≡ true
      → (lib.upgrade l.upgrader req w).1 ≡ none
      → IsFreeFor ids p h
      → All (IsSteady ids p) turns
      → ((ws_connect (ids p) p (ws_handler lib l req w) h).1 >>= run (takes_register ∷ turns))
        ≡ ok h'
      → (g : Hub) × (((ws_connect (ids p) p (ws_handler lib l req w) h).1
            >>= run (takes_register ∷ []))
          ≡ ok g)
        × Perm
            (over (taken p) turns g
              ++ due p (options_of (severity_in lib l req) (get "app_name" req.query)) h')
            (watched
              (options_of (severity_in lib l req) (get "app_name" req.query))
              (over noted turns g))
  unfolding run
  ws_connect-watched req w ids p turns h h' admin upgraded f steady e =
      let asked = options_of (severity_in lib l req) (get "app_name" req.query) in
      let response = (lib.upgrade l.upgrader req w).0 in
      let g = joined ids p asked h f in
      let served = ws_handler-upgraded lib l req w admin upgraded in
      let comes_to = λ (rest : List Turn).
        ap (λ r. (ws_connect (ids p) p r h).1 >>= run (takes_register ∷ rest)) served
        ∙ taken_on (ids p) p asked response rest h f.free f.silent f.runs in
      (
        g,
        comes_to [],
        subst
            (λ l.
              Perm (over (taken p) turns g ++ due p asked h')
                (l ++ watched asked (over noted turns g)))
            (joined-due ids p asked h f)
            (run-watched ids p asked turns g h' steady (joined-IsWatching ids p asked h f)
              (sym (comes_to turns) ∙ e)),
      )
