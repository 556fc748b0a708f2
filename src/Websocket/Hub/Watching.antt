-- ===== src/Websocket/Hub/Watching.antt =====
-- A client that stays on the map: from `Write` of the hub to what is on the way to the client.
pub mod Apart
pub mod Turns
pub mod Runs
pub mod Tests
use mathlib.Core.List.{append_assoc}
use coriolis_logger.Common.{
  ℕ, ◌≡◌, ◌≢◌, refl, sym, ap, ◌∙◌, inl, inr, none, some, arith, String, false, Bool-cases,
  Option-cases, List, [], ◌∷◌, ◌++◌, All, length, ltb, eq_iff, ◌==◌, eqb→eq, if◌then◌else◌,
}
use coriolis_logger.Logging.{LogMessage}
use coriolis_logger.Websocket.{ClientFilterOptions, Client, Payload, should_send, payload_of}
use coriolis_logger.Websocket.Hub.{
  Hub, Turn, quits, takes_register, takes_unregister, takes_broadcast, sends, expires, receives,
  leaves, asks, writes, registers, write, delete, fan_out,
}
use coriolis_logger.Websocket.Hub.Invariant.{All-delete}
use coriolis_logger.Websocket.Hub.Owed.Payloads.{payloads_to}

-- The client is on the map once, under this id.
pub data IsOnce (id : String) (p : ℕ) : List (String × ℕ) → Type 0 where
  here : {rest : List (String × ℕ)} → All (λ e. e.1 ≢ p) rest → IsOnce id p ((id, p) ∷ rest)
  later :
      {j : String} {q : ℕ} {rest : List (String × ℕ)}
      → q ≢ p
      → IsOnce id p rest
      → IsOnce id p ((j, q) ∷ rest)

pub IsOnce-delete :
    (id : String) (p : ℕ) (j : String) (m : List (String × ℕ))
    → j ≢ id
    → IsOnce id p m
    → IsOnce id p (delete j m)
unfolding delete
IsOnce-delete id p j [] other once = elim once [ ]
IsOnce-delete id p j ((k, q) ∷ m) other (here others) = elim (Bool-cases (k == j)) [
  | inl same ↦ absurd (other (sym ((eq_iff k j).0 same)))
  | inr differs ↦ rw (differs, delete) (here (All-delete (λ e. e.1 ≢ p) j m others))
]
IsOnce-delete id p j ((k, q) ∷ m) other (later apart once) = elim (Bool-cases (k == j)) [
  | inl same ↦ rw (same, delete) (IsOnce-delete id p j m other once)
  | inr differs ↦ rw (differs, delete) (later apart (IsOnce-delete id p j m other once))
]

-- The payloads of the messages that a client with these options is sent.
abbrev pub watched : ClientFilterOptions → List LogMessage → List Payload
watched options [] = []
watched options (m ∷ messages) =
    (if should_send options m then payload_of m ∷ [] else []) ++ watched options messages

pub watched-append :
    (options : ClientFilterOptions) (xs ys : List LogMessage)
    → watched options (xs ++ ys) ≡ watched options xs ++ watched options ys
watched-append options [] ys = refl
watched-append options (x ∷ xs) ys =
    ap (λ l. (if should_send options x then payload_of x ∷ [] else []) ++ l)
      (watched-append options xs ys)
    ∙ sym (append_assoc (if should_send options x then payload_of x ∷ [] else []) _ _)

-- The message of a turn whose `Write` returns no error.
unfoldable pub noted : Turn → Hub → List LogMessage
noted (writes m) h = elim (write m h).1 [ none ↦ m ∷ [] | some e ↦ [] ]
noted _ h = []

-- The message of a turn whose `Write` returns an error, and of any call of it.
unfoldable pub refused : Turn → Hub → List LogMessage
refused (writes m) h = elim (write m h).1 [ none ↦ [] | some e ↦ m ∷ [] ]
refused _ h = []

abbrev pub handed : Turn → List LogMessage
handed (writes m) = m ∷ []
handed _ = []

pub not_refused : (t : Turn) (h : Hub) → refused t h ≡ [] → noted t h ≡ handed t
unfolding noted refused
not_refused (writes m) h e = elim (Option-cases (write m h).1) [
  | inl took ↦ rw (took, noted) refl
  | inr (x, failed) ↦ cc (rw (failed, refused) at e)
]
not_refused _ h e = refl

-- What a turn puts into the broadcast channel of what a client with these options is sent.
abbrev pub offered : ClientFilterOptions → Turn → Hub → List Payload
offered options t h = watched options (noted t h)

-- No timer goes off, the hub is not stopped, no client with the id of this one is registered or
-- leaves, and the options of this client stay.
abbrev pub IsSteady : (ℕ → String) → ℕ → Turn → Type 0
IsSteady ids p quits = ⊥
IsSteady ids p (expires n) = ⊥
IsSteady ids p (leaves q) = ids q ≢ ids p
IsSteady ids p (asks q options) = q ≢ p
IsSteady ids p (registers q) = ids q ≢ ids p
IsSteady ids p _ = Unit

-- The hub runs with this client, whose id no other that comes or goes has.
pub record IsWatching (ids : ℕ → String) (p : ℕ) (options : ClientFilterOptions) (h : Hub)
    : Type 0 where
  pub runs : h.closed ≡ false
  pub once : IsOnce (ids p) p h.clients
  pub set : (h.heap p).options ≡ options
  pub named : (q : ℕ) → (h.heap q).id ≡ ids q
  pub come : All (λ q. ids q ≢ ids p) h.registering
  pub go : All (λ q. ids q ≢ ids p) h.unregistering

module _ (p : ℕ) (heap : ℕ → Client) (m : LogMessage) where
  pub others-payloads :
      (clients : List (String × ℕ))
      → All (λ e. e.1 ≢ p) clients
      → payloads_to p (fan_out heap m clients) ≡ []
  unfolding payloads_to fan_out
  others-payloads [] h = refl
  others-payloads ((id, q) ∷ clients) (other, h) =
      ground (arith, others-payloads clients h, eqb→eq q p)

  pub fan_out-once :
      (id : String) (clients : List (String × ℕ))
      → IsOnce id p clients
      → payloads_to p (fan_out heap m clients)
        ≡ (if should_send (heap p).options m then payload_of m ∷ [] else [])
  unfolding payloads_to fan_out
  fan_out-once id [] once = elim once [ ]
  fan_out-once id ((k, q) ∷ clients) (here others) = ground (arith, others-payloads clients others)
  fan_out-once id ((k, q) ∷ clients) (later other once) =
      ground (arith, fan_out-once id clients once, eqb→eq q p)
