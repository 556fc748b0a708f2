-- ===== src/Websocket/Hub.antt =====
-- writers/websocket/websocket.go: the hub. Clients are pointers into a heap; the map of the hub has
-- them by id. `run`, the goroutines that it starts for each delivery, and the goroutines of the
-- clients take turns. Each goroutine of a delivery has the client of its round of the loop, as in Go
-- 1.22, which go.mod asks for.
pub mod Deliveries
pub mod Invariant
pub mod Owed
pub mod Open
pub mod Draining
pub mod Stopping
pub mod Watching
use coriolis_logger.Common.{
  ℕ, zero, suc, String, Bool, true, false, Option, none, some, List, [], ◌∷◌, ◌++◌, length, ltb,
  eqb, if◌then◌else◌, ◌==◌, Error, plain, Result, ok, err, panic, ◌>>=◌, is_some,
}
use coriolis_logger.Logging.{LogMessage, lookup}
use coriolis_logger.Websocket.{ClientFilterOptions, Payload, Client, should_send, payload_of}

-- The capacities of the channels.
abbrev pub channel_size : ℕ
channel_size = 100

abbrev pub send_size : ℕ
send_size = 1024

-- A goroutine that waits to send a payload to a client, or for its timer.
pub record Delivery : Type 0 where
  pub id : String
  pub client : ℕ
  pub payload : Payload

pub record Hub : Type 0 where
  pub heap : ℕ → Client
  pub clients : List (String × ℕ)
  pub broadcast : List LogMessage
  pub registering : List ℕ
  pub unregistering : List ℕ
  pub pending : List Delivery
  pub closed : Bool

unfoldable pub new_hub : (ℕ → Client) → Hub
new_hub heap = record {
  heap = heap;
  clients = [];
  broadcast = [];
  registering = [];
  unregistering = [];
  pending = [];
  closed = false;
}

unfoldable pub update : (ℕ → Client) → ℕ → Client → ℕ → Client
update heap p c q = if eqb p q then c else heap q

-- `delete(clients, id)`
unfoldable pub delete : String → List (String × ℕ) → List (String × ℕ)
delete id [] = []
delete id ((j, p) ∷ m) = if j == id then delete id m else (j, p) ∷ delete id m

-- `close(client.send)`, which panics on a closed channel.
unfoldable pub close_send : ℕ → Hub → Result Hub
close_send p h =
    if (h.heap p).closed
    then panic
    else ok (record h { heap = update h.heap p (record (h.heap p) { closed = true }) })

-- `Register`, or `none` while the channel is full.
unfoldable pub register : ℕ → Hub → Option Hub
register p h =
    if ltb (length h.registering) channel_size
    then some (record h { registering = h.registering ++ p ∷ [] })
    else none

-- `Write`: a channel that is full for a minute is an error.
unfoldable pub write : LogMessage → Hub → Hub × Option Error
write msg h =
    if ltb (length h.broadcast) channel_size
    then (record h { broadcast = h.broadcast ++ msg ∷ [] }, none)
    else (h, some (plain "timed out sending message to client"))

-- A message off the register channel, put into the map under its id.
add_client : ℕ → Hub → Hub
add_client p h = record h { clients = ((h.heap p).id, p) ∷ delete (h.heap p).id h.clients }

-- A message off the unregister channel: only a client in the map is closed.
drop_client : ℕ → Hub → Result Hub
drop_client p h =
    if is_some (lookup (h.heap p).id h.clients)
    then close_send p (record h { clients = delete (h.heap p).id h.clients })
    else ok h

-- A goroutine for each client in the map that wants the message.
unfoldable pub fan_out : (ℕ → Client) → LogMessage → List (String × ℕ) → List Delivery
fan_out heap msg [] = []
fan_out heap msg ((id, p) ∷ clients) =
    let rest = fan_out heap msg clients in
    if should_send (heap p).options msg
    then record { id = id; client = p; payload = payload_of msg } ∷ rest
    else rest

-- A delivery by its place among those that wait, and the others.
unfoldable pub pick : ℕ → List Delivery → Option (Delivery × List Delivery)
pick n [] = none
pick zero (d ∷ ds) = some (d, ds)
pick (suc n) (d ∷ ds) = elim (pick n ds) [ none ↦ none | some (e, rest) ↦ some (e, d ∷ rest) ]

-- `client.send <- msg`: it panics on a closed channel, and waits while the buffer is full.
unfoldable pub send : Delivery → List Delivery → Hub → Result Hub
send d rest h =
    let c = h.heap d.client in
    if c.closed
    then panic
    else if ltb (length c.send) send_size
    then ok (record h {
      heap = update h.heap d.client (record c { send = c.send ++ d.payload ∷ [] });
      pending = rest;
    })
    else ok h

-- The timer of a delivery: the client is closed and taken off the map.
unfoldable pub expire : Delivery → List Delivery → Hub → Result Hub
expire d rest h = close_send d.client (record h { pending = rest }) >>= λ h'.
    ok (record h' { clients = delete d.id h'.clients })

pub data Turn : Type 0 where
  -- the cases of the `select` of `run`
  quits takes_register takes_unregister takes_broadcast : Turn
  -- the two cases of the `select` of a delivery
  sends expires : ℕ → Turn
  -- `clientWriter` takes a payload, and `clientReader` new options or the end of its connection
  receives leaves : ℕ → Turn
  asks : ℕ → ClientFilterOptions → Turn
  -- the calls of `Write` and `Register`
  writes : LogMessage → Turn
  registers : ℕ → Turn

pub take_register : List ℕ → Hub → Hub
take_register [] h = h
take_register (p ∷ ps) h = add_client p (record h { registering = ps })

pub take_unregister : List ℕ → Hub → Result Hub
take_unregister [] h = ok h
take_unregister (p ∷ ps) h = drop_client p (record h { unregistering = ps })

pub take_broadcast : List LogMessage → Hub → Hub
take_broadcast [] h = h
take_broadcast (msg ∷ msgs) h = record h {
  broadcast = msgs;
  pending = h.pending ++ fan_out h.heap msg h.clients;
}

abbrev rest_of : List Payload → List Payload
rest_of [] = []
rest_of (x ∷ xs) = xs

abbrev or_same : Hub → Option Hub → Hub
or_same h none = h
or_same h (some h') = h'

-- A turn that is not ready changes nothing.
unfoldable pub step : Turn → Hub → Result Hub
unfolding add_client drop_client take_register take_unregister take_broadcast
step quits h = ok (record h { closed = true })
step takes_register h = if h.closed then ok h else ok (take_register h.registering h)
step takes_unregister h = if h.closed then ok h else take_unregister h.unregistering h
step takes_broadcast h = if h.closed then ok h else ok (take_broadcast h.broadcast h)
step (sends n) h = elim (pick n h.pending) [ none ↦ ok h | some (d, rest) ↦ send d rest h ]
step (expires n) h = elim (pick n h.pending) [ none ↦ ok h | some (d, rest) ↦ expire d rest h ]
step (receives p) h =
    let c = h.heap p in
    ok (record h { heap = update h.heap p (record c { send = rest_of c.send }) })
step (leaves p) h =
    if ltb (length h.unregistering) channel_size
    then ok (record h { unregistering = h.unregistering ++ p ∷ [] })
    else ok h
step (asks p options) h =
    ok (record h { heap = update h.heap p (record (h.heap p) { options = options }) })
step (writes msg) h = ok (write msg h).0
step (registers p) h = ok (or_same h (register p h))

unfoldable pub run : List Turn → Hub → Result Hub
run [] h = ok h
run (t ∷ turns) h = step t h >>= run turns
