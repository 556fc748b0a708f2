-- ===== src/Websocket/Connection.antt =====
-- writers/websocket/client.go: the two goroutines of a client over its connection. The connection
-- belongs to gorilla/websocket: S is its state, and that of all that it meets.
pub mod Writing
pub mod Reading
pub mod Stream
mod Tests
use coriolis_logger.Common.{
  ℕ, ◌*◌, String, Bool, true, false, Option, none, some, List, [], ◌∷◌, ℤ, pos, Error, length, ltb,
  if◌then◌else◌,
}
use coriolis_logger.Clock.{Time, second, add}
use coriolis_logger.Websocket.{ClientFilterOptions, Payload, Client}
use coriolis_logger.Websocket.Hub.{Turn, asks, leaves, channel_size}

-- In nanoseconds.
abbrev pub write_wait : ℤ
write_wait = pos (10 * second)

abbrev pub pong_wait : ℤ
pong_wait = pos (60 * second)

abbrev pub max_message_size : ℕ
max_message_size = 1024

-- `NewClient`: `id` is a new UUID.
abbrev pub new_client : String → ClientFilterOptions → Client
new_client id options = record { id = id; options = options; send = []; closed = false }

-- The JSON of a payload, or a control message.
pub data Frame : Type 0 where
  payload_frame : Payload → Frame
  close_frame ping_frame : Frame

-- `write` is WriteJSON or WriteMessage, by its frame; `now` is the clock.
pub record Socket (S : Type 0) : Type 0 where
  pub now : S → Time
  pub write : Frame → S → S × Option Error
  pub set_write_deadline : Time → S → S
  pub set_read_deadline : Time → S → S
  pub set_read_limit : ℕ → S → S
  pub close : S → S

-- What the `select` of the writer takes.
pub data Taken : Type 0 where
  message : Payload → Taken
  channel_closed ping_due : Taken

-- What ReadJSON meets: options, an error that ends it, or a pong, for which it calls the handler.
pub data Incoming : Type 0 where
  options : ClientFilterOptions → Incoming
  pong : Incoming
  failure : Error → Incoming

-- Where the reader of a client is: in its loop, at its send to the unregister channel, or at its end.
pub data Phase : Type 0 where
  reading leaving gone : Phase

module _ {S : Type 0} (socket : Socket S) where
  -- `WriteJSON` and `WriteMessage` of the client. The mutex makes each a single step.
  unfoldable pub write_json : Payload → S → S × Option Error
  write_json v s =
      socket.write (payload_frame v) (socket.set_write_deadline (add (socket.now s) write_wait) s)

  unfoldable pub write_message : Frame → S → S × Option Error
  write_message frame s =
      socket.write frame (socket.set_write_deadline (add (socket.now s) write_wait) s)

  -- `clientWriter`, with whether it has returned. The period of its ticker is in the events.
  unfoldable pub client_writer : List Taken → S → S × Bool
  client_writer [] s = (s, false)
  client_writer (message v ∷ events) s =
      let (s', failed) = write_json v s in
      elim failed [ none ↦ client_writer events s' | some e ↦ (socket.close s', true) ]
  client_writer (channel_closed ∷ events) s = (socket.close (write_message close_frame s).0, true)
  client_writer (ping_due ∷ events) s =
      let (s', failed) = write_message ping_frame s in
      elim failed [ none ↦ client_writer events s' | some e ↦ (socket.close s', true) ]

  pong_handler : S → S
  pong_handler s = socket.set_read_deadline (add (socket.now s) pong_wait) s

  -- The deferred call of the reader of the client at p: the send to the hub, whose unregister channel
  -- holds these clients, waits while that is full, and the connection is closed behind it.
  unfoldable pub leave : ℕ → List ℕ → S → S × List Turn × Phase
  leave p unregistering s =
      if ltb (length unregistering) channel_size
      then (socket.close s, leaves p ∷ [], gone)
      else (s, [], leaving)

  -- The loop of the reader of the client at p, with the turns that it takes at the client and the
  -- hub, and where it is then. `unregistering` is what it finds in the channel of the hub at its end.
  unfoldable pub read_loop : ℕ → List Incoming → List ℕ → S → S × List Turn × Phase
  unfolding pong_handler
  read_loop p [] unregistering s = (s, [], reading)
  read_loop p (options o ∷ readings) unregistering s =
      let (s', turns, phase) = read_loop p readings unregistering s in (s', asks p o ∷ turns, phase)
  read_loop p (pong ∷ readings) unregistering s =
      read_loop p readings unregistering (pong_handler s)
  read_loop p (failure e ∷ readings) unregistering s = leave p unregistering s

  -- `clientReader`
  unfoldable pub client_reader : ℕ → List Incoming → List ℕ → S → S × List Turn × Phase
  unfolding pong_handler
  client_reader p readings unregistering s =
      read_loop p readings unregistering (pong_handler (socket.set_read_limit max_message_size s))
