-- ===== src/Websocket/Connection/Tests.antt =====
-- A connection that keeps the frames written to it, and the theorems on it.
use mathlib.Core.List.{Perm}
use coriolis_logger.Common.{
  ℕ, ◌≡◌, refl, Bool, true, false, none, some, List, [], ◌∷◌, ◌++◌, pos, plain, All, length, ◌≤◌,
  arith, Result, ok,
}
use coriolis_logger.Clock.{zero_time}
use coriolis_logger.Logging.Tests.{old_message}
use coriolis_logger.Websocket.{Client, should_send, payload_of}
use coriolis_logger.Websocket.Hub.{
  Hub, channel_size, new_hub, Turn, takes_register, takes_broadcast, sends, receives, registers,
  writes, register, write, update, delete, fan_out, pick, send, step, run,
}
use coriolis_logger.Websocket.Hub.Owed.{run-owed}
use coriolis_logger.Websocket.Hub.Owed.Payloads.{owed, taken, wanted, over, IsTimer}
use coriolis_logger.Websocket.Hub.Open.{IsOpen, IsCalm, run-IsOpen}
use coriolis_logger.Websocket.Connection.{
  Frame, Socket, Taken, message, channel_closed, ping_due, Incoming, options, pong, failure,
  new_client, client_writer, client_reader,
}
use coriolis_logger.Websocket.Connection.Writing.{IsFaithful, Sends, client_writer-Sends}
use coriolis_logger.Websocket.Connection.Reading.{IsRead, client_reader-IsRead}
use coriolis_logger.Websocket.Connection.Stream.{payloads_in, payloads_of, client_writer-run}

-- The frames that were written, and whether the connection was closed.
abbrev Wire : Type 0
Wire = List Frame × Bool

abbrev socket : Socket Wire
socket = record {
  now = λ wire. zero_time;
  write = λ frame wire. ((wire.0 ++ frame ∷ [], wire.1), none);
  set_write_deadline = λ t wire. wire;
  set_read_deadline = λ t wire. wire;
  set_read_limit = λ n wire. wire;
  close = λ wire. (wire.0, true);
}

abbrev frames : Wire → List Frame
frames wire = wire.0

abbrev is_shut : Wire → Bool
is_shut wire = wire.1

abbrev fresh : Wire
fresh = ([], false)

socket-IsFaithful : IsFaithful socket frames is_shut
socket-IsFaithful = record {
  writes = λ frame wire e. refl;
  fails = λ frame wire x e. absurd cc;
  deadlines = λ t wire. refl;
  closes = λ wire. refl;
  shuts = λ wire. refl;
}

abbrev taken_events : List Taken
taken_events = message (payload_of old_message) ∷ ping_due ∷ channel_closed ∷ []

client_writer-Sends_example :
    Sends socket frames is_shut socket-IsFaithful taken_events fresh
      (client_writer socket taken_events fresh)
client_writer-Sends_example =
    client_writer-Sends socket frames is_shut socket-IsFaithful taken_events fresh

-- Clients that want every message, and an empty hub.
abbrev heap : ℕ → Client
heap p = new_client "a" (record { severity = some (pos 7); app_name = none })

abbrev hub : Hub
hub = new_hub heap

abbrev asked : List Incoming
asked =
    options (record { severity = some (pos 3); app_name = none })
    ∷ pong
    ∷ failure (plain "closed")
    ∷ []

few_leave : length hub.unregistering ≤ channel_size
unfolding new_hub
few_leave = omega arith

client_reader-IsRead_example :
    IsRead socket 0 asked hub fresh (client_reader socket 0 asked hub.unregistering fresh)
client_reader-IsRead_example = client_reader-IsRead socket 0 asked fresh hub few_leave

-- A client is registered, and a message is written and sent to it.
abbrev turns : List Turn
turns =
    registers 0 ∷ takes_register ∷ writes old_message ∷ takes_broadcast ∷ sends 0 ∷ receives 0 ∷ []

abbrev hub_or : Hub → Result Hub → Hub
hub_or h (ok h') = h'
hub_or h _ = h

abbrev after : Hub
after = hub_or hub (run turns hub)

turns-run : run turns hub ≡ ok after
unfolding run step register write send new_hub pick fan_out should_send delete update
turns-run = refl

no_timers : All (λ t. ¬ IsTimer t) turns
no_timers = (λ x. x, (λ x. x, (λ x. x, (λ x. x, (λ x. x, (λ x. x, tt))))))

run-owed_example :
    Perm (over (taken 0) turns hub ++ owed 0 after) (owed 0 hub ++ over (wanted 0) turns hub)
run-owed_example = run-owed 0 turns hub after no_timers turns-run

one_message :
    payloads_of (message (payload_of old_message) ∷ ping_due ∷ []) ≡ over (taken 0) turns hub
unfolding run step register write send new_hub pick fan_out should_send delete update over taken
one_message = refl

client_writer-run_example :
    ((client_writer socket (message (payload_of old_message) ∷ ping_due ∷ []) fresh).1 ≡ false)
    × Perm
        (payloads_in (
            frames
              (client_writer socket (message (payload_of old_message) ∷ ping_due ∷ []) fresh).0)
          ++ owed 0 after)
        (payloads_in (frames fresh) ++ (owed 0 hub ++ over (wanted 0) turns hub))
client_writer-run_example =
    client_writer-run socket frames is_shut socket-IsFaithful (λ frame wire. refl) 0 turns hub after
      (message (payload_of old_message) ∷ ping_due ∷ []) fresh no_timers turns-run (tt, (tt, tt))
      one_message

hub-IsOpen : IsOpen hub
unfolding new_hub
hub-IsOpen = record { mapped = tt; awaited = tt; registering = tt }

hub-IsCalm : All (IsCalm hub) turns
unfolding new_hub
hub-IsCalm = (refl, (tt, (tt, (tt, (tt, (tt, tt))))))

run-IsOpen_example : (h' : Hub) × (run turns hub ≡ ok h') × IsOpen h'
run-IsOpen_example = run-IsOpen turns hub hub-IsOpen hub-IsCalm
