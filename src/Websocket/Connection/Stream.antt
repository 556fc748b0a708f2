-- ===== src/Websocket/Connection/Stream.antt =====
-- From the broadcasts of the hub to the connection of a client.
use mathlib.Core.List.Perm
use mathlib.Core.List.{append_assoc, append-nil, Perm}
use coriolis_logger.Common.{
  ℕ, ◌≡◌, refl, sym, ap, ◌∙◌, Bool, false, none, List, [], ◌∷◌, ◌++◌, map, All, ok,
}
use coriolis_logger.Websocket.{Payload}
use coriolis_logger.Websocket.Hub.{Hub, Turn, run}
use coriolis_logger.Websocket.Hub.Owed.{run-owed}
use coriolis_logger.Websocket.Hub.Owed.Payloads.{owed, taken, wanted, over, IsTimer}
use coriolis_logger.Websocket.Connection.{
  Frame, payload_frame, close_frame, ping_frame, Socket, Taken, message, channel_closed, ping_due,
  write_json, write_message, client_writer,
}
use coriolis_logger.Websocket.Connection.Writing.{frame_of, IsFaithful, write_message-sent}

-- The payloads that are handed to the writer, and those of frames.
abbrev pub payloads_of : List Taken → List Payload
payloads_of [] = []
payloads_of (message v ∷ events) = v ∷ payloads_of events
payloads_of (channel_closed ∷ events) = payloads_of events
payloads_of (ping_due ∷ events) = payloads_of events

abbrev pub payloads_in : List Frame → List Payload
payloads_in [] = []
payloads_in (payload_frame v ∷ frames) = v ∷ payloads_in frames
payloads_in (close_frame ∷ frames) = payloads_in frames
payloads_in (ping_frame ∷ frames) = payloads_in frames

abbrev pub IsGoingOn : Taken → Type 0
IsGoingOn channel_closed = ⊥
IsGoingOn _ = Unit

payloads_in-append :
    (xs ys : List Frame) → payloads_in (xs ++ ys) ≡ payloads_in xs ++ payloads_in ys
payloads_in-append [] ys = refl
payloads_in-append (payload_frame v ∷ xs) ys = ap (λ l. v ∷ l) (payloads_in-append xs ys)
payloads_in-append (close_frame ∷ xs) ys = payloads_in-append xs ys
payloads_in-append (ping_frame ∷ xs) ys = payloads_in-append xs ys

payloads_in-frame_of :
    (events : List Taken) → payloads_in (map frame_of events) ≡ payloads_of events
payloads_in-frame_of [] = refl
payloads_in-frame_of (message v ∷ events) = ap (λ l. v ∷ l) (payloads_in-frame_of events)
payloads_in-frame_of (channel_closed ∷ events) = payloads_in-frame_of events
payloads_in-frame_of (ping_due ∷ events) = payloads_in-frame_of events

module _ {S : Type 0} (socket : Socket S) (sent : S → List Frame) (is_closed : S → Bool)
    (faithful : IsFaithful socket sent is_closed)
    (working : (f : Frame) (s : S) → (socket.write f s).1 ≡ none) where
  abbrev SendsAll : List Taken → S → S × Bool → Type 0
  SendsAll events s (s', ended) = (ended ≡ false) × (sent s' ≡ sent s ++ map frame_of events)

  written : (f : Frame) (s : S) → (write_message socket f s).1 ≡ none
  unfolding write_message
  written f s = working f _

  sends_next :
      (event : Taken) (events : List Taken) (s : S) (r : S × Bool)
      → SendsAll events (write_message socket (frame_of event) s).0 r
      → SendsAll (event ∷ events) s r
  sends_next event events s r (going, all) = (
    going,
    all
        ∙ ap (λ l. l ++ map frame_of events)
            (write_message-sent socket sent is_closed faithful (frame_of event) s
              (written (frame_of event) s))
        ∙ append_assoc (sent s) _ _,
  )

  client_writer-SendsAll :
      (events : List Taken) (s : S)
      → All IsGoingOn events
      → SendsAll events s (client_writer socket events s)
  unfolding client_writer write_json write_message
  client_writer-SendsAll [] s h = (refl, sym (append-nil (sent s)))
  client_writer-SendsAll (channel_closed ∷ events) s (going, h) = absurd going
  client_writer-SendsAll (message v ∷ events) s (going, h) =
      rw (written (payload_frame v) s, client_writer)
        (sends_next (message v) events s _ (client_writer-SendsAll events _ h))
  client_writer-SendsAll (ping_due ∷ events) s (going, h) =
      rw (written ping_frame s, client_writer)
        (sends_next ping_due events s _ (client_writer-SendsAll events _ h))

  -- If a connection keeps exactly the frames written to it without an error and fails no write,
  -- and the writer of a client is handed, beside pings, the payloads that the turns of a hub take
  -- for it, turns without a panic and without a timer that goes off, then the writer waits for
  -- more, and the payloads on the connection followed by those still owed to the client are up to
  -- order those that were on it, followed by those owed at first and those broadcast to the client
  -- meanwhile.
  pub client_writer-run :
      (p : ℕ) (turns : List Turn) (h h' : Hub) (events : List Taken) (s : S)
      → All (λ t. ¬ IsTimer t) turns
      → run turns h ≡ ok h'
      → All IsGoingOn events
      → payloads_of events ≡ over (taken p) turns h
      → ((client_writer socket events s).1 ≡ false)
        × Perm
            (payloads_in (sent (client_writer socket events s).0) ++ owed p h')
            (payloads_in (sent s) ++ (owed p h ++ over (wanted p) turns h))
  client_writer-run p turns h h' events s no_timers ran going same =
      let (running, all) = client_writer-SendsAll events s going in
      let onto =
        ap payloads_in all
        ∙ payloads_in-append (sent s) _
        ∙ ap (λ l. payloads_in (sent s) ++ l) (payloads_in-frame_of events ∙ same) in
      (
        running,
        rw (onto, append_assoc (payloads_in (sent s)) (over (taken p) turns h) (owed p h'))
            (Perm.append_left (payloads_in (sent s)) (run-owed p turns h h' no_timers ran)),
      )
