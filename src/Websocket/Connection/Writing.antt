-- ===== src/Websocket/Connection/Writing.antt =====
-- What the writer of a client puts on its connection.
use mathlib.Core.List.{append_assoc, append-nil}
use coriolis_logger.Common.{
  ◌≡◌, refl, sym, ap, ◌∙◌, ◌⊎◌, inl, inr, Bool, true, false, none, some, Option-cases, List, [],
  ◌∷◌, ◌++◌, map, Error,
}
use coriolis_logger.Clock.{Time}
use coriolis_logger.Websocket.Connection.{
  Frame, payload_frame, close_frame, ping_frame, Socket, Taken, message, channel_closed, ping_due,
  write_json, write_message, client_writer,
}

-- The frame that an event asks for.
abbrev pub frame_of : Taken → Frame
frame_of (message v) = payload_frame v
frame_of channel_closed = close_frame
frame_of ping_due = ping_frame

-- A write without an error adds its frame to what was sent, and any other adds nothing.
pub record IsFaithful {S : Type 0} (socket : Socket S) (sent : S → List Frame)
    (is_closed : S → Bool) : Type 0 where
  pub writes :
      (f : Frame) (s : S)
      → (socket.write f s).1 ≡ none
      → sent (socket.write f s).0 ≡ sent s ++ f ∷ []
  pub fails :
      (f : Frame) (s : S) (e : Error)
      → (socket.write f s).1 ≡ some e
      → sent (socket.write f s).0 ≡ sent s
  pub deadlines : (t : Time) (s : S) → sent (socket.set_write_deadline t s) ≡ sent s
  pub closes : (s : S) → sent (socket.close s) ≡ sent s
  pub shuts : (s : S) → is_closed (socket.close s) ≡ true

module _ {S : Type 0} (socket : Socket S) (sent : S → List Frame) (is_closed : S → Bool)
    (faithful : IsFaithful socket sent is_closed) where
  -- The writer has sent the frames of the first events, and waits for more or has closed.
  abbrev pub Sends : List Taken → S → S × Bool → Type 0
  Sends events s r =
      (done : List Taken) × (rest : List Taken) × (events ≡ done ++ rest)
      × (sent r.0 ≡ sent s ++ map frame_of done)
      × (((r.1 ≡ false) × (rest ≡ [])) ⊎ ((r.1 ≡ true) × (is_closed r.0 ≡ true)))

  pub write_message-sent :
      (f : Frame) (s : S)
      → (write_message socket f s).1 ≡ none
      → sent (write_message socket f s).0 ≡ sent s ++ f ∷ []
  unfolding write_message
  write_message-sent f s h = faithful.writes f _ h ∙ ap (λ l. l ++ f ∷ []) (faithful.deadlines _ s)

  write_message-unsent :
      (f : Frame) (s : S) (e : Error)
      → (write_message socket f s).1 ≡ some e
      → sent (socket.close (write_message socket f s).0) ≡ sent s ++ []
  unfolding write_message
  write_message-unsent f s e h =
      faithful.closes _
      ∙ faithful.fails f _ e h
      ∙ faithful.deadlines _ s
      ∙ sym (append-nil (sent s))

  Sends-more :
      (event : Taken) (events : List Taken) (s s' : S) (r : S × Bool)
      → sent s' ≡ sent s ++ frame_of event ∷ []
      → Sends events s' r
      → Sends (event ∷ events) s r
  Sends-more event events s s' r first (done, rest, same, now_sent, ending) = (
    event ∷ done,
    rest,
    ap (λ l. event ∷ l) same,
    now_sent ∙ ap (λ l. l ++ map frame_of done) first ∙ append_assoc (sent s) _ _,
    ending,
  )

  stops :
      (events : List Taken) (s s' : S)
      → sent (socket.close s') ≡ sent s ++ []
      → Sends events s (socket.close s', true)
  stops events s s' h = ([], events, refl, h, inr (refl, faithful.shuts s'))

  closing :
      (events : List Taken) (s : S)
      → Sends
          (channel_closed ∷ events)
          s
          (socket.close (write_message socket close_frame s).0, true)
  closing events s = elim (Option-cases (write_message socket close_frame s).1) [
    | inl sent_it ↦ (
      channel_closed ∷ [],
      events,
      refl,
      faithful.closes _ ∙ write_message-sent close_frame s sent_it,
      inr (refl, faithful.shuts _),
    )
    | inr (e, failed) ↦ stops _ s _ (write_message-unsent close_frame s e failed)
  ]

  -- Over any connection that keeps exactly the frames written to it without an error, the writer
  -- of a client sends the frames of the first of its events, in order, and nothing else; it has
  -- then either handled all events and waits, or returned with its connection closed.
  pub client_writer-Sends :
      (events : List Taken) (s : S) → Sends events s (client_writer socket events s)
  unfolding client_writer write_json write_message
  client_writer-Sends [] s = ([], [], refl, sym (append-nil (sent s)), inl (refl, refl))
  client_writer-Sends (channel_closed ∷ events) s = closing events s
  client_writer-Sends (message v ∷ events) s =
      elim (Option-cases (write_message socket (payload_frame v) s).1) [
        | inl sent_it ↦
            rw (sent_it, client_writer)
              (Sends-more (message v) events s _ _ (write_message-sent (payload_frame v) s sent_it)
                (client_writer-Sends events _))
        | inr (e, failed) ↦
            rw (failed, client_writer) (stops _ s _ (write_message-unsent _ s e failed))
      ]
  client_writer-Sends (ping_due ∷ events) s =
      elim (Option-cases (write_message socket ping_frame s).1) [
        | inl sent_it ↦
            rw (sent_it, client_writer)
              (Sends-more ping_due events s _ _ (write_message-sent ping_frame s sent_it)
                (client_writer-Sends events _))
        | inr (e, failed) ↦
            rw (failed, client_writer) (stops _ s _ (write_message-unsent _ s e failed))
      ]
