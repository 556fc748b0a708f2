-- ===== src/Websocket/Connection/Reading.antt =====
-- What the reader of a client does to the client and the hub.
use coriolis_logger.Common.{
  ℕ, eqb→eq, ◌≡◌, refl, ◌∙◌, inl, inr, arith, Bool, true, false, Bool-cases, List, [], ◌∷◌, ◌++◌,
  length, ltb, ok, Error, ◌≤◌, ◌<◌,
}
use coriolis_logger.Clock.{add}
use coriolis_logger.Websocket.{ClientFilterOptions, Client}
use coriolis_logger.Websocket.Hub.{Hub, Turn, leaves, update, channel_size, step, run}
use coriolis_logger.Websocket.Connection.{
  Socket, Incoming, options, pong, failure, Phase, reading, leaving, gone, max_message_size,
  pong_wait, leave, read_loop, client_reader,
}

-- The last options before the first error, or the old ones, and whether there is an error.
abbrev pub last_options : ClientFilterOptions → List Incoming → ClientFilterOptions
last_options old [] = old
last_options old (options o ∷ readings) = last_options o readings
last_options old (pong ∷ readings) = last_options old readings
last_options old (failure e ∷ readings) = old

abbrev pub has_failure : List Incoming → Bool
has_failure [] = false
has_failure (options o ∷ readings) = has_failure readings
has_failure (pong ∷ readings) = has_failure readings
has_failure (failure e ∷ readings) = true

abbrev pub with_options : ℕ → ClientFilterOptions → (ℕ → Client) → ℕ → Client
with_options p o heap = update heap p (record (heap p) { options = o })

pub update-same : (heap : ℕ → Client) (p : ℕ) (c : Client) → update heap p c p ≡ c
unfolding update
update-same heap p c = ground arith

update_self : (heap : ℕ → Client) (p q : ℕ) → heap q ≡ update heap p (heap p) q
unfolding update
update_self heap p q = ground (arith, eqb→eq p q)

update-update :
    (heap : ℕ → Client) (p q : ℕ) (c d : Client)
    → update (update heap p c) p d q ≡ update heap p d q
unfolding update
update-update heap p q c d = ground arith

module _ {S : Type 0} (socket : Socket S) where
  -- The connection after the pongs before the first error.
  abbrev pub heard : List Incoming → S → S
  heard [] s = s
  heard (options o ∷ readings) s = heard readings s
  heard (pong ∷ readings) s =
      heard readings (socket.set_read_deadline (add (socket.now s) pong_wait) s)
  heard (failure e ∷ readings) s = s

  -- How it ends, with the unregister channel before and after it and the connection s. A reader that
  -- waits at a full channel leaves once the hub has taken one client off it.
  pub data Ends (p : ℕ) (failed : Bool) (before after : List ℕ) (s s' : S) (phase : Phase)
      : Type 0 where
    goes_on :
        failed ≡ false
        → after ≡ before
        → s' ≡ s
        → phase ≡ reading
        → Ends p failed before after s s' phase
    has_left :
        failed ≡ true
        → length before < channel_size
        → after ≡ before ++ p ∷ []
        → s' ≡ socket.close s
        → phase ≡ gone
        → Ends p failed before after s s' phase
    waits :
        {q : ℕ} {others : List ℕ}
        → failed ≡ true
        → before ≡ q ∷ others
        → length before ≡ channel_size
        → after ≡ before
        → s' ≡ s
        → phase ≡ leaving
        → leave socket p others s' ≡ (socket.close s, leaves p ∷ [], gone)
        → Ends p failed before after s s' phase

  -- The hub after the turns of a reader, and the reader.
  abbrev pub IsRead : ℕ → List Incoming → Hub → S → S × List Turn × Phase → Type 0
  IsRead p readings h s (s', turns, phase) =
      (h' : Hub) × (run turns h ≡ ok h')
      × ((q : ℕ) → h'.heap q ≡ with_options p (last_options (h.heap p).options readings) h.heap q)
      × (h'.clients ≡ h.clients)
      × Ends p (has_failure readings) h.unregistering h'.unregistering (heard readings s) s' phase

module _ {S : Type 0} (socket : Socket S) (p : ℕ) where
  full-waits :
      (channel : List ℕ) (s : S)
      → length channel ≡ channel_size
      → Ends socket p true channel channel s s leaving
  unfolding leave
  full-waits [] s full = cc
  full-waits (q ∷ others) s full = waits refl refl full refl refl refl (ground arith)

  run-leaves :
      (h : Hub)
      → ltb (length h.unregistering) channel_size ≡ true
      → run (leaves p ∷ []) h ≡ ok (record h { unregistering = h.unregistering ++ p ∷ [] })
  unfolding run step
  run-leaves h room = rw (room, run, step) refl

  leave-IsRead :
      (e : Error) (readings : List Incoming) (h : Hub) (s : S)
      → length h.unregistering ≤ channel_size
      → IsRead socket p (failure e ∷ readings) h s (leave socket p h.unregistering s)
  unfolding leave run
  leave-IsRead e readings h s bound =
      elim (Bool-cases (ltb (length h.unregistering) channel_size)) [
        | inl room ↦
            rw (room, leave)
              (
                record h { unregistering = h.unregistering ++ p ∷ [] },
                run-leaves h room,
                update_self h.heap p,
                refl,
                has_left refl (ground arith) refl refl refl,
              )
        | inr full ↦
            rw (full, leave)
              (h, refl, update_self h.heap p, refl, full-waits h.unregistering s (ground arith))
      ]

  read_loop-IsRead :
      (readings : List Incoming) (s : S) (h : Hub)
      → length h.unregistering ≤ channel_size
      → IsRead socket p readings h s (read_loop socket p readings h.unregistering s)
  unfolding read_loop run step
  read_loop-IsRead [] s h bound = (h, refl, update_self h.heap p, refl, goes_on refl refl refl refl)
  read_loop-IsRead (options o ∷ readings) s h bound =
      let asked = record (h.heap p) { options = o } in
      let h₁ = record h { heap = update h.heap p asked } in
      let (h', e, heap, clients, ends) = read_loop-IsRead readings s h₁ bound in
      (
        h',
        e,
        (λ q. heap q ∙ rw (update-same h.heap p asked) (update-update h.heap p q asked _)),
        clients,
        ends,
      )
  read_loop-IsRead (pong ∷ readings) s h bound = read_loop-IsRead readings _ h bound
  read_loop-IsRead (failure e ∷ readings) s h bound = leave-IsRead e readings h s bound

  -- Over a hub whose unregister channel holds at most 100 clients, whatever the reader of a client
  -- meets: its turns run without a panic, the client then has the last options that came before
  -- the first error, and the rest of it, the other clients and the map are as they were. Without
  -- an error the reader is still in its loop. After an error, with room in the unregister channel,
  -- it has put the client at the end of that, closed its connection and returned; with a full
  -- channel it waits, with the channel as it was and its connection open, and puts the client
  -- there, closes and returns once the hub has taken one client off. Up to then the connection has
  -- seen the limits that the reader sets at first and at each pong.
  pub client_reader-IsRead :
      (readings : List Incoming) (s : S) (h : Hub)
      → length h.unregistering ≤ channel_size
      → (let limited = socket.set_read_limit max_message_size s in
          IsRead socket p readings h
            (socket.set_read_deadline (add (socket.now limited) pong_wait) limited)
            (client_reader socket p readings h.unregistering s))
  unfolding client_reader
  client_reader-IsRead readings s h bound = read_loop-IsRead readings _ h bound
