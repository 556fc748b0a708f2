-- ===== src/Websocket/Hub/Open.antt =====
-- When no turn can panic.
use coriolis_logger.Common.{
  eqb→eq, Option-cases, ℕ, ◌≡◌, refl, ◌∙◌, inl, inr, arith, String, Bool, true, false, List, [],
  ◌∷◌, ◌++◌, All, All-map, All-append, length, ltb, if◌then◌else◌, Result, ok, panic, Bool-cases,
}
use coriolis_logger.Logging.{LogMessage}
use coriolis_logger.Websocket.{Client}
use coriolis_logger.Websocket.Hub.{
  Hub, Delivery, Turn, quits, takes_register, takes_unregister, takes_broadcast, sends, expires,
  receives, leaves, asks, writes, registers, write, register, or_same, send_size, update,
  add_client, fan_out, pick, send, take_register, take_broadcast, channel_size, step, run,
}
use coriolis_logger.Websocket.Hub.Invariant.{All-delete, All-pick}

abbrev IsOpenAt : (ℕ → Client) → ℕ → Type 0
IsOpenAt heap p = (heap p).closed ≡ false

abbrev SameClosed : (ℕ → Client) → (ℕ → Client) → Type 0
SameClosed heap heap' = (p : ℕ) → (heap' p).closed ≡ (heap p).closed

-- Every client that the hub, its deliveries or its register channel know has an open channel.
pub record IsOpen (h : Hub) : Type 0 where
  pub mapped : All (λ e. IsOpenAt h.heap e.1) h.clients
  pub awaited : All (λ d. IsOpenAt h.heap d.client) h.pending
  pub registering : All (IsOpenAt h.heap) h.registering

-- The turns that close channels, and the registration of a client whose channel is closed.
abbrev pub IsCalm : Hub → Turn → Type 0
IsCalm h (expires n) = ⊥
IsCalm h takes_unregister = ⊥
IsCalm h (registers p) = (h.heap p).closed ≡ false
IsCalm h _ = Unit

All-fan_out-open :
    (heap heap' : ℕ → Client) (msg : LogMessage) (clients : List (String × ℕ))
    → All (λ e. IsOpenAt heap' e.1) clients
    → All (λ d. IsOpenAt heap' d.client) (fan_out heap msg clients)
unfolding fan_out
All-fan_out-open heap heap' msg [] h = tt
All-fan_out-open heap heap' msg ((id, p) ∷ clients) (q, h) =
    ground (arith, All-fan_out-open heap heap' msg clients h)

update-closed :
    (heap : ℕ → Client) (q : ℕ) (c : Client)
    → c.closed ≡ (heap q).closed
    → SameClosed heap (update heap q c)
unfolding update
update-closed heap q c e p = ground (arith, eqb→eq q p)

-- A new heap in which every channel is as it was.
reheap-IsOpen :
    (h : Hub) (q : ℕ) (c : Client)
    → c.closed ≡ (h.heap q).closed
    → IsOpen h
    → IsOpen (record h { heap = update h.heap q c })
reheap-IsOpen h q c e o = record {
  mapped = All-map _ _ h.clients (λ x. same x.1) o.mapped;
  awaited = All-map _ _ h.pending (λ x. same x.client) o.awaited;
  registering = All-map _ _ h.registering same o.registering;
}
  where
    same : (p : ℕ) → (h.heap p).closed ≡ false → (update h.heap q c p).closed ≡ false
    same p k = update-closed h.heap q c e p ∙ k

module _ (h : Hub) (o : IsOpen h) where
  take_register-IsOpen : (ps : List ℕ) → All (IsOpenAt h.heap) ps → IsOpen (take_register ps h)
  unfolding take_register add_client
  take_register-IsOpen [] rs = o
  take_register-IsOpen (p ∷ ps) (r, rs) = record {
    mapped = (r, All-delete (λ e. IsOpenAt h.heap e.1) (h.heap p).id h.clients o.mapped);
    awaited = o.awaited;
    registering = rs;
  }

  take_register-SameClosed : (ps : List ℕ) → SameClosed h.heap (take_register ps h).heap
  unfolding take_register add_client
  take_register-SameClosed [] p = refl
  take_register-SameClosed (q ∷ ps) p = refl

  take_broadcast-SameClosed :
      (msgs : List LogMessage) → SameClosed h.heap (take_broadcast msgs h).heap
  unfolding take_broadcast
  take_broadcast-SameClosed [] p = refl
  take_broadcast-SameClosed (msg ∷ msgs) p = refl

  take_broadcast-IsOpen : (msgs : List LogMessage) → IsOpen (take_broadcast msgs h)
  unfolding take_broadcast
  take_broadcast-IsOpen [] = o
  take_broadcast-IsOpen (msg ∷ msgs) = record {
    mapped = o.mapped;
    awaited =
        All-append _ h.pending _ o.awaited (All-fan_out-open h.heap h.heap msg h.clients o.mapped);
    registering = o.registering;
  }

  -- The result is a hub whose channels are open, and no channel is closed on the way to it.
  abbrev Succeeds : Result Hub → Type 0
  Succeeds r = (h' : Hub) × (r ≡ ok h') × IsOpen h' × SameClosed h.heap h'.heap

  unless :
      (b : Bool) (g : Hub)
      → IsOpen g
      → SameClosed h.heap g.heap
      → Succeeds (if b then ok h else ok g)
  unless true g v same = (h, refl, o, λ p. refl)
  unless false g v same = (g, refl, v, same)

  unless_not :
      (b : Bool) (g : Hub)
      → IsOpen g
      → SameClosed h.heap g.heap
      → Succeeds (if b then ok g else ok h)
  unless_not true g v same = (g, refl, v, same)
  unless_not false g v same = (h, refl, o, λ p. refl)

  past_panic :
      (b : Bool) (r : Result Hub) → b ≡ false → Succeeds r → Succeeds (if b then panic else r)
  past_panic true r e v = cc
  past_panic false r e v = v

  send-Succeeds :
      (d : Delivery) (rest : List Delivery)
      → IsOpenAt h.heap d.client
      → All (λ x. IsOpenAt h.heap x.client) rest
      → Succeeds (send d rest h)
  unfolding send
  send-Succeeds d rest open_channel others =
      let c = h.heap d.client in
      past_panic c.closed _ open_channel (
        unless_not (ltb (length c.send) send_size) _
          (reheap-IsOpen (record h { pending = rest }) d.client _ refl
            (record { mapped = o.mapped; awaited = others; registering = o.registering }))
          (update-closed h.heap d.client _ refl))

  write-IsOpen : (msg : LogMessage) → IsOpen (write msg h).0
  unfolding write
  write-IsOpen msg = elim (Bool-cases (ltb (length h.broadcast) channel_size)) [
    | inl room ↦
        rw (room, write)
          (record { mapped = o.mapped; awaited = o.awaited; registering = o.registering })
    | inr full ↦ rw (full, write) o
  ]

  register-IsOpen : (p : ℕ) → (h.heap p).closed ≡ false → IsOpen (or_same h (register p h))
  unfolding register
  register-IsOpen p calm = elim (Bool-cases (ltb (length h.registering) channel_size)) [
    | inl room ↦
        rw (room, register)
          (record {
            mapped = o.mapped;
            awaited = o.awaited;
            registering = All-append _ h.registering (p ∷ []) o.registering (calm, tt);
          })
    | inr full ↦ rw (full, register) o
  ]

  write-SameClosed : (msg : LogMessage) → SameClosed h.heap (write msg h).0.heap
  unfolding write
  write-SameClosed msg p = ground arith

  register-SameClosed : (q : ℕ) → SameClosed h.heap (or_same h (register q h)).heap
  unfolding register
  register-SameClosed q p = ground arith

  still : (g : Hub) → IsOpen g → SameClosed h.heap g.heap → Succeeds (ok g)
  still g v same = (g, refl, v, same)

  step-Succeeds : (t : Turn) → IsCalm h t → Succeeds (step t h)
  unfolding step
  step-Succeeds quits calm =
      still (record h { closed = true })
        (record { mapped = o.mapped; awaited = o.awaited; registering = o.registering }) (λ p. refl)
  step-Succeeds takes_register calm =
      unless h.closed _ (take_register-IsOpen h.registering o.registering)
        (take_register-SameClosed h.registering)
  step-Succeeds takes_unregister calm = absurd calm
  step-Succeeds takes_broadcast calm =
      unless h.closed _ (take_broadcast-IsOpen h.broadcast) (take_broadcast-SameClosed h.broadcast)
  step-Succeeds (sends n) calm = elim (Option-cases (pick n h.pending)) [
    | inl missing ↦ rw (missing, step) (still h o (λ p. refl))
    | inr ((d, rest), found) ↦
        let (first, others) = All-pick _ n h.pending found o.awaited in
        rw (found, step) (send-Succeeds d rest first others)
  ]
  step-Succeeds (expires n) calm = absurd calm
  step-Succeeds (receives p) calm =
      still _ (reheap-IsOpen h p _ refl o) (update-closed h.heap p _ refl)
  step-Succeeds (leaves p) calm =
      unless_not (ltb (length h.unregistering) channel_size)
        (record h { unregistering = h.unregistering ++ p ∷ [] })
        (record { mapped = o.mapped; awaited = o.awaited; registering = o.registering }) (λ q. refl)
  step-Succeeds (asks p options) calm =
      let c = record (h.heap p) { options = options } in
      still _ (reheap-IsOpen h p c refl o) (update-closed h.heap p c refl)
  step-Succeeds (writes msg) calm = still _ (write-IsOpen msg) (write-SameClosed msg)
  step-Succeeds (registers p) calm = still _ (register-IsOpen p calm) (register-SameClosed p)

IsCalm-same : (h h' : Hub) (t : Turn) → SameClosed h.heap h'.heap → IsCalm h t → IsCalm h' t
IsCalm-same h h' quits same calm = tt
IsCalm-same h h' takes_register same calm = tt
IsCalm-same h h' takes_unregister same calm = calm
IsCalm-same h h' takes_broadcast same calm = tt
IsCalm-same h h' (sends n) same calm = tt
IsCalm-same h h' (expires n) same calm = calm
IsCalm-same h h' (receives p) same calm = tt
IsCalm-same h h' (leaves p) same calm = tt
IsCalm-same h h' (asks p options) same calm = tt
IsCalm-same h h' (writes msg) same calm = tt
IsCalm-same h h' (registers p) same calm = same p ∙ calm

-- From a hub in which every client in the map, in a waiting delivery and in the register channel
-- has an open channel, any sequence of turns in which no timer goes off, none is taken off the
-- unregister channel, and only clients whose channel is open at first are registered, runs without
-- a panic to a hub of that kind.
pub run-IsOpen :
    (turns : List Turn) (h : Hub)
    → IsOpen h
    → All (IsCalm h) turns
    → (h' : Hub) × (run turns h ≡ ok h') × IsOpen h'
unfolding run
run-IsOpen [] h o calm = (h, refl, o)
run-IsOpen (t ∷ turns) h o (calm, later) =
    let (mid, first, open_mid, same) = step-Succeeds h o t calm in
    let (h', rest, v) =
      run-IsOpen turns mid open_mid
        (All-map (IsCalm h) (IsCalm mid) turns (λ u. IsCalm-same h mid u same) later) in
    (h', rw first rest, v)
