-- ===== src/Websocket/Hub/Invariant.antt =====
-- What holds of the hub whatever turns are taken, for each of its operations.
pub mod Turns
use coriolis_logger.Common.{
  some_inj, Option-cases, ℕ, zero, suc, ◌≤◌, ◌≡◌, refl, ◌∙◌, subst, inl, inr, arith, String, none,
  some, List, [], ◌∷◌, is_some, All, length, length-append, ltb, ltb→lt, Result, ok, >>=-eq-ok,
  ok_injective, ok_becomes, if_ok, All-map, All-append, Bool-cases,
}
use coriolis_logger.Logging.{LogMessage, lookup}
use coriolis_logger.Websocket.{Client, Payload}
use coriolis_logger.Websocket.Hub.{
  Hub, Delivery, Turn, quits, takes_register, takes_unregister, takes_broadcast, sends, expires,
  receives, leaves, asks, writes, registers, write, register, or_same, send_size, update, delete,
  close_send, add_client, drop_client, fan_out, pick, send, expire, take_register, take_unregister,
  take_broadcast, rest_of, channel_size, step, run,
}

-- Clients keep their ids: an update of the heap changes none.
abbrev pub SameIds : (ℕ → Client) → (ℕ → Client) → Type 0
SameIds heap heap' = (p : ℕ) → (heap' p).id ≡ (heap p).id

abbrev pub IsNamed : (ℕ → Client) → String × ℕ → Type 0
IsNamed heap e = (heap e.1).id ≡ e.0

abbrev pub IsNamedDelivery : (ℕ → Client) → Delivery → Type 0
IsNamedDelivery heap d = (heap d.client).id ≡ d.id

abbrev pub IsBounded : (ℕ → Client) → Type 0
IsBounded heap = (p : ℕ) → length (heap p).send ≤ send_size

-- The map and the deliveries have every client under its own id, and no client's buffer holds more
-- than its channel can.
pub record IsWellFormed (h : Hub) : Type 0 where
  pub named : All (IsNamed h.heap) h.clients
  pub named_pending : All (IsNamedDelivery h.heap) h.pending
  pub bounded : IsBounded h.heap

pub All-delete :
    (P : String × ℕ → Type 0) (id : String) (m : List (String × ℕ)) → All P m → All P (delete id m)
unfolding delete
All-delete P id [] h = tt
All-delete P id ((j, p) ∷ m) (q, h) = ground (arith, All-delete P id m h)

pub All-pick :
    (P : Delivery → Type 0) (n : ℕ) (ds : List Delivery) {d : Delivery} {rest : List Delivery}
    → pick n ds ≡ some (d, rest)
    → All P ds
    → P d × All P rest
unfolding pick
All-pick P n [] e h = cc
All-pick P zero (x ∷ ds) e (p, h) = subst (λ t. P t.0 × All P t.1) (some_inj e) (p, h)
All-pick P (suc n) (x ∷ ds) e (p, h) = elim (Option-cases (pick n ds)) [
  | inl missing ↦ cc (rw (missing, pick) at e)
  | inr ((y, others), found) ↦
      let (q, hs) = All-pick P n ds found h in
      subst (λ t. P t.0 × All P t.1) (some_inj (rw (found, pick) at e)) (q, (p, hs))
]

All-fan_out :
    (heap : ℕ → Client) (msg : LogMessage) (clients : List (String × ℕ))
    → All (IsNamed heap) clients
    → All (IsNamedDelivery heap) (fan_out heap msg clients)
unfolding fan_out
All-fan_out heap msg [] h = tt
All-fan_out heap msg ((id, p) ∷ clients) (q, h) = ground (arith, All-fan_out heap msg clients h)

pub update-SameIds :
    (heap : ℕ → Client) (p : ℕ) (c : Client) → c.id ≡ (heap p).id → SameIds heap (update heap p c)
unfolding update
update-SameIds heap p c e q = ground arith

pub update-IsBounded :
    (heap : ℕ → Client) (p : ℕ) (c : Client)
    → IsBounded heap
    → length c.send ≤ send_size
    → IsBounded (update heap p c)
unfolding update
update-IsBounded heap p c b h q = ground (arith, b q)

-- A new heap under the same map and deliveries.
pub reheap :
    (h : Hub) (heap : ℕ → Client)
    → IsWellFormed h
    → SameIds h.heap heap
    → IsBounded heap
    → IsWellFormed (record h { heap = heap })
reheap h heap w same bounded = record {
  named = All-map _ _ h.clients (λ e q. same e.1 ∙ q) w.named;
  named_pending = All-map _ _ h.pending (λ d q. same d.client ∙ q) w.named_pending;
  bounded = bounded;
}

close_send-IsWellFormed :
    (p : ℕ) (h h' : Hub) → close_send p h ≡ ok h' → IsWellFormed h → IsWellFormed h'
unfolding close_send
close_send-IsWellFormed p h h' e w = elim (Bool-cases (h.heap p).closed) [
  | inl shut ↦ cc (rw (shut, close_send) at e)
  | inr open_channel ↦ subst IsWellFormed (ok_injective (rw (open_channel, close_send) at e)) (
      reheap h _ w (update-SameIds h.heap p _ refl)
        (update-IsBounded h.heap p _ w.bounded (w.bounded p)))
]

pub take_register-IsWellFormed :
    (ps : List ℕ) (h : Hub) → IsWellFormed h → IsWellFormed (take_register ps h)
unfolding take_register add_client
take_register-IsWellFormed [] h w = w
take_register-IsWellFormed (p ∷ ps) h w = record {
  named = (refl, All-delete (IsNamed h.heap) (h.heap p).id h.clients w.named);
  named_pending = w.named_pending;
  bounded = w.bounded;
}

pub take_unregister-IsWellFormed :
    (ps : List ℕ) (h h' : Hub) → take_unregister ps h ≡ ok h' → IsWellFormed h → IsWellFormed h'
unfolding take_unregister drop_client
take_unregister-IsWellFormed [] h h' e w = subst IsWellFormed (ok_injective e) w
take_unregister-IsWellFormed (p ∷ ps) h h' e w =
    elim (Bool-cases (is_some (lookup (h.heap p).id h.clients))) [
      | inl mapped ↦ close_send-IsWellFormed p _ h' (rw mapped at e) (record {
        named = All-delete (IsNamed h.heap) (h.heap p).id h.clients w.named;
        named_pending = w.named_pending;
        bounded = w.bounded;
      })
      | inr gone ↦
          subst IsWellFormed (ok_injective (rw gone at e))
            (record { named = w.named; named_pending = w.named_pending; bounded = w.bounded })
    ]

pub take_broadcast-IsWellFormed :
    (msgs : List LogMessage) (h : Hub) → IsWellFormed h → IsWellFormed (take_broadcast msgs h)
unfolding take_broadcast
take_broadcast-IsWellFormed [] h w = w
take_broadcast-IsWellFormed (msg ∷ msgs) h w = record {
  named = w.named;
  named_pending =
      All-append _ h.pending _ w.named_pending (All-fan_out h.heap msg h.clients w.named);
  bounded = w.bounded;
}

pub send-IsWellFormed :
    (d : Delivery) (rest : List Delivery) (h h' : Hub)
    → send d rest h ≡ ok h'
    → IsWellFormed h
    → All (IsNamedDelivery h.heap) rest
    → IsWellFormed h'
unfolding send
send-IsWellFormed d rest h h' e w named = elim (Bool-cases (h.heap d.client).closed) [
  | inl shut ↦ cc (rw (shut, send) at e)
  | inr open_channel ↦ elim (Bool-cases (ltb (length (h.heap d.client).send) send_size)) [
    | inr full ↦ subst IsWellFormed (ok_injective (rw (open_channel, full, send) at e)) w
    | inl room ↦ subst IsWellFormed (ok_injective (rw (open_channel, room, send) at e)) (
        reheap (record h { pending = rest }) _
          (record { named = w.named; named_pending = named; bounded = w.bounded })
          (update-SameIds h.heap d.client _ refl)
          (update-IsBounded h.heap d.client _ w.bounded (
            omega (arith, length-append (h.heap d.client).send (d.payload ∷ []), ltb→lt _ _ room))))
  ]
]

pub expire-IsWellFormed :
    (d : Delivery) (rest : List Delivery) (h h' : Hub)
    → expire d rest h ≡ ok h'
    → IsWellFormed h
    → All (IsNamedDelivery h.heap) rest
    → IsWellFormed h'
unfolding expire
expire-IsWellFormed d rest h h' e w named =
    let (mid, shut, last) = >>=-eq-ok (close_send d.client (record h { pending = rest })) _ e in
    let v =
      close_send-IsWellFormed d.client _ mid shut
        (record { named = w.named; named_pending = named; bounded = w.bounded }) in
    subst IsWellFormed (ok_injective last) (record {
      named = All-delete (IsNamed mid.heap) d.id mid.clients v.named;
      named_pending = v.named_pending;
      bounded = v.bounded;
    })

pub write-IsWellFormed :
    (h : Hub) (msg : LogMessage) → IsWellFormed h → IsWellFormed (write msg h).0
unfolding write
write-IsWellFormed h msg w = elim (Bool-cases (ltb (length h.broadcast) channel_size)) [
  | inl room ↦
      rw (room, write)
        (record { named = w.named; named_pending = w.named_pending; bounded = w.bounded })
  | inr full ↦ rw (full, write) w
]

pub register-IsWellFormed :
    (h : Hub) (p : ℕ) → IsWellFormed h → IsWellFormed (or_same h (register p h))
unfolding register
register-IsWellFormed h p w = elim (Bool-cases (ltb (length h.registering) channel_size)) [
  | inl room ↦
      rw (room, register)
        (record { named = w.named; named_pending = w.named_pending; bounded = w.bounded })
  | inr full ↦ rw (full, register) w
]
