-- ===== src/Websocket/Hub/Invariant/Turns.antt =====
-- What holds of the hub, over its turns.
use coriolis_logger.Common.{
  Option-cases, ℕ, ◌≤◌, ◌≡◌, refl, subst, inl, inr, arith, none, some, List, [], ◌∷◌, All, length,
  ltb, Result, ok, >>=-eq-ok, ok_injective, ok_becomes, if_ok,
}
use coriolis_logger.Websocket.{Payload}
use coriolis_logger.Websocket.Hub.{
  Hub, Delivery, Turn, quits, takes_register, takes_unregister, takes_broadcast, sends, expires,
  receives, leaves, asks, writes, registers, pick, send, expire, rest_of, channel_size, step, run,
}
use coriolis_logger.Websocket.Hub.Invariant.{
  IsNamedDelivery, IsWellFormed, All-pick, update-SameIds, update-IsBounded, reheap,
  take_register-IsWellFormed, take_unregister-IsWellFormed, take_broadcast-IsWellFormed,
  send-IsWellFormed, expire-IsWellFormed, write-IsWellFormed, register-IsWellFormed,
}

rest_of-le : (xs : List Payload) {n : ℕ} → length xs ≤ n → length (rest_of xs) ≤ n
rest_of-le [] h = h
rest_of-le (x ∷ xs) h = omega arith

module _ (h h' : Hub) (w : IsWellFormed h) where
  picked-IsWellFormed :
      (n : ℕ) (f : Delivery → List Delivery → Hub → Result Hub)
      → ((d : Delivery) (rest : List Delivery)
          → f d rest h ≡ ok h'
          → All (IsNamedDelivery h.heap) rest
          → IsWellFormed h')
      → (elim (pick n h.pending) [ none ↦ ok h | some (d, rest) ↦ f d rest h ]) ≡ ok h'
      → IsWellFormed h'
  picked-IsWellFormed n f keeps e = elim (Option-cases (pick n h.pending)) [
    | inl missing ↦ subst IsWellFormed (ok_injective (rw missing at e)) w
    | inr ((d, rest), found) ↦
        keeps d rest (rw found at e) (All-pick _ n h.pending found w.named_pending).1
  ]

  -- Every turn that does not panic keeps the hub well formed.
  step-IsWellFormed : (t : Turn) → step t h ≡ ok h' → IsWellFormed h'
  unfolding step
  step-IsWellFormed quits e =
      ok_becomes IsWellFormed _
        (record { named = w.named; named_pending = w.named_pending; bounded = w.bounded }) e
  step-IsWellFormed takes_register e =
      if_ok IsWellFormed h.closed _ _ (ok_becomes IsWellFormed h w)
        (ok_becomes IsWellFormed _ (take_register-IsWellFormed h.registering h w)) e
  step-IsWellFormed takes_unregister e =
      if_ok IsWellFormed h.closed _ _ (ok_becomes IsWellFormed h w)
        (λ k. take_unregister-IsWellFormed h.unregistering h h' k w) e
  step-IsWellFormed takes_broadcast e =
      if_ok IsWellFormed h.closed _ _ (ok_becomes IsWellFormed h w)
        (ok_becomes IsWellFormed _ (take_broadcast-IsWellFormed h.broadcast h w)) e
  step-IsWellFormed (sends n) e =
      picked-IsWellFormed n send (λ d rest k named. send-IsWellFormed d rest h h' k w named) e
  step-IsWellFormed (expires n) e =
      picked-IsWellFormed n expire (λ d rest k named. expire-IsWellFormed d rest h h' k w named) e
  step-IsWellFormed (receives p) e =
      ok_becomes IsWellFormed _
        (reheap h _ w (update-SameIds h.heap p _ refl)
          (update-IsBounded h.heap p _ w.bounded (rest_of-le (h.heap p).send (w.bounded p))))
        e
  step-IsWellFormed (leaves p) e =
      if_ok IsWellFormed (ltb (length h.unregistering) channel_size) _ _
        (ok_becomes IsWellFormed _
          (record { named = w.named; named_pending = w.named_pending; bounded = w.bounded }))
        (ok_becomes IsWellFormed h w) e
  step-IsWellFormed (asks p options) e =
      ok_becomes IsWellFormed _
        (reheap h _ w (update-SameIds h.heap p _ refl)
          (update-IsBounded h.heap p _ w.bounded (w.bounded p)))
        e
  step-IsWellFormed (writes msg) e = ok_becomes IsWellFormed _ (write-IsWellFormed h msg w) e
  step-IsWellFormed (registers p) e = ok_becomes IsWellFormed _ (register-IsWellFormed h p w) e

-- From a well-formed hub, any sequence of turns without a panic leads to a well-formed hub: every
-- client in the map and in a waiting delivery stands under its own id, and no buffer of a client
-- exceeds 1024 payloads.
pub run-IsWellFormed :
    (turns : List Turn) (h h' : Hub) → IsWellFormed h → run turns h ≡ ok h' → IsWellFormed h'
unfolding run
run-IsWellFormed [] h h' w e = subst IsWellFormed (ok_injective e) w
run-IsWellFormed (t ∷ turns) h h' w e =
    let (mid, first, rest) = >>=-eq-ok (step t h) (run turns) e in
    run-IsWellFormed turns mid h' (step-IsWellFormed h mid w t first) rest
