-- ===== src/Websocket/Hub/Deliveries.antt =====
-- Which deliveries a broadcast starts, and what becomes of them.
use mathlib.Core.List.{Memᴰ}
use coriolis_logger.Common.{
  ℕ, ◌≡◌, ◌≢◌, refl, sym, ◌∙◌, subst, inl, inr, arith, String, true, false, none, some, List, ◌∷◌,
  ok, panic, >>=-eq-ok, ok_injective, Bool-cases,
}
use coriolis_logger.Logging.{LogMessage, lookup}
use coriolis_logger.Websocket.{Client, should_send, payload_of}
use coriolis_logger.Websocket.Hub.{
  Hub, Delivery, delete, takes_unregister, sends, expires, update, close_send, pick, send, expire,
  step,
}

-- A delivery of a message to a client of the map that wants it.
abbrev pub IsWanted : (ℕ → Client) → LogMessage → List (String × ℕ) → Delivery → Type 0
IsWanted heap msg clients d =
    Memᴰ (d.id, d.client) clients
    × (should_send (heap d.client).options msg ≡ true)
    × (d.payload ≡ payload_of msg)

-- A send on a closed channel panics, and so does a second close.
closed-panics :
    (m : ℕ) (d : Delivery) (rest : List Delivery) (h : Hub)
    → pick m h.pending ≡ some (d, rest)
    → (h.heap d.client).closed ≡ true
    → (step (sends m) h ≡ panic) × (step (expires m) h ≡ panic)
unfolding step send expire close_send
closed-panics m d rest h e closed = ground arith

close_send-closed : (p : ℕ) (h h' : Hub) → close_send p h ≡ ok h' → (h'.heap p).closed ≡ true
unfolding close_send update
close_send-closed p h h' e = elim (Bool-cases (h.heap p).closed) [
  | inl shut ↦ cc (rw (shut, close_send) at e)
  | inr open_channel ↦
      let same = ok_injective (rw (open_channel, close_send) at e) in
      subst (λ g. (g.heap p).closed ≡ true) same (ground arith)
]

expire-closed :
    (d : Delivery) (rest : List Delivery) (h h' : Hub)
    → expire d rest h ≡ ok h'
    → (h'.heap d.client).closed ≡ true
unfolding expire
expire-closed d rest h h' e =
    let (h₁, shut, last) = >>=-eq-ok (close_send d.client (record h { pending = rest })) _ e in
    subst (λ g. (g.heap d.client).closed ≡ true) (ok_injective last)
      (close_send-closed d.client _ h₁ shut)

step_expires :
    (n : ℕ) (h : Hub) (d : Delivery) (rest : List Delivery)
    → pick n h.pending ≡ some (d, rest)
    → step (expires n) h ≡ expire d rest h
unfolding step
step_expires n h d rest e = rw (e, step) refl

-- If the timer of one delivery has closed its client without a panic, then for every delivery that
-- still waits for the same client both its send and its timer panic.
pub expired-panics :
    (n m : ℕ) (h h' : Hub) (d d' : Delivery) (rest rest' : List Delivery)
    → pick n h.pending ≡ some (d, rest)
    → step (expires n) h ≡ ok h'
    → pick m h'.pending ≡ some (d', rest')
    → d'.client ≡ d.client
    → (step (sends m) h' ≡ panic) × (step (expires m) h' ≡ panic)
expired-panics n m h h' d d' rest rest' picked e picked' same =
    closed-panics m d' rest' h' picked' (
      subst (λ q. (h'.heap q).closed ≡ true) (sym same)
        (expire-closed d rest h h' (sym (step_expires n h d rest picked) ∙ e)))

step_takes_unregister :
    (p : ℕ) (ps : List ℕ) (h : Hub)
    → h.closed ≡ false
    → h.unregistering ≡ p ∷ ps
    → lookup (h.heap p).id h.clients ≢ none
    → step takes_unregister h
      ≡ close_send p (record h { unregistering = ps; clients = delete (h.heap p).id h.clients })
unfolding step
step_takes_unregister p ps h running queued mapped = ground arith

-- If the hub, while it runs, has taken a mapped client off the unregister channel and closed it
-- without a panic, then for every delivery that still waits for that client both its send and its
-- timer panic.
pub left-panics :
    (m p : ℕ) (ps : List ℕ) (h h' : Hub) (d : Delivery) (rest : List Delivery)
    → h.closed ≡ false
    → h.unregistering ≡ p ∷ ps
    → lookup (h.heap p).id h.clients ≢ none
    → step takes_unregister h ≡ ok h'
    → pick m h'.pending ≡ some (d, rest)
    → d.client ≡ p
    → (step (sends m) h' ≡ panic) × (step (expires m) h' ≡ panic)
left-panics m p ps h h' d rest running queued mapped e picked same =
    closed-panics m d rest h' picked (
      subst (λ q. (h'.heap q).closed ≡ true) (sym same)
        (close_send-closed p _ h' (sym (step_takes_unregister p ps h running queued mapped) ∙ e)))
