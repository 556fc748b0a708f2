-- ===== src/Websocket/Hub/Owed.antt =====
-- No payload is lost, repeated or given to another client between a broadcast and a client's writer,
-- as long as no timer fires. The deliveries of a client race, so their order is not kept.
pub mod Payloads
use mathlib.Core.List.{Perm, perm_append_comm, append_assoc, append-nil}
use mathlib.Core.List.Perm
use coriolis_logger.Common.{
  some_inj, Option-cases, is_some, String, eqb→eq, ℕ, zero, suc, ◌≡◌, refl, sym, ap, ◌∙◌, subst,
  inl, inr, arith, Bool, true, false, some, List, [], ◌∷◌, ◌++◌, All, eqb, length, ltb,
  if◌then◌else◌, ok, >>=-eq-ok, ok_becomes, if_ok, Bool-cases,
}
use coriolis_logger.Logging.{LogMessage, lookup}
use coriolis_logger.Websocket.{Client, Payload}
use coriolis_logger.Websocket.Hub.{
  Hub, Delivery, Turn, quits, takes_register, takes_unregister, takes_broadcast, sends, expires,
  receives, leaves, asks, writes, registers, write, register, or_same, send_size, update, delete,
  close_send, add_client, drop_client, fan_out, pick, send, take_register, take_unregister,
  take_broadcast, rest_of, channel_size, step, run,
}
use Payloads.{
  only, payloads_to, owed, first_of, taken, broadcast_to, wanted, over, IsTimer, payloads_to-append,
  Perm_of_eq, payloads_to-pick,
}

module _ (p : ℕ) (h : Hub) where
  -- What is to be shown of a turn that leads to `h'`.
  abbrev IsKept : Turn → Hub → Type 0
  IsKept t h' = Perm (taken p t h ++ owed p h') (owed p h ++ wanted p t h)

  -- A turn that moves nothing of the client's.
  abbrev IsStill : Hub → Type 0
  IsStill h' = owed p h' ≡ owed p h

  update-send :
      (q : ℕ) (c : Client) → c.send ≡ (h.heap q).send → (update h.heap q c p).send ≡ (h.heap p).send
  unfolding update
  update-send q c e = ground (arith, eqb→eq q p)

  close_send-IsStill :
      (q : ℕ) (clients : List (String × ℕ)) (unregistering : List ℕ) (h' : Hub)
      → close_send q (record h { clients = clients; unregistering = unregistering }) ≡ ok h'
      → IsStill h'
  unfolding close_send
  close_send-IsStill q clients unregistering h' k = elim (Bool-cases (h.heap q).closed) [
    | inl shut ↦ cc (rw (shut, close_send) at k)
    | inr open_channel ↦
        ok_becomes IsStill _ (ap (λ l. l ++ payloads_to p h.pending) (update-send q _ refl))
          (rw (open_channel, close_send) at k)
  ]

  take_unregister-IsStill : (ps : List ℕ) (h' : Hub) → take_unregister ps h ≡ ok h' → IsStill h'
  unfolding take_unregister drop_client
  take_unregister-IsStill [] h' e = ok_becomes IsStill h refl e
  take_unregister-IsStill (q ∷ ps) h' e =
      if_ok IsStill (is_some (lookup (h.heap q).id h.clients)) _ _
        (close_send-IsStill q (delete (h.heap q).id h.clients) ps h') (ok_becomes IsStill _ refl) e

  take_register-IsStill : (ps : List ℕ) → IsStill (take_register ps h)
  unfolding take_register add_client
  take_register-IsStill [] = refl
  take_register-IsStill (q ∷ ps) = refl

  write-IsStill : (msg : LogMessage) → IsStill (write msg h).0
  unfolding write
  write-IsStill msg = ground arith

  register-IsStill : (q : ℕ) → IsStill (or_same h (register q h))
  unfolding register
  register-IsStill q = ground arith

  still : (t : Turn) (h' : Hub) → taken p t h ≡ [] → wanted p t h ≡ [] → IsStill h' → IsKept t h'
  still t h' e f k = rw (e, f, k) (subst (λ l. Perm (owed p h) l) (sym (append-nil _)) Perm.rfl)

  take_broadcast-owed :
      (msgs : List LogMessage) → owed p (take_broadcast msgs h) ≡ owed p h ++ broadcast_to p h msgs
  unfolding take_broadcast
  take_broadcast-owed [] = sym (append-nil (owed p h))
  take_broadcast-owed (msg ∷ msgs) =
      ap (λ l. (h.heap p).send ++ l) (payloads_to-append p h.pending (fan_out h.heap msg h.clients))
      ∙ sym (append_assoc (h.heap p).send (payloads_to p h.pending) _)

  send-only :
      (d : Delivery) (c : Client)
      → c.send ≡ (h.heap d.client).send ++ d.payload ∷ []
      → (update h.heap d.client c p).send ≡ (h.heap p).send ++ only p d
  unfolding update
  send-only d c e = ground (arith, eqb→eq d.client p, append-nil (h.heap p).send)

  sent-Perm :
      (n : ℕ) (d : Delivery) (rest : List Delivery) (c : Client)
      → pick n h.pending ≡ some (d, rest)
      → c.send ≡ (h.heap d.client).send ++ d.payload ∷ []
      → Perm ((update h.heap d.client c p).send ++ payloads_to p rest) (owed p h)
  sent-Perm n d rest c found e =
      rw (send-only d c e, append_assoc (h.heap p).send (only p d) (payloads_to p rest))
        (Perm.append_left (h.heap p).send (payloads_to-pick p n h.pending found))

  send-IsOwed :
      (n : ℕ) (d : Delivery) (rest : List Delivery) (h' : Hub)
      → pick n h.pending ≡ some (d, rest)
      → send d rest h ≡ ok h'
      → Perm (owed p h') (owed p h)
  unfolding send
  send-IsOwed n d rest h' found e = elim (Bool-cases (h.heap d.client).closed) [
    | inl shut ↦ cc (rw (shut, send) at e)
    | inr open_channel ↦
        if_ok (λ g. Perm (owed p g) (owed p h)) (ltb (length (h.heap d.client).send) send_size) _ _
          (ok_becomes (λ g. Perm (owed p g) (owed p h)) _ (sent-Perm n d rest _ found refl))
          (ok_becomes (λ g. Perm (owed p g) (owed p h)) h Perm.rfl) (rw (open_channel, send) at e)
  ]

  first_rest : (xs : List Payload) → first_of xs ++ rest_of xs ≡ xs
  first_rest [] = refl
  first_rest (x ∷ xs) = refl

  receives-send :
      (q : ℕ) (c : Client)
      → c.send ≡ rest_of (h.heap q).send
      → taken p (receives q) h ++ (update h.heap q c p).send ≡ (h.heap p).send
  unfolding update taken
  receives-send q c e = ground (arith, eqb→eq q p, first_rest (h.heap p).send)

  broadcast-IsKept :
      (b : Bool) (h' : Hub)
      → (if b then ok h else ok (take_broadcast h.broadcast h)) ≡ ok h'
      → Perm (owed p h') (owed p h ++ (if b then [] else broadcast_to p h h.broadcast))
  broadcast-IsKept true h' e =
      ok_becomes (λ g. Perm (owed p g) (owed p h ++ [])) h (Perm_of_eq (sym (append-nil _))) e
  broadcast-IsKept false h' e =
      ok_becomes (λ g. Perm (owed p g) (owed p h ++ broadcast_to p h h.broadcast)) _
        (Perm_of_eq (take_broadcast-owed h.broadcast)) e

  -- What waits for a client after a turn, with what its writer was given, is what waited for it
  -- before, with what it is to be sent of a broadcast.
  step-IsKept : (t : Turn) (h' : Hub) → ¬ IsTimer t → step t h ≡ ok h' → IsKept t h'
  unfolding step taken wanted
  step-IsKept quits h' no_timer e = still quits h' refl refl (ok_becomes IsStill _ refl e)
  step-IsKept takes_register h' no_timer e = still takes_register h' refl refl (
      if_ok IsStill h.closed _ _ (ok_becomes IsStill h refl)
        (ok_becomes IsStill _ (take_register-IsStill h.registering)) e)
  step-IsKept takes_unregister h' no_timer e = still takes_unregister h' refl refl (
      if_ok IsStill h.closed _ _ (ok_becomes IsStill h refl)
        (take_unregister-IsStill h.unregistering h') e)
  step-IsKept takes_broadcast h' no_timer e = broadcast-IsKept h.closed h' e
  step-IsKept (sends n) h' no_timer e = elim (Option-cases (pick n h.pending)) [
    | inl missing ↦
        still (sends n) h' refl refl (ok_becomes IsStill h refl (rw (missing, step) at e))
    | inr ((d, rest), found) ↦
        subst (λ l. Perm (owed p h') l) (sym (append-nil (owed p h)))
          (send-IsOwed n d rest h' found (rw (found, step) at e))
  ]
  step-IsKept (expires n) h' no_timer e = absurd (no_timer tt)
  step-IsKept (receives q) h' no_timer e =
      ok_becomes (IsKept (receives q)) _
        (Perm_of_eq (
          sym (append_assoc (taken p (receives q) h) _ (payloads_to p h.pending))
          ∙ ap (λ l. l ++ payloads_to p h.pending) (receives-send q _ refl)
          ∙ sym (append-nil (owed p h))))
        e
  step-IsKept (leaves q) h' no_timer e = still (leaves q) h' refl refl (
      if_ok IsStill (ltb (length h.unregistering) channel_size) _ _
        (ok_becomes IsStill (record h { unregistering = h.unregistering ++ q ∷ [] }) refl)
        (ok_becomes IsStill h refl) e)
  step-IsKept (asks q options) h' no_timer e =
      let c = record (h.heap q) { options = options } in
      still (asks q options) h' refl refl (
        ok_becomes IsStill (record h { heap = update h.heap q c })
          (ap (λ l. l ++ payloads_to p h.pending) (update-send q c refl)) e)
  step-IsKept (writes msg) h' no_timer e =
      still (writes msg) h' refl refl (ok_becomes IsStill _ (write-IsStill msg) e)
  step-IsKept (registers q) h' no_timer e =
      still (registers q) h' refl refl (ok_becomes IsStill _ (register-IsStill q) e)

chain {ℓ} :
    {A : Type ℓ} (t ts after mid before w ws : List A)
    → Perm (t ++ mid) (before ++ w)
    → Perm (ts ++ after) (mid ++ ws)
    → Perm ((t ++ ts) ++ after) (before ++ (w ++ ws))
chain t ts after mid before w ws first rest =
    rw (append_assoc t ts after, sym (append_assoc before w ws))
      (Perm.trans (Perm.append_left t rest)
        (rw (sym (append_assoc t mid ws)) (Perm.append_right ws first)))

-- In any sequence of turns without a panic in which no timer of a delivery goes off: the payloads
-- that the writer of a client takes, followed by those that its channel and the deliveries waiting
-- for it hold in the end, are up to order those that these held at first, followed by those that
-- the hub broadcasts to the client meanwhile. None is lost and none is sent twice.
pub run-owed :
    (p : ℕ) (turns : List Turn) (h h' : Hub)
    → All (λ t. ¬ IsTimer t) turns
    → run turns h ≡ ok h'
    → Perm (over (taken p) turns h ++ owed p h') (owed p h ++ over (wanted p) turns h)
unfolding run over
run-owed p [] h h' no_timers e =
    ok_becomes (λ g. Perm (owed p g) (owed p h ++ [])) h (Perm_of_eq (sym (append-nil _))) e
run-owed p (t ∷ turns) h h' (no_timer, no_timers) e =
    let (mid, first, rest) = >>=-eq-ok (step t h) (run turns) e in
    rw (first, over)
      (chain (taken p t h) (over (taken p) turns mid) (owed p h') (owed p mid) (owed p h)
        (wanted p t h) (over (wanted p) turns mid) (step-IsKept p h t mid no_timer first)
        (run-owed p turns mid h' no_timers rest))
