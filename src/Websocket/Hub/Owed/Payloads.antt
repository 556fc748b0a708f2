-- ===== src/Websocket/Hub/Owed/Payloads.antt =====
-- The payloads on the way to a client: what waits for it, and what a turn takes of them or adds.
use mathlib.Core.List.{Perm, perm_append_comm, append_assoc}
use mathlib.Core.List.Perm
use coriolis_logger.Common.{
  some_inj, Option-cases, ℕ, zero, suc, ◌≡◌, refl, sym, ap, ◌∙◌, subst, inl, inr, some, List, [],
  ◌∷◌, ◌++◌, eqb, if◌then◌else◌, ok,
}
use coriolis_logger.Logging.{LogMessage}
use coriolis_logger.Websocket.{Payload}
use coriolis_logger.Websocket.Hub.{
  Hub, Delivery, Turn, takes_broadcast, expires, receives, fan_out, pick, step,
}

-- The payloads on their way to a client: those of the deliveries that wait for it.
abbrev pub only : ℕ → Delivery → List Payload
only p d = if eqb d.client p then d.payload ∷ [] else []

unfoldable pub payloads_to : ℕ → List Delivery → List Payload
payloads_to p [] = []
payloads_to p (d ∷ ds) = only p d ++ payloads_to p ds

abbrev pub owed : ℕ → Hub → List Payload
owed p h = (h.heap p).send ++ payloads_to p h.pending

abbrev pub first_of : List Payload → List Payload
first_of [] = []
first_of (x ∷ xs) = x ∷ []

-- What a turn gives to the writer of a client.
unfoldable pub taken : ℕ → Turn → Hub → List Payload
taken p (receives q) h = if eqb q p then first_of (h.heap p).send else []
taken p _ h = []

abbrev pub broadcast_to : ℕ → Hub → List LogMessage → List Payload
broadcast_to p h [] = []
broadcast_to p h (msg ∷ msgs) = payloads_to p (fan_out h.heap msg h.clients)

-- What a turn starts to deliver to a client.
unfoldable pub wanted : ℕ → Turn → Hub → List Payload
wanted p takes_broadcast h = if h.closed then [] else broadcast_to p h h.broadcast
wanted p _ h = []

-- The same for a sequence of turns, in order.
unfoldable pub over {ℓ} : {A : Type ℓ} → (Turn → Hub → List A) → List Turn → Hub → List A
over f [] h = []
over f (t ∷ turns) h = elim (step t h) [ ok h' ↦ f t h ++ over f turns h' | _ ↦ f t h ]

abbrev pub IsTimer : Turn → Type 0
IsTimer (expires n) = Unit
IsTimer _ = ⊥

pub payloads_to-append :
    (p : ℕ) (xs ys : List Delivery)
    → payloads_to p (xs ++ ys) ≡ payloads_to p xs ++ payloads_to p ys
unfolding payloads_to
payloads_to-append p [] ys = refl
payloads_to-append p (d ∷ xs) ys =
    ap (λ l. only p d ++ l) (payloads_to-append p xs ys) ∙ sym (append_assoc (only p d) _ _)

pub Perm_of_eq {ℓ} : {A : Type ℓ} {xs ys : List A} → xs ≡ ys → Perm xs ys
Perm_of_eq {xs} e = subst (Perm xs) e Perm.rfl

swap_front {ℓ} : {A : Type ℓ} (xs ys zs : List A) → Perm (xs ++ (ys ++ zs)) (ys ++ (xs ++ zs))
swap_front xs ys zs =
    rw (sym (append_assoc xs ys zs), sym (append_assoc ys xs zs))
      (Perm.append_right zs (perm_append_comm xs ys))

pub payloads_to-pick :
    (p n : ℕ) (ds : List Delivery) {d : Delivery} {rest : List Delivery}
    → pick n ds ≡ some (d, rest)
    → Perm (only p d ++ payloads_to p rest) (payloads_to p ds)
unfolding pick payloads_to
payloads_to-pick p n [] e = cc
payloads_to-pick p zero (x ∷ ds) e =
    subst (λ t. Perm (only p t.0 ++ payloads_to p t.1) (only p x ++ payloads_to p ds)) (some_inj e)
      Perm.rfl
payloads_to-pick p (suc n) (x ∷ ds) e = elim (Option-cases (pick n ds)) [
  | inl missing ↦ cc (rw (missing, pick) at e)
  | inr ((y, others), found) ↦
      subst (λ t. Perm (only p t.0 ++ payloads_to p t.1) (only p x ++ payloads_to p ds))
        (some_inj (rw (found, pick) at e))
        (Perm.trans (swap_front (only p y) (only p x) (payloads_to p others))
          (Perm.append_left (only p x) (payloads_to-pick p n ds found)))
]
