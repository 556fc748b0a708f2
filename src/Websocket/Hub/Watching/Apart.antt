-- ===== src/Websocket/Hub/Watching/Apart.antt =====
-- What leaves the broadcast channel as it is, around a client that stays on the map.
use coriolis_logger.Common.{
  ℕ, ◌≡◌, ◌≢◌, refl, sym, ap, ◌∙◌, inl, inr, arith, String, Bool-cases, Option-cases, none, some,
  List, [], ◌∷◌, All, All-append, length, ltb, eqb→eq, ok, ok_becomes, if_ok, is_some,
}
use coriolis_logger.Logging.{lookup}
use coriolis_logger.Websocket.{ClientFilterOptions, Client}
use coriolis_logger.Websocket.Hub.{
  Hub, Delivery, register, channel_size, update, delete, close_send, add_client, drop_client,
  take_register, take_unregister, pick, send, or_same, send_size,
}
use coriolis_logger.Websocket.Hub.Watching.{IsOnce, later, IsOnce-delete, IsWatching}

-- The client stays, and the broadcast channel is as it was.
abbrev pub IsApart : (ℕ → String) → ℕ → ClientFilterOptions → Hub → Hub → Type 0
IsApart ids p options h h' = IsWatching ids p options h' × (h'.broadcast ≡ h.broadcast)

module _ (ids : ℕ → String) (p : ℕ) (options : ClientFilterOptions) (h : Hub)
    (w : IsWatching ids p options h) where
  pub update-options :
      (q : ℕ) (c : Client)
      → c.options ≡ (h.heap q).options
      → (update h.heap q c p).options ≡ options
  unfolding update
  update-options q c e = ground (arith, eqb→eq q p, w.set)

  pub other-options : (q : ℕ) (c : Client) → q ≢ p → (update h.heap q c p).options ≡ options
  unfolding update
  other-options q c other = ground (arith, eqb→eq q p, w.set)

  update-id :
      (q : ℕ) (c : Client) → c.id ≡ (h.heap q).id → (r : ℕ) → (update h.heap q c r).id ≡ ids r
  unfolding update
  update-id q c e r = ground (arith, eqb→eq q r, w.named r)

  pub reheap-IsWatching :
      (q : ℕ) (c : Client) (clients : List (String × ℕ)) (pending : List Delivery)
      (unregistering : List ℕ)
      → c.id ≡ (h.heap q).id
      → (update h.heap q c p).options ≡ options
      → IsOnce (ids p) p clients
      → All (λ r. ids r ≢ ids p) unregistering
      → IsWatching ids p options (record h {
        heap = update h.heap q c;
        clients = clients;
        pending = pending;
        unregistering = unregistering;
      })
  reheap-IsWatching q c clients pending unregistering named set once go = record {
    runs = w.runs;
    once = once;
    set = set;
    named = update-id q c named;
    come = w.come;
    go = go;
  }

  pub same-IsApart : IsApart ids p options h h
  same-IsApart = (w, refl)

  send-IsApart :
      (d : Delivery) (rest : List Delivery) (h' : Hub)
      → send d rest h ≡ ok h'
      → IsApart ids p options h h'
  unfolding send
  send-IsApart d rest h' e = elim (Bool-cases (h.heap d.client).closed) [
    | inl shut ↦ cc (rw (shut, send) at e)
    | inr open_channel ↦
        if_ok (IsApart ids p options h) (ltb (length (h.heap d.client).send) send_size) _ _
          (ok_becomes (IsApart ids p options h) _ (
            reheap-IsWatching d.client _ h.clients rest h.unregistering refl
                (update-options d.client _ refl) w.once w.go,
            refl,
          ))
          (ok_becomes (IsApart ids p options h) h same-IsApart) (rw (open_channel, send) at e)
  ]

  pub picked-IsApart :
      (n : ℕ) (h' : Hub)
      → (elim (pick n h.pending) [ none ↦ ok h | some (d, rest) ↦ send d rest h ]) ≡ ok h'
      → IsApart ids p options h h'
  picked-IsApart n h' e = elim (Option-cases (pick n h.pending)) [
    | inl missing ↦ ok_becomes (IsApart ids p options h) h same-IsApart (rw missing at e)
    | inr ((d, rest), found) ↦ send-IsApart d rest h' (rw found at e)
  ]

  pub register-IsApart :
      (q : ℕ) → ids q ≢ ids p → IsApart ids p options h (or_same h (register q h))
  unfolding register
  register-IsApart q other = elim (Bool-cases (ltb (length h.registering) channel_size)) [
    | inl room ↦
        rw (room, register)
          (
            record {
              runs = w.runs;
              once = w.once;
              set = w.set;
              named = w.named;
              come = All-append (λ r. ids r ≢ ids p) h.registering (q ∷ []) w.come (other, tt);
              go = w.go;
            },
            refl,
          )
    | inr full ↦ rw (full, register) same-IsApart
  ]

  pub take_register-IsApart :
      (qs : List ℕ) → All (λ q. ids q ≢ ids p) qs → IsApart ids p options h (take_register qs h)
  unfolding take_register add_client
  take_register-IsApart [] others = same-IsApart
  take_register-IsApart (q ∷ qs) (other, others) = (
    record {
      runs = w.runs;
      once =
          later (λ e. other (ap ids e))
            (IsOnce-delete (ids p) p (h.heap q).id h.clients (λ e. other (sym (w.named q) ∙ e))
              w.once);
      set = w.set;
      named = w.named;
      come = others;
      go = w.go;
    },
    refl,
  )

  close_send-IsApart :
      (q : ℕ) (clients : List (String × ℕ)) (unregistering : List ℕ) (h' : Hub)
      → IsOnce (ids p) p clients
      → All (λ r. ids r ≢ ids p) unregistering
      → close_send q (record h { clients = clients; unregistering = unregistering }) ≡ ok h'
      → IsApart ids p options h h'
  unfolding close_send
  close_send-IsApart q clients unregistering h' once go k = elim (Bool-cases (h.heap q).closed) [
    | inl shut ↦ cc (rw (shut, close_send) at k)
    | inr open_channel ↦
        ok_becomes (IsApart ids p options h) _
          (
            reheap-IsWatching q _ clients h.pending unregistering refl (update-options q _ refl)
                once go,
            refl,
          )
          (rw (open_channel, close_send) at k)
  ]

  pub take_unregister-IsApart :
      (qs : List ℕ) (h' : Hub)
      → All (λ q. ids q ≢ ids p) qs
      → take_unregister qs h ≡ ok h'
      → IsApart ids p options h h'
  unfolding take_unregister drop_client
  take_unregister-IsApart [] h' others e = ok_becomes (IsApart ids p options h) h same-IsApart e
  take_unregister-IsApart (q ∷ qs) h' (other, others) e =
      if_ok (IsApart ids p options h) (is_some (lookup (h.heap q).id h.clients)) _ _
        (close_send-IsApart q (delete (h.heap q).id h.clients) qs h'
          (IsOnce-delete (ids p) p (h.heap q).id h.clients (λ e. other (sym (w.named q) ∙ e))
            w.once)
          others)
        (ok_becomes (IsApart ids p options h) (record h { unregistering = qs })
          (
            record {
              runs = w.runs;
              once = w.once;
              set = w.set;
              named = w.named;
              come = w.come;
              go = others;
            },
            refl,
          ))
        e
