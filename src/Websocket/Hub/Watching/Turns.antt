-- ===== src/Websocket/Hub/Watching/Turns.antt =====
-- The turns of the hub around a client that stays on the map.
use mathlib.Core.List.{append-nil}
use coriolis_logger.Common.{
  ℕ, ◌≡◌, ◌≢◌, refl, sym, ap, ◌∙◌, inl, inr, String, Bool, true, false, Bool-cases, List, [], ◌∷◌,
  ◌++◌, All-append, length, ltb, if◌then◌else◌, ok, ok_becomes, if_ok,
}
use coriolis_logger.Logging.{LogMessage}
use coriolis_logger.Websocket.{ClientFilterOptions, should_send, payload_of}
use coriolis_logger.Websocket.Hub.{
  Hub, Turn, quits, takes_register, takes_unregister, takes_broadcast, sends, expires, receives,
  leaves, asks, writes, registers, write, channel_size, update, take_broadcast, rest_of, step,
}
use coriolis_logger.Websocket.Hub.Owed.Payloads.{wanted, broadcast_to}
use coriolis_logger.Websocket.Hub.Watching.Apart.{
  IsApart, update-options, other-options, reheap-IsWatching, same-IsApart, picked-IsApart,
  take_register-IsApart, take_unregister-IsApart, register-IsApart,
}
use coriolis_logger.Websocket.Hub.Watching.{
  IsWatching, IsSteady, watched, watched-append, noted, offered, fan_out-once,
}

-- What a turn that lets the client be does to what is watched.
abbrev pub IsCarried : (ℕ → String) → ℕ → ClientFilterOptions → Turn → Hub → Hub → Type 0
IsCarried ids p options t h h' =
    IsWatching ids p options h'
    × (wanted p t h ++ watched options h'.broadcast
        ≡ watched options h.broadcast ++ offered options t h)

module _ (ids : ℕ → String) (p : ℕ) (options : ClientFilterOptions) (h : Hub)
    (w : IsWatching ids p options h) where
  apart :
      (t : Turn) (h' : Hub)
      → wanted p t h ≡ []
      → offered options t h ≡ []
      → IsApart ids p options h h'
      → IsCarried ids p options t h h'
  apart t h' nothing none_new (w', same) = (
    w',
    ap (λ l. l ++ watched options h'.broadcast) nothing
        ∙ ap (watched options) same
        ∙ sym (append-nil (watched options h.broadcast))
        ∙ ap (λ l. watched options h.broadcast ++ l) (sym none_new),
  )

  brought :
      (messages : List LogMessage)
      → h.broadcast ≡ messages
      → broadcast_to p h messages ++ watched options (take_broadcast messages h).broadcast
        ≡ watched options messages
  unfolding take_broadcast
  brought [] e = ap (watched options) e
  brought (m ∷ messages) e =
      ap (λ l. l ++ watched options messages)
        (fan_out-once p h.heap m (ids p) h.clients w.once
          ∙ ap (λ o. if should_send o m then payload_of m ∷ [] else []) w.set)

  take_broadcast-IsWatching :
      (messages : List LogMessage) → IsWatching ids p options (take_broadcast messages h)
  unfolding take_broadcast
  take_broadcast-IsWatching [] = w
  take_broadcast-IsWatching (m ∷ messages) = record {
    runs = w.runs;
    once = w.once;
    set = w.set;
    named = w.named;
    come = w.come;
    go = w.go;
  }

  take_broadcast-IsCarried :
      (b : Bool) (h' : Hub)
      → b ≡ false
      → (if b then ok h else ok (take_broadcast h.broadcast h)) ≡ ok h'
      → IsWatching ids p options h'
        × ((if b then [] else broadcast_to p h h.broadcast) ++ watched options h'.broadcast
            ≡ watched options h.broadcast ++ [])
  take_broadcast-IsCarried true h' runs e = cc
  take_broadcast-IsCarried false h' runs e =
      ok_becomes
        (λ g.
          IsWatching ids p options g
          × (broadcast_to p h h.broadcast ++ watched options g.broadcast
              ≡ watched options h.broadcast ++ []))
        _ (take_broadcast-IsWatching h.broadcast, brought h.broadcast refl ∙ sym (append-nil _)) e

  write-IsCarried :
      (m : LogMessage)
      → IsWatching ids p options (write m h).0
        × (watched options (write m h).0.broadcast
            ≡ watched options h.broadcast ++ offered options (writes m) h)
  unfolding write noted
  write-IsCarried m = elim (Bool-cases (ltb (length h.broadcast) channel_size)) [
    | inl room ↦
        rw (room, write, noted)
          (
            record {
              runs = w.runs;
              once = w.once;
              set = w.set;
              named = w.named;
              come = w.come;
              go = w.go;
            },
            watched-append options h.broadcast (m ∷ []),
          )
    | inr full ↦ rw (full, write, noted) (w, sym (append-nil (watched options h.broadcast)))
  ]

  pub step-IsCarried :
      (t : Turn) (h' : Hub) → IsSteady ids p t → step t h ≡ ok h' → IsCarried ids p options t h h'
  unfolding step wanted noted
  step-IsCarried takes_broadcast h' steady e = take_broadcast-IsCarried h.closed h' w.runs e
  step-IsCarried (sends n) h' steady e =
      apart (sends n) h' refl refl (picked-IsApart ids p options h w n h' e)
  step-IsCarried (receives q) h' steady e =
      let c = record (h.heap q) { send = rest_of (h.heap q).send } in
      apart (receives q) h' refl refl (
        ok_becomes (IsApart ids p options h) (record h { heap = update h.heap q c })
          (
            reheap-IsWatching ids p options h w q c h.clients h.pending h.unregistering refl
                (update-options ids p options h w q c refl) w.once w.go,
            refl,
          )
          e)
  step-IsCarried (leaves q) h' steady e = apart (leaves q) h' refl refl (
      if_ok (IsApart ids p options h) (ltb (length h.unregistering) channel_size) _ _
        (ok_becomes (IsApart ids p options h)
          (record h { unregistering = h.unregistering ++ q ∷ [] })
          (
            record {
              runs = w.runs;
              once = w.once;
              set = w.set;
              named = w.named;
              come = w.come;
              go = All-append (λ r. ids r ≢ ids p) h.unregistering (q ∷ []) w.go (steady, tt);
            },
            refl,
          ))
        (ok_becomes (IsApart ids p options h) h (same-IsApart ids p options h w)) e)
  step-IsCarried (asks q o) h' steady e =
      let c = record (h.heap q) { options = o } in
      apart (asks q o) h' refl refl (
        ok_becomes (IsApart ids p options h) (record h { heap = update h.heap q c })
          (
            reheap-IsWatching ids p options h w q c h.clients h.pending h.unregistering refl
                (other-options ids p options h w q c steady) w.once w.go,
            refl,
          )
          e)
  step-IsCarried (writes m) h' steady e =
      ok_becomes (IsCarried ids p options (writes m) h) _ (write-IsCarried m) e
  step-IsCarried (registers q) h' steady e =
      apart (registers q) h' refl refl
        (ok_becomes (IsApart ids p options h) _ (register-IsApart ids p options h w q steady) e)
  step-IsCarried quits h' steady e = absurd steady
  step-IsCarried takes_register h' steady e = apart takes_register h' refl refl (
      if_ok (IsApart ids p options h) h.closed _ _
        (ok_becomes (IsApart ids p options h) h (same-IsApart ids p options h w))
        (ok_becomes (IsApart ids p options h) _
          (take_register-IsApart ids p options h w h.registering w.come))
        e)
  step-IsCarried takes_unregister h' steady e = apart takes_unregister h' refl refl (
      if_ok (IsApart ids p options h) h.closed _ _
        (ok_becomes (IsApart ids p options h) h (same-IsApart ids p options h w))
        (take_unregister-IsApart ids p options h w h.unregistering h' w.go) e)
  step-IsCarried (expires n) h' steady e = absurd steady
