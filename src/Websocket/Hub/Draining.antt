-- ===== src/Websocket/Hub/Draining.antt =====
-- Deliveries that wait can always be made: a turn of the client's writer and one of the delivery.
use mathlib.Core.List.{Perm, append-nil}
use coriolis_logger.Common.{
  ℕ, ◌≤◌, ◌<◌, ◌≡◌, refl, sym, ap, ◌∙◌, subst, arith, true, false, List, [], ◌∷◌, ◌++◌, All, length,
  ltb, ok, ok_injective, >>=-eq-ok, ◌>>=◌,
}
use coriolis_logger.Websocket.{Client, Payload}
use coriolis_logger.Websocket.Hub.Owed.{run-owed}
use coriolis_logger.Websocket.Hub.Owed.Payloads.{owed, taken, wanted, over, payloads_to, IsTimer}
use coriolis_logger.Websocket.Hub.{
  quits, takes_register, takes_unregister, takes_broadcast, expires, leaves, asks, writes,
  registers, Hub, Delivery, Turn, sends, receives, send_size, update, pick, send, rest_of, step,
  run,
}
use coriolis_logger.Websocket.Hub.Invariant.{IsWellFormed}
use coriolis_logger.Websocket.Hub.Invariant.Turns.{run-IsWellFormed}
use coriolis_logger.Websocket.Hub.Open.{IsOpen, run-IsOpen}

-- For each delivery in turn, its client's writer takes a payload, and the delivery sends its own.
abbrev pub drain : List Delivery → List Turn
drain [] = []
drain (d ∷ ds) = receives d.client ∷ sends 0 ∷ drain ds

rest_of-length : (xs : List Payload) → length xs ≤ send_size → length (rest_of xs) < send_size
rest_of-length [] h = omega arith
rest_of-length (x ∷ xs) h = omega arith

update-at : (heap : ℕ → Client) (p : ℕ) (c : Client) → update heap p c p ≡ c
unfolding update
update-at heap p c = ground arith

send_made :
    (d : Delivery) (ds : List Delivery) (h : Hub)
    → (h.heap d.client).closed ≡ false
    → length (h.heap d.client).send < send_size
    → (h' : Hub) × (send d ds h ≡ ok h') × (h'.pending ≡ ds)
unfolding send
send_made d ds h unclosed room =
    let c = h.heap d.client in
    let fits : ltb (length c.send) send_size ≡ true = ground arith in
    (
      record h {
        heap = update h.heap d.client (record c { send = c.send ++ d.payload ∷ [] });
        pending = ds;
      },
      rw (unclosed, fits, send) refl,
      refl,
    )

-- The writer of a client takes a payload.
abbrev received : ℕ → Hub → Hub
received p h = record h {
  heap = update h.heap p (record (h.heap p) { send = rest_of (h.heap p).send });
}

run-append :
    (t u : Turn) (turns : List Turn) (h mid : Hub)
    → run (t ∷ u ∷ []) h ≡ ok mid
    → run (t ∷ u ∷ turns) h ≡ run turns mid
unfolding run
run-append t u turns h mid e =
    let (one, first, second) = >>=-eq-ok (step t h) (run (u ∷ [])) e in
    let (two, next, last) = >>=-eq-ok (step u one) (run []) second in
    rw (first, next) (ap (run turns) (ok_injective last))

first_drained :
    (d : Delivery) (ds : List Delivery) (h : Hub)
    → h.pending ≡ d ∷ ds
    → IsOpen h
    → IsWellFormed h
    → (h' : Hub) × (run (receives d.client ∷ sends 0 ∷ []) h ≡ ok h') × (h'.pending ≡ ds)
unfolding run step pick
first_drained d ds h waits o w =
    let p = d.client in
    let c = record (h.heap p) { send = rest_of (h.heap p).send } in
    let same = update-at h.heap p c in
    let (unclosed, others) = subst (All (λ e. (h.heap e.client).closed ≡ false)) waits o.awaited in
    let (h', made, left) =
      send_made d ds (record (received p h) { pending = d ∷ ds })
        (ap (λ x. x.closed) same ∙ unclosed)
        (subst (λ x. length x.send < send_size) (sym same)
          (rest_of-length (h.heap p).send (w.bounded p))) in
    (
      h',
      ap (λ ps. run (receives p ∷ sends 0 ∷ []) (record h { pending = ps })) waits
          ∙ ap (λ r. r >>= run []) made,
      left,
    )

drain-pending :
    (ds : List Delivery) (h : Hub)
    → h.pending ≡ ds
    → IsOpen h
    → IsWellFormed h
    → (h' : Hub) × (run (drain ds) h ≡ ok h') × (h'.pending ≡ [])
unfolding run
drain-pending [] h waits o w = (h, refl, waits)
drain-pending (d ∷ ds) h waits o w =
    let turns = receives d.client ∷ sends 0 ∷ [] in
    let (mid, first, left) = first_drained d ds h waits o w in
    let (mid', first', open_mid) = run-IsOpen turns h o (tt, (tt, tt)) in
    let open_left = subst IsOpen (ok_injective (sym first' ∙ first)) open_mid in
    let (h', rest, drained) =
      drain-pending ds mid left open_left (run-IsWellFormed turns h mid w first) in
    (h', run-append (receives d.client) (sends 0) (drain ds) h mid first ∙ rest, drained)

-- No turn of a drain is a timer or a broadcast.
drain-no-IsTimer : (ds : List Delivery) → All (λ t. ¬ IsTimer t) (drain ds)
drain-no-IsTimer [] = tt
drain-no-IsTimer (d ∷ ds) = (λ x. x, (λ x. x, drain-no-IsTimer ds))

abbrev IsNoBroadcast : Turn → Type 0
IsNoBroadcast takes_broadcast = ⊥
IsNoBroadcast _ = Unit

wanted_nothing : (p : ℕ) (t : Turn) (h : Hub) → IsNoBroadcast t → wanted p t h ≡ []
unfolding wanted
wanted_nothing p quits h n = refl
wanted_nothing p takes_register h n = refl
wanted_nothing p takes_unregister h n = refl
wanted_nothing p takes_broadcast h n = absurd n
wanted_nothing p (sends k) h n = refl
wanted_nothing p (expires k) h n = refl
wanted_nothing p (receives q) h n = refl
wanted_nothing p (leaves q) h n = refl
wanted_nothing p (asks q o) h n = refl
wanted_nothing p (writes m) h n = refl
wanted_nothing p (registers q) h n = refl

over-wanted :
    (p : ℕ) (turns : List Turn) (h h' : Hub)
    → All IsNoBroadcast turns
    → run turns h ≡ ok h'
    → over (wanted p) turns h ≡ []
unfolding over run
over-wanted p [] h h' n e = refl
over-wanted p (t ∷ turns) h h' (n, ns) e =
    let (mid, first, rest) = >>=-eq-ok (step t h) (run turns) e in
    rw (first, over)
      (ap (λ l. l ++ over (wanted p) turns mid) (wanted_nothing p t h n)
        ∙ over-wanted p turns mid h' ns rest)

drain-IsNoBroadcast : (ds : List Delivery) → All IsNoBroadcast (drain ds)
drain-IsNoBroadcast [] = tt
drain-IsNoBroadcast (d ∷ ds) = (tt, (tt, drain-IsNoBroadcast ds))

-- From a well-formed hub in which every client in the map, in a waiting delivery and in the
-- register channel has an open channel, the turns in which for each waiting delivery in turn the
-- writer of its client takes a payload and the delivery sends its own run without a panic: no
-- delivery waits any more, and what the writer of a client took, followed by what its channel
-- holds, is up to order what was owed to it.
pub run-drain :
    (p : ℕ) (h : Hub)
    → IsOpen h
    → IsWellFormed h
    → (h' : Hub) × (run (drain h.pending) h ≡ ok h')
      × (h'.pending ≡ [])
      × Perm (over (taken p) (drain h.pending) h ++ (h'.heap p).send) (owed p h)
unfolding payloads_to
run-drain p h o w =
    let (h', ran, drained) = drain-pending h.pending h refl o w in
    let kept = run-owed p (drain h.pending) h h' (drain-no-IsTimer h.pending) ran in
    let nothing = over-wanted p (drain h.pending) h h' (drain-IsNoBroadcast h.pending) ran in
    let all =
      ap (λ ds. (h'.heap p).send ++ payloads_to p ds) drained ∙ append-nil (h'.heap p).send in
    (
      h',
      ran,
      drained,
      subst (λ xs. Perm (over (taken p) (drain h.pending) h ++ xs) (owed p h)) all
          (subst (λ xs. Perm (over (taken p) (drain h.pending) h ++ owed p h') xs)
            (ap (λ l. owed p h ++ l) nothing ∙ append-nil (owed p h)) kept),
    )
