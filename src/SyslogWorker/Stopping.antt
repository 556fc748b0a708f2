-- ===== src/SyslogWorker/Stopping.antt =====
-- How the loop of the syslog worker ends with the context.
use coriolis_logger.Common.{
  String, ◌≡◌, refl, ◌∙◌, ◌⊎◌, inl, inr, Bool, true, false, Bool-cases, Option, none, some,
  Option-cases, ◌==◌, Error, wrapped, wrap, Result, ok, err, panic,
}
use coriolis_logger.Worker.{StopsOnce}
use coriolis_logger.Config.{Syslog, unix_dgram_listener}
use coriolis_logger.SyslogWorker.{
  Files, Server, Worker, Progress, finished, stop, close_done, after_kill, after_stop,
  clean_stale_socket, remove_socket, after_remove,
}

-- Without a panic.
abbrev Returns : Result (Unit {0}) → Type 0
Returns r = (r ≡ ok tt) ⊎ ((e : Error) × (r ≡ err e))

module _ (server : Server) where
  after_remove-Returns :
      (address : String) (files : Files) (e : Option Error)
      → Returns (after_remove server address files e).1
  unfolding after_remove
  after_remove-Returns address files none = inl refl
  after_remove-Returns address files (some e) = inr (_, refl)

  remove_socket-Returns :
      (address : String) (files : Files) (s : Option Bool)
      → Returns (remove_socket server address files s).1
  unfolding remove_socket
  remove_socket-Returns address files none = inl refl
  remove_socket-Returns address files (some true) = after_remove-Returns address files _
  remove_socket-Returns address files (some false) = inl refl

  clean_stale_socket-Returns :
      (cfg : Syslog) (files : Files) → Returns (clean_stale_socket server cfg files).1
  unfolding clean_stale_socket
  clean_stale_socket-Returns cfg files = elim (Bool-cases (cfg.listener == unix_dgram_listener)) [
    | inl unix ↦ rw (unix, clean_stale_socket) (remove_socket-Returns cfg.address files _)
    | inr other ↦ rw (other, clean_stale_socket) (inl refl)
  ]

  wrap-Returns : (text : String) (r : Result (Unit {0})) → Returns r → Returns (wrap text r)
  wrap-Returns text r (inl e) = inl (rw e refl)
  wrap-Returns text r (inr (x, e)) = inr (wrapped text x, rw e refl)

  module _ {W : Type 0} where
    abbrev pub Ends : Worker W → Worker W × Progress → Type 0
    Ends w (w', progress) =
        (progress ≡ finished)
        × (w'.closed ≡ true)
        × (w'.channel_closed ≡ true)
        × (w'.world ≡ w.world)

    ends :
        (w v : Worker W) (r : Result (Unit {0}))
        → Returns r
        → v.closed ≡ false
        → v.channel_closed ≡ true
        → v.world ≡ w.world
        → Ends w (after_stop server (close_done server (v, r)))
    unfolding close_done
    ends w v r (inl e) open_worker shut same =
        rw (e, open_worker, close_done) (refl, refl, shut, same)
    ends w v r (inr (x, e)) open_worker shut same =
        rw (e, open_worker, close_done) (refl, refl, shut, same)

    pub stop-Ends : (w : Worker W) → w.closed ≡ false → Ends w (after_stop server (stop server w))
    unfolding stop after_kill
    stop-Ends w open_worker = elim (Option-cases server.kill) [
      | inl killed ↦
          rw (killed, stop, after_kill)
            (ends w _ _
              (wrap-Returns "removing socket" _ (clean_stale_socket-Returns w.cfg w.files))
              open_worker refl refl)
      | inr (e, failed) ↦
          rw (failed, stop, after_kill) (ends w _ _ (inr (_, refl)) open_worker refl refl)
    ]

    after_kill-closed :
        (w : Worker W) (e : Option Error) → (after_kill server w e).0.closed ≡ w.closed
    unfolding after_kill
    after_kill-closed w none = refl
    after_kill-closed w (some e) = refl

    close_done-closed : (r : Worker W × Result (Unit {0})) → (close_done server r).0.closed ≡ true
    unfolding close_done
    close_done-closed (w, r) = elim (Bool-cases w.closed) [
      | inl closed ↦ rw (closed, close_done) refl
      | inr open_worker ↦ rw (open_worker, close_done) refl
    ]

    close_done-panics :
        (r : Worker W × Result (Unit {0})) → r.0.closed ≡ true → (close_done server r).1 ≡ panic
    unfolding close_done
    close_done-panics (w, r) closed = rw (closed, close_done) refl

    stop-closed : (w : Worker W) → (stop server w).0.closed ≡ true
    unfolding stop
    stop-closed w =
        close_done-closed (after_kill server (record w { channel_closed = true }) server.kill)

    stop-panics : (w : Worker W) → w.closed ≡ true → (stop server w).1 ≡ panic
    unfolding stop
    stop-panics w closed =
        let shut = record w { channel_closed = true } in
        close_done-panics (after_kill server shut server.kill)
          (after_kill-closed shut server.kill ∙ closed)

    pub stop-StopsOnce : StopsOnce (stop server {W = W}) (λ w. w.closed)
    stop-StopsOnce = record {
      ends = λ w h. stop-closed w;
      once = λ w h. stop-panics (stop server w).0 (stop-closed w);
    }
