-- ===== src/SyslogWorker/Socket.antt =====
-- The socket of a unix listener: what a stale one is, and that it does not keep a worker from starting.
use coriolis_logger.Common.{
  String, Bool, false, ◌&&◌, ◌≡◌, ap, ◌∙◌, arith, inl, inr, Option, none, some, ◌==◌, eq_iff,
  eq_refl, ◌≢◌, if◌then◌else◌, about, Result, ok, err, Option-cases, Bool-cases,
}
use coriolis_logger.Config.{Platform, Syslog, syslog_validate}
use coriolis_logger.Config.Validity.{syslog_validate_sound}
use coriolis_logger.SyslogWorker.{
  Files, Server, Worker, without_file, clean_stale_socket, listen, start,
}

abbrev pub is_socket : Option Bool → Bool
is_socket (some b) = b
is_socket none = false

-- If a removal works, cleaning reports no error and removes exactly the socket at the address of a
-- unix listener; every other path, and an address that is no socket, keeps what it had.
clean_stale_socket_lem :
    (server : Server) (cfg : Syslog) (files : Files) (path : String)
    → server.remove cfg.address ≡ none
    → ((clean_stale_socket server cfg files).1 ≡ ok tt)
      × ((clean_stale_socket server cfg files).0 path ≡ (
          if cfg.listener == "unixgram" && path == cfg.address && is_socket (files path)
          then none
          else files path))
unfolding clean_stale_socket without_file
clean_stale_socket_lem server cfg files path works =
    elim (Bool-cases (cfg.listener == "unixgram")) [
      | inr other ↦ ground (arith, other)
      | inl unix ↦ elim (Option-cases (files cfg.address)) [
        | inl free ↦ ground (arith, unix, free, eq_iff path cfg.address)
        | inr (b, there) ↦ elim (Bool-cases b) [
          | inl socket ↦ ground (arith, unix, there, socket, works, eq_iff path cfg.address)
          | inr plain_file ↦ ground (arith, unix, there, plain_file, eq_iff path cfg.address)
        ]
      ]
    ]

-- What os.Stat says of a file.
abbrev pub stat_of : String → Option Bool → Result Bool
stat_of path none = err (about "no such file" path)
stat_of path (some b) = ok b

cleaned_start :
    {W : Type 0} (server : Server) (w : Worker W)
    → w.cfg.listener ≡ "unixgram"
    → (clean_stale_socket server w.cfg w.files).1 ≡ ok tt
    → (server.listen_unixgram w.cfg.address (clean_stale_socket server w.cfg w.files).0).1 ≡ none
    → server.boot ≡ none
    → (start server w).1 ≡ ok tt
unfolding start listen
cleaned_start server w unixgram cleaned binds boots =
    ground (arith, unixgram, cleaned, binds, boots, eq_iff w.cfg.listener "unixgram")

stale_or_free :
    (server : Server) (cfg : Syslog) (files : Files)
    → server.remove cfg.address ≡ none
    → cfg.listener ≡ "unixgram"
    → files cfg.address ≢ some false
    → (clean_stale_socket server cfg files).0 cfg.address ≡ none
stale_or_free server cfg files works unixgram usable =
    (clean_stale_socket_lem server cfg files cfg.address works).1
    ∙ elim (Option-cases (files cfg.address)) [
      | inl absent ↦ ground (arith, absent)
      | inr (b, there) ↦ elim (Bool-cases b) [
        | inl socket ↦
            ground
              (arith, there, socket, unixgram, eq_refl cfg.address, eq_iff cfg.listener "unixgram")
        | inr plain_file ↦ absurd (usable (there ∙ ap some plain_file))
      ]
    ]

usable_of_valid :
    (p : Platform) (cfg : Syslog)
    → syslog_validate p cfg ≡ ok tt
    → cfg.listener ≡ "unixgram"
    → p.stat cfg.address ≢ ok false
usable_of_valid p cfg valid unixgram = elim ((syslog_validate_sound p cfg valid).1) [
  | inl (chosen, (path, found, parent, free)) ↦ free
  | inr (inl tcp) ↦ cc
  | inr (inr udp) ↦ cc
]

-- A worker with a valid configuration and a unix listener starts without an error, also over the
-- socket of an earlier process, if os.Stat sees the files, the socket can be removed, the server
-- binds to a path that is free, and it boots.
pub start-syslog_validate :
    {W : Type 0} (p : Platform) (server : Server) (w : Worker W)
    → syslog_validate p w.cfg ≡ ok tt
    → w.cfg.listener ≡ "unixgram"
    → p.stat w.cfg.address ≡ stat_of w.cfg.address (w.files w.cfg.address)
    → server.remove w.cfg.address ≡ none
    → ((files : Files)
        → files w.cfg.address ≡ none
        → (server.listen_unixgram w.cfg.address files).1 ≡ none)
    → server.boot ≡ none
    → (start server w).1 ≡ ok tt
start-syslog_validate p server w valid unixgram seen works binds boots =
    cleaned_start server w unixgram
      (clean_stale_socket_lem server w.cfg w.files w.cfg.address works).0
      (binds _ (
        stale_or_free server w.cfg w.files works unixgram
          (λ e. usable_of_valid p w.cfg valid unixgram (seen ∙ ap (stat_of w.cfg.address) e))))
      boots
