-- ===== src/SyslogWorker.antt =====
-- syslog/syslog.go: the worker between the syslog server and the aggregate writer. The server belongs
-- to the go-syslog library, and is seen as what its calls answer; a file system is seen as the files
-- at a path, and whether each is a socket.
pub mod Messages
pub mod Socket
pub mod Stopping
pub mod Tests
use coriolis_logger.Common.{
  String, Bool, true, false, Option, none, some, List, [], ◌∷◌, ◌==◌, if◌then◌else◌, Error, wrapped,
  Result, ok, err, panic, ◌>>=◌, ◌>>◌, wrap, ◌⧺◌,
}
use coriolis_logger.Logging.{LogParts, LogMessage, syslog_to_log_message}
use coriolis_logger.Logging.Aggregate.{Writer}
use coriolis_logger.Config.{
  Platform, LogFormat, log_format, syslog_validate, Syslog, unix_dgram_listener, tcp_listener,
  udp_listener,
}

abbrev pub Files : Type 0
Files = String → Option Bool

unfoldable pub without_file : String → Files → Files
without_file address files path = if path == address then none else files path

-- The calls of the server, and os.Remove.
pub record Server : Type 0 where
  pub listen_unixgram : String → Files → Files × Option Error
  pub listen_tcp : String → Option Error
  pub listen_udp : String → Option Error
  pub boot : Option Error
  pub kill : Option Error
  pub remove : String → Option Error

-- `world` is what the writer writes to. The two flags say that a channel is closed.
pub record Worker (W : Type 0) : Type 0 where
  pub cfg : Syslog
  pub world : W
  pub files : Files
  pub channel_closed : Bool
  pub closed : Bool

-- What the loop's `select` receives.
pub data Arrival : Type 0 where
  parts : LogParts → Arrival
  channel_end ctx_done : Arrival

pub data Progress : Type 0 where
  working finished crashed : Progress

-- `NewSyslogServer`: the worker, and the format that its server is set to.
unfoldable pub new_syslog_server :
    {W : Type 0} → Platform → Syslog → W → Files → Result (Worker W × LogFormat)
new_syslog_server p cfg world files = do
  wrap "validating syslog config" (syslog_validate p cfg)
  format ← wrap "getting log format" (log_format cfg)
  ok (
    record { cfg = cfg; world = world; files = files; channel_closed = false; closed = false },
    format,
  )

module _ (server : Server) where
  open server use {listen_unixgram, listen_tcp, listen_udp, boot, kill, remove}

  after_remove : String → Files → Option Error → Files × Result (Unit {0})
  after_remove address files none = (without_file address files, ok tt)
  after_remove address files (some e) = (files, err (wrapped "removing unix socket" e))

  remove_socket : String → Files → Option Bool → Files × Result (Unit {0})
  unfolding after_remove
  remove_socket address files (some true) = after_remove address files (remove address)
  remove_socket address files _ = (files, ok tt)

  -- `cleanStaleSocket`
  unfoldable pub clean_stale_socket : Syslog → Files → Files × Result (Unit {0})
  unfolding remove_socket
  clean_stale_socket cfg files =
      if cfg.listener == unix_dgram_listener
      then remove_socket cfg.address files (files cfg.address)
      else (files, ok tt)

  answer : String → Option Error → Result (Unit {0})
  answer text none = ok tt
  answer text (some e) = err (wrapped text e)

  -- The `switch` over the kind of the listener. The permissions of the socket are left out.
  unfoldable pub listen : Syslog → Files → Files × Result (Unit {0})
  unfolding answer
  listen cfg files =
      if cfg.listener == unix_dgram_listener
      then (let (files', e) = listen_unixgram cfg.address files in
          (files', answer ("listening on unix socket " ⧺ cfg.address) e))
      else if cfg.listener == tcp_listener
      then (files, answer ("listening on TCP " ⧺ cfg.address) (listen_tcp cfg.address))
      else if cfg.listener == udp_listener
      then (files, answer ("listening on UDP " ⧺ cfg.address) (listen_udp cfg.address))
      else (files, ok tt)

  module _ {W : Type 0} where
    -- `Start`, up to the start of the loop.
    unfoldable pub start : Worker W → Worker W × Result (Unit {0})
    unfolding answer
    start w =
        let (files₁, cleaned) = clean_stale_socket w.cfg w.files in
        let (files₂, listening) = listen w.cfg files₁ in
        elim (wrap "removing socket" cleaned) [
          | ok done ↦
              (record w { files = files₂ }, listening >> answer "starting syslog server" boot)
          | err e ↦ (record w { files = files₁ }, err e)
          | panic ↦ (record w { files = files₁ }, panic)
        ]

    -- The deferred close, which panics on a channel that is closed.
    close_done : Worker W × Result (Unit {0}) → Worker W × Result (Unit {0})
    close_done (w, r) = if w.closed then (w, panic) else (record w { closed = true }, r)

    after_kill : Worker W → Option Error → Worker W × Result (Unit {0})
    after_kill w (some e) = (w, err (wrapped "killing syslog server" e))
    after_kill w none =
        let (files, r) = clean_stale_socket w.cfg w.files in
        (record w { files = files }, wrap "removing socket" r)

    -- `Stop`. The channel is closed unless it was; a message that waits in it is dropped.
    unfoldable pub stop : Worker W → Worker W × Result (Unit {0})
    unfolding close_done after_kill
    stop w = close_done (after_kill (record w { channel_closed = true }) kill)

    abbrev pub after_stop : Worker W × Result (Unit {0}) → Worker W × Progress
    after_stop (w, panic) = (w, crashed)
    after_stop (w, _) = (w, finished)

    -- `doWork` over what it receives, in order. Errors are logged and dropped.
    unfoldable pub work : Writer W → List Arrival → Worker W → Worker W × Progress
    work writer [] w = (w, working)
    work writer (channel_end ∷ arrivals) w = (w, finished)
    work writer (ctx_done ∷ arrivals) w = after_stop (stop w)
    work writer (parts msg ∷ arrivals) w = elim (syslog_to_log_message msg) [
      | ok m ↦ work writer arrivals (record w { world = (writer m w.world).0 })
      | err e ↦ work writer arrivals w
      | panic ↦ (w, crashed)
    ]
