-- ===== src/Service/Ending/Rounds.antt =====
-- What a round of the loop of the syslog worker or of the store does to their channels.
use coriolis_logger.Common.{
  ◌≡◌, refl, ap, ◌∙◌, inl, inr, arith, true, false, Result-cases, ◌≢◌, Result, ok, err, panic,
}
use coriolis_logger.Clock.{Time}
use coriolis_logger.Logging.{LogMessage, syslog_to_log_message}
use coriolis_logger.Config.{Syslog}
use coriolis_logger.Influxdb
use coriolis_logger.Influxdb.{Store, Event, running, returned, on_event, flush, rotate, write}
use coriolis_logger.Influxdb.Client.{Library}
use coriolis_logger.Influxdb.Calls.{call}
use coriolis_logger.SyslogWorker
use coriolis_logger.SyslogWorker.{
  Server, Worker, Arrival, parts, channel_end, working, finished, work,
}
use coriolis_logger.SyslogWorker.Stopping.{stop-Ends}
use coriolis_logger.Service.{World}
use coriolis_logger.Service.Pipeline.{writer, writer-World}
use coriolis_logger.Service.Ending.{Ending, Arrives, round}

module _ (lib : Library) where
  write-closed :
      (m : LogMessage) (now : Time) (s : Store lib) → (write lib m now s).0.closed ≡ s.closed
  unfolding write flush
  write-closed m now s = ground arith

  pub on_event-running :
      (event : Event) (s : Store lib)
      → (on_event lib event s).1 ≡ running
      → (on_event lib event s).0.closed ≡ s.closed
  unfolding on_event flush rotate
  on_event-running Influxdb.ctx_done s h = cc
  on_event-running Influxdb.quit s h = cc
  on_event-running Influxdb.tick s h = ground arith
  on_event-running (Influxdb.rotation_tick now) s h = ground arith

  pub on_event-returned :
      (event : Event) (s : Store lib)
      → (on_event lib event s).1 ≡ returned
      → (on_event lib event s).0.closed ≡ true
  unfolding on_event flush rotate
  on_event-returned Influxdb.ctx_done s h = refl
  on_event-returned Influxdb.quit s h = refl
  on_event-returned Influxdb.tick s h = ground arith
  on_event-returned (Influxdb.rotation_tick now) s h = ground arith

module _ (lib : Library) (now : LogMessage → Time) (cfg : Syslog) (server : Server) where
  writer-closed :
      (m : LogMessage) (w : World lib) → (writer lib now cfg m w).0.store.closed ≡ w.store.closed
  unfolding call
  writer-closed m w =
      ap (λ (v : World lib). v.store.closed) (writer-World lib now cfg m w)
      ∙ write-closed lib m (now m) w.store

  -- A round behind which the loop goes on leaves the flags as they are.
  abbrev pub Goes : Worker (World lib) → Worker (World lib) × SyslogWorker.Progress → Type 0
  Goes w (v, progress) =
      progress ≡ working
      → (v.closed ≡ w.closed)
        × (v.channel_closed ≡ w.channel_closed)
        × (v.world.store.closed ≡ w.world.store.closed)

  stop-ends :
      (r : Worker (World lib) × Result (Unit {0})) → (SyslogWorker.after_stop server r).1 ≢ working
  stop-ends (w, ok done) h = cc
  stop-ends (w, err e) h = cc
  stop-ends (w, panic) h = cc

  pub round-working : (a : Arrival) (w : Worker (World lib)) → Goes w (round lib now cfg server a w)
  unfolding work
  round-working (parts msg) w = elim (Result-cases (syslog_to_log_message msg)) [
    | inl (m, e) ↦ rw (e, work) (λ h. (refl, refl, writer-closed m w.world))
    | inr (inl (x, e)) ↦ rw (e, work) (λ h. (refl, refl, refl))
    | inr (inr e) ↦ rw (e, work) (λ h. cc)
  ]
  round-working channel_end w = λ h. cc
  round-working SyslogWorker.ctx_done w = λ h. absurd (stop-ends (SyslogWorker.stop server w) h)

  -- A round that ends an open loop closes its channel.
  abbrev pub Closes : Worker (World lib) → Worker (World lib) × SyslogWorker.Progress → Type 0
  Closes w (v, progress) =
      progress ≡ finished → (v.closed ≡ true) × (v.world.store.closed ≡ w.world.store.closed)

  pub round-finished :
      (e : Ending lib) (a : Arrival)
      → e.syslog.closed ≡ false
      → e.syslog.channel_closed ≡ false
      → Arrives lib e a
      → Closes e.syslog (round lib now cfg server a e.syslog)
  unfolding work
  round-finished e (parts msg) open_worker open_channel arrives =
      elim (Result-cases (syslog_to_log_message msg)) [
        | inl (m, found) ↦ rw (found, work) (λ h. cc)
        | inr (inl (x, found)) ↦ rw (found, work) (λ h. cc)
        | inr (inr found) ↦ rw (found, work) (λ h. cc)
      ]
  round-finished e channel_end open_worker open_channel arrives = cc
  round-finished e SyslogWorker.ctx_done open_worker open_channel arrives =
      let (ended, shut, channel_shut, kept) = stop-Ends server e.syslog open_worker in
      λ h. (shut, ap (λ (v : World lib). v.store.closed) kept)
