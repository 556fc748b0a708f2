-- ===== src/Service/Ending/Waits.antt =====
-- What main has waited for, at each place of its end.
use coriolis_logger.Common.{◌≡◌, refl, ◌∙◌, subst, Bool, true, false}
use coriolis_logger.Clock.{Time}
use coriolis_logger.Logging.{LogMessage}
use coriolis_logger.Config.{Syslog}
use coriolis_logger.Influxdb.{running, returned}
use coriolis_logger.Influxdb.Client.{Library}
use coriolis_logger.SyslogWorker.{Server, Worker}
use coriolis_logger.Service.{World}
use coriolis_logger.Service.Ending.{
  Place, awaits_signal, awaits_syslog, awaits_datastore, stops_api, has_returned, died, Ending,
  at_select, store_of, Move, signalled, worker_failed, syslog_waited, datastore_waited, api_stopped,
  syslog_works, syslog_ends, syslog_crashes, store_works, store_ends, store_crashes, serve_failed,
  Moves, stays, moves,
}
use coriolis_logger.Service.Ending.Rounds.{
  on_event-running, on_event-returned, Goes, round-working, Closes, round-finished,
}

-- What holds at each place, of the context and the two channels.
abbrev pub HasWaited : Place → Bool → Bool → Bool → Type 0
HasWaited awaits_signal cancelled syslog datastore = cancelled ≡ false
HasWaited awaits_syslog cancelled syslog datastore = cancelled ≡ true
HasWaited awaits_datastore cancelled syslog datastore = (cancelled ≡ true) × (syslog ≡ true)
HasWaited stops_api cancelled syslog datastore =
    (cancelled ≡ true) × (syslog ≡ true) × (datastore ≡ true)
HasWaited has_returned cancelled syslog datastore =
    (cancelled ≡ true) × (syslog ≡ true) × (datastore ≡ true)
HasWaited died cancelled syslog datastore = Unit

with_syslog : (place : Place) (c s d : Bool) → HasWaited place c s d → HasWaited place c true d
with_syslog awaits_signal c s d h = h
with_syslog awaits_syslog c s d h = h
with_syslog awaits_datastore c s d (h, k) = (h, refl)
with_syslog stops_api c s d (h, k, l) = (h, refl, l)
with_syslog has_returned c s d (h, k, l) = (h, refl, l)
with_syslog died c s d h = tt

with_datastore : (place : Place) (c s d : Bool) → HasWaited place c s d → HasWaited place c s true
with_datastore awaits_signal c s d h = h
with_datastore awaits_syslog c s d h = h
with_datastore awaits_datastore c s d (h, k) = (h, k)
with_datastore stops_api c s d (h, k, l) = (h, k, refl)
with_datastore has_returned c s d (h, k, l) = (h, k, refl)
with_datastore died c s d h = tt

-- A loop runs while its channel is open, and has closed it when it has ended.
abbrev pub Tells : Bool → Bool → Type 0
Tells true closed = closed ≡ false
Tells false closed = closed ≡ true

module _ (lib : Library) where
  pub record IsSound (e : Ending lib) : Type 0 where
    pub waited : HasWaited e.place e.cancelled e.syslog.closed (store_of lib e).closed
    pub syslog : Tells e.syslog_runs e.syslog.closed
    pub channel : e.syslog_runs ≡ true → e.syslog.channel_closed ≡ false
    pub store : Tells e.store_runs (store_of lib e).closed

  pub at_select-IsSound :
      (w : Worker (World lib))
      → w.closed ≡ false
      → w.channel_closed ≡ false
      → w.world.store.closed ≡ false
      → IsSound (at_select lib w)
  at_select-IsSound w open_worker open_channel open_store = record {
    waited = refl;
    syslog = open_worker;
    channel = λ h. open_channel;
    store = open_store;
  }

module _ (lib : Library) (now : LogMessage → Time) (cfg : Syslog) (server : Server) where
  Move-IsSound : {e f : Ending lib} → Move lib now cfg server e f → IsSound lib e → IsSound lib f
  Move-IsSound (signalled e here) sound = record {
    waited = refl;
    syslog = sound.syslog;
    channel = sound.channel;
    store = sound.store;
  }
  Move-IsSound (worker_failed e here sent) sound = record {
    waited = refl;
    syslog = sound.syslog;
    channel = sound.channel;
    store = sound.store;
  }
  Move-IsSound (syslog_waited e here closed) sound = record {
    waited = (
      subst (λ l. HasWaited l e.cancelled e.syslog.closed (store_of lib e).closed) here
          sound.waited,
      closed,
    );
    syslog = sound.syslog;
    channel = sound.channel;
    store = sound.store;
  }
  Move-IsSound (datastore_waited e here closed) sound =
      let (cancelled, first) =
        subst (λ l. HasWaited l e.cancelled e.syslog.closed (store_of lib e).closed) here
          sound.waited in
      record {
        waited = (cancelled, first, closed);
        syslog = sound.syslog;
        channel = sound.channel;
        store = sound.store;
      }
  Move-IsSound (api_stopped e here) sound = record {
    waited =
        subst (λ l. HasWaited l e.cancelled e.syslog.closed (store_of lib e).closed) here
          sound.waited;
    syslog = sound.syslog;
    channel = sound.channel;
    store = sound.store;
  }
  Move-IsSound (syslog_works e a w runs arrives step) sound =
      let (closed, channel, store) =
        subst (Goes lib now cfg server e.syslog) step (round-working lib now cfg server a e.syslog)
          refl in
      record {
        waited = rw (closed, store) sound.waited;
        syslog = rw closed sound.syslog;
        channel = λ h. channel ∙ sound.channel h;
        store = rw store sound.store;
      }
  Move-IsSound (syslog_ends e a w runs arrives step) sound =
      let open_worker = subst (λ b. Tells b e.syslog.closed) runs sound.syslog in
      let (closed, store) =
        subst (Closes lib now cfg server e.syslog) step
          (round-finished lib now cfg server e a open_worker (sound.channel runs) arrives) refl in
      record {
        waited = rw (closed, store) (with_syslog e.place _ _ _ sound.waited);
        syslog = closed;
        channel = λ h. cc;
        store = rw store sound.store;
      }
  Move-IsSound (syslog_crashes e a w runs arrives step) sound = record {
    waited = tt;
    syslog = sound.syslog;
    channel = sound.channel;
    store = sound.store;
  }
  Move-IsSound (store_works e event s runs comes step) sound =
      let closed =
        subst (λ r. r.1 ≡ running → r.0.closed ≡ (store_of lib e).closed) step
          (on_event-running lib event (store_of lib e)) refl in
      record {
        waited = rw closed sound.waited;
        syslog = sound.syslog;
        channel = sound.channel;
        store = rw closed sound.store;
      }
  Move-IsSound (store_ends e event s runs comes step) sound =
      let closed =
        subst (λ r. r.1 ≡ returned → r.0.closed ≡ true) step
          (on_event-returned lib event (store_of lib e)) refl in
      record {
        waited = rw closed (with_datastore e.place _ _ _ sound.waited);
        syslog = sound.syslog;
        channel = sound.channel;
        store = closed;
      }
  Move-IsSound (store_crashes e event s runs comes step) sound = record {
    waited = tt;
    syslog = sound.syslog;
    channel = sound.channel;
    store = sound.store;
  }
  Move-IsSound (serve_failed e) sound = record {
    waited = tt;
    syslog = sound.syslog;
    channel = sound.channel;
    store = sound.store;
  }

  pub Moves-IsSound :
      {e f : Ending lib} → IsSound lib e → Moves lib now cfg server e f → IsSound lib f
  Moves-IsSound sound stays = sound
  Moves-IsSound sound (moves earlier last) = Move-IsSound last (Moves-IsSound sound earlier)
