-- ===== src/Service/Ending/Returning.antt =====
-- main comes to its return once the context is cancelled.
use coriolis_logger.Common.{◌≡◌, ◌≢◌, refl, ap, ◌∙◌, subst, inl, inr, true, false, Bool-cases}
use coriolis_logger.Clock.{Time}
use coriolis_logger.Logging.{LogMessage}
use coriolis_logger.Config.{Syslog}
use coriolis_logger.Influxdb
use coriolis_logger.Influxdb.{Store, returned, on_event}
use coriolis_logger.Influxdb.Client.{Library}
use coriolis_logger.SyslogWorker
use coriolis_logger.SyslogWorker.{Server, Worker, finished, work}
use coriolis_logger.SyslogWorker.Stopping.{stop-Ends}
use coriolis_logger.Service.{World}
use coriolis_logger.Service.Ending.{
  Place, awaits_signal, awaits_syslog, awaits_datastore, stops_api, has_returned, died, Ending,
  at_select, store_of, with_store, round, Move, syslog_waited, datastore_waited, api_stopped,
  syslog_ends, store_ends, Moves, stays, moves,
}
use coriolis_logger.Service.Ending.Waits.{
  HasWaited, Tells, IsSound, at_select-IsSound, Moves-IsSound,
}

module _ (lib : Library) (now : LogMessage → Time) (cfg : Syslog) (server : Server) where
  abbrev To : Ending lib → Ending lib → Type 0
  To = Moves lib now cfg server

  and_then : {e f g : Ending lib} → To e f → To f g → To e g
  and_then first stays = first
  and_then first (moves earlier last) = moves (and_then first earlier) last

  one : {e f : Ending lib} → Move lib now cfg server e f → To e f
  one m = moves stays m

  -- main can come to its return with the channels of both workers closed.
  abbrev pub Finishes : Ending lib → Type 0
  Finishes e =
      (f : Ending lib) × Moves lib now cfg server e f
      × (f.place ≡ has_returned)
      × (f.syslog.closed ≡ true)
      × ((store_of lib f).closed ≡ true)

  Moves-Finishes : {e f : Ending lib} → To e f → Finishes f → Finishes e
  Moves-Finishes ms (g, later, here, syslog, store) = (g, and_then ms later, here, syslog, store)

  -- The end of the context ends the loop of the syslog worker, if that still runs.
  end_syslog :
      (e : Ending lib)
      → IsSound lib e
      → e.cancelled ≡ true
      → (f : Ending lib) × To e f
        × (f.place ≡ e.place)
        × (f.cancelled ≡ true)
        × (f.syslog.closed ≡ true)
  unfolding work
  end_syslog e sound cancelled = elim (Bool-cases e.syslog_runs) [
    | inl runs ↦
        let (ended, shut, channel_shut, kept) =
          stop-Ends server e.syslog (subst (λ b. Tells b e.syslog.closed) runs sound.syslog) in
        let w = (round lib now cfg server SyslogWorker.ctx_done e.syslog).0 in
        (
          record e { syslog = w; syslog_runs = false },
          one (syslog_ends e SyslogWorker.ctx_done w runs cancelled (ap (λ q. (w, q)) ended)),
          refl,
          cancelled,
          shut,
        )
    | inr over ↦ (e, stays, refl, cancelled, subst (λ b. Tells b e.syslog.closed) over sound.syslog)
  ]

  -- The same of the store.
  end_store :
      (e : Ending lib)
      → IsSound lib e
      → e.cancelled ≡ true
      → (f : Ending lib) × To e f
        × (f.place ≡ e.place)
        × (f.syslog.closed ≡ e.syslog.closed)
        × ((store_of lib f).closed ≡ true)
  unfolding on_event
  end_store e sound cancelled = elim (Bool-cases e.store_runs) [
    | inl runs ↦
        let s = record (store_of lib e) { closed = true } in
        (
          record (with_store lib s e) { store_runs = false },
          one (store_ends e Influxdb.ctx_done s runs cancelled refl),
          refl,
          refl,
          refl,
        )
    | inr over ↦
        (e, stays, refl, refl, subst (λ b. Tells b (store_of lib e).closed) over sound.store)
  ]

  from_api :
      (e : Ending lib)
      → e.place ≡ stops_api
      → e.syslog.closed ≡ true
      → (store_of lib e).closed ≡ true
      → Finishes e
  from_api e here syslog store =
      (record e { place = has_returned }, one (api_stopped e here), refl, syslog, store)

  from_datastore :
      (e : Ending lib)
      → IsSound lib e
      → e.cancelled ≡ true
      → e.syslog.closed ≡ true
      → e.place ≡ awaits_datastore
      → Finishes e
  from_datastore e sound cancelled syslog here =
      let (f, ms, same, kept, store) = end_store e sound cancelled in
      Moves-Finishes (moves ms (datastore_waited f (same ∙ here) store))
        (from_api (record f { place = stops_api }) refl (kept ∙ syslog) store)

  from_syslog :
      (e : Ending lib) → IsSound lib e → e.cancelled ≡ true → e.place ≡ awaits_syslog → Finishes e
  from_syslog e sound cancelled here =
      let (f, ms, same, still, closed) = end_syslog e sound cancelled in
      let waits = moves ms (syslog_waited f (same ∙ here) closed) in
      Moves-Finishes waits (
        from_datastore (record f { place = awaits_datastore })
          (Moves-IsSound lib now cfg server sound waits) still closed refl)

  from_place :
      (place : Place) (e : Ending lib)
      → IsSound lib e
      → e.cancelled ≡ true
      → e.place ≡ place
      → HasWaited place e.cancelled e.syslog.closed (store_of lib e).closed
      → place ≢ died
      → Finishes e
  from_place awaits_signal e sound cancelled here waited alive = cc
  from_place awaits_syslog e sound cancelled here waited alive = from_syslog e sound cancelled here
  from_place awaits_datastore e sound cancelled here (c, syslog) alive =
      from_datastore e sound cancelled syslog here
  from_place stops_api e sound cancelled here (c, syslog, store) alive =
      from_api e here syslog store
  from_place has_returned e sound cancelled here (c, syslog, store) alive =
      (e, stays, here, syslog, store)
  from_place died e sound cancelled here waited alive = absurd (alive refl)

  -- From the wait of main for a signal, with an open worker and an open store, over any moves of
  -- main and rounds of the loops of both: in every state with a cancelled context in which the
  -- process has not died, main has passed the Wait of the syslog worker only with the channel of
  -- that worker closed, and the Wait of the store, and so come to the stop of the API server and
  -- its return, only with both channels closed; and from that state main can come to its return,
  -- with both channels closed.
  pub Moves-returned :
      (w : Worker (World lib)) (e : Ending lib)
      → w.closed ≡ false
      → w.channel_closed ≡ false
      → w.world.store.closed ≡ false
      → Moves lib now cfg server (at_select lib w) e
      → e.cancelled ≡ true
      → e.place ≢ died
      → HasWaited e.place e.cancelled e.syslog.closed (store_of lib e).closed × Finishes e
  Moves-returned w e open_worker open_channel open_store reached cancelled alive =
      let sound =
        Moves-IsSound lib now cfg server
          (at_select-IsSound lib w open_worker open_channel open_store) reached in
      (sound.waited, from_place e.place e sound cancelled refl sound.waited alive)
