-- ===== src/Influxdb/Rotation.antt =====
-- The rotation of logs: the time up to which they are deleted, and which logs are.
use coriolis_logger.Common.{
  ℕ, suc, ◌-◌, ◌*◌, ◌≤◌, ◌<◌, ◌≡◌, refl, inl, inr, arith, String, List, [], ◌∷◌, ◌++◌, ◌⧺◌, Result,
  Result-cases, ok, err, panic, pos, negsuc, neg, ◌+ℤ◌, ◌*ℤ◌, ◌≤ℤ◌, wrap64, eq_of_parts, int_laws,
  word_mod,
}
use coriolis_logger.Decimal.{itoa}
use coriolis_logger.Clock.{Time, second, unix_nano}
use coriolis_logger.Clock.Laws.{nanos, nanos-add}
use coriolis_logger.Config.{InfluxDb, get_log_retention}
use coriolis_logger.Influxdb.Client.{Library}
use coriolis_logger.Influxdb.{
  Store, LogEntry, day, cutoff, delete_query, after_query, delete_names, delete_logs, list, rotate,
}

-- The days that a Duration can hold.
abbrev pub max_days : ℕ
max_days = 106751

-- The product that `doWork` computes, for a retention of `r` days.
days_back : (r : ℕ) → r ≤ max_days → wrap64 (wrap64 (neg (pos r)) *ℤ pos day) ≡ neg (pos (r * day))
unfolding neg ◌*ℤ◌ wrap64
days_back r h = ground arith

days_wrapped :
    (r : ℕ)
    → max_days < r
    → r ≤ 213503
    → wrap64 (wrap64 (neg (pos r)) *ℤ pos day) ≡ pos (word_mod - r * day)
unfolding neg ◌*ℤ◌ wrap64
days_wrapped r h k = ground arith

days_ahead :
    (m : ℕ) → suc m ≤ max_days → wrap64 (wrap64 (neg (negsuc m)) *ℤ pos day) ≡ pos (suc m * day)
unfolding neg ◌*ℤ◌ wrap64
days_ahead m h = ground arith

module _ (cfg : InfluxDb) (now : Time) (clock : now.nsec < second) where
  -- At a clock time whose nanoseconds are below a second, and with a retention of at most 106751
  -- days, the cutoff lies exactly that many days of nanoseconds before now.
  pub cutoff-exact :
      (r : ℕ)
      → get_log_retention cfg ≡ pos r
      → r ≤ max_days
      → nanos (cutoff cfg now) +ℤ pos (r * day) ≡ nanos now
  unfolding cutoff
  cutoff-exact r e h =
      rw (e, days_back r h, nanos-add now (neg (pos (r * day))) clock)
        (eq_of_parts _ _ (omega int_laws))

  -- At a clock time whose nanoseconds are below a second, and with a retention of more than 106751
  -- and at most 213503 days, the product of the days in an int64 wraps, and the cutoff lies after
  -- now.
  pub cutoff-wraps :
      (r : ℕ)
      → get_log_retention cfg ≡ pos r
      → max_days < r
      → r ≤ 213503
      → nanos now +ℤ pos 1 ≤ℤ nanos (cutoff cfg now)
  unfolding cutoff
  cutoff-wraps r e h k =
      rw (e, days_wrapped r h k, nanos-add now (pos (word_mod - r * day)) clock) (omega int_laws)

  -- At a clock time whose nanoseconds are below a second, and with a negative retention of at most
  -- 106751 days, the cutoff lies that many days after now.
  cutoff_negative :
      (m : ℕ)
      → get_log_retention cfg ≡ negsuc m
      → suc m ≤ max_days
      → nanos (cutoff cfg now) ≡ nanos now +ℤ pos (suc m * day)
  unfolding cutoff
  cutoff_negative m e h = rw (e, days_ahead m h) (nanos-add now (pos (suc m * day)) clock)

-- The names of a listing, in order.
abbrev entry_names : LogEntry → List String
entry_names [] = []
entry_names ((key, name) ∷ entry) = name ∷ entry_names entry

abbrev pub log_names : List LogEntry → List String
log_names [] = []
log_names (entry ∷ logs) = entry_names entry ++ log_names logs

-- The text that asks for the deletion of the points of a log that lie before a time.
abbrev pub deletion : String → Time → String
deletion name t = "delete from \"" ⧺ name ⧺ "\" where time < " ⧺ itoa (unix_nano t)

module _ (lib : Library) (database : String) (t : Time) where
  -- The server after a deletion of each log.
  abbrev pub deleted : List String → lib.Server → lib.Server
  deleted [] server = server
  deleted (name ∷ names) server = deleted names (lib.query server (deletion name t) database).0

  deleted-append :
      (xs ys : List String) (server : lib.Server)
      → deleted (xs ++ ys) server ≡ deleted ys (deleted xs server)
  deleted-append [] ys server = refl
  deleted-append (x ∷ xs) ys server = deleted-append xs ys _

  after_query-server : (r : lib.Server × Result String) → (after_query lib r).0 ≡ r.0
  unfolding after_query
  after_query-server (server, ok e) = refl
  after_query-server (server, err e) = refl
  after_query-server (server, panic) = refl

  delete_names-deleted :
      (entry : LogEntry) (server : lib.Server)
      → (delete_names lib database t entry server).1 ≡ ok tt
      → (delete_names lib database t entry server).0 ≡ deleted (entry_names entry) server
  unfolding delete_names delete_query
  delete_names-deleted [] server h = refl
  delete_names-deleted ((key, name) ∷ entry) server h =
      let answer = lib.query server (deletion name t) database in
      ground
        (arith, after_query-server answer, delete_names-deleted entry (after_query lib answer).0)

  delete_logs-deleted :
      (logs : List LogEntry) (server : lib.Server)
      → (delete_logs lib database t logs server).1 ≡ ok tt
      → (delete_logs lib database t logs server).0 ≡ deleted (log_names logs) server
  unfolding delete_logs
  delete_logs-deleted [] server h = refl
  delete_logs-deleted (entry ∷ logs) server h =
      let next = (delete_names lib database t entry server).0 in
      ground (
        arith,
        delete_names-deleted entry server,
        delete_logs-deleted logs next,
        deleted-append (entry_names entry) (log_names logs) server,
      )

-- A rotation that reports no error has listed the logs, sent the server for each of them, in the
-- order of the listing, the query that deletes the points of the log of that name with a time
-- below the nanoseconds of the given time, and changed nothing else of the store.
pub rotate_ok :
    (lib : Library) (t : Time) (s : Store lib)
    → (rotate lib t s).1 ≡ ok tt
    → (logs : List LogEntry) × (list lib s ≡ ok logs)
      × ((rotate lib t s).0
          ≡ record s { server = deleted lib s.cfg.database t (log_names logs) s.server })
unfolding rotate
rotate_ok lib t s h = elim (Result-cases (list lib s)) [
  | inl (logs, e) ↦
      (logs, e, ground (arith, delete_logs-deleted lib s.cfg.database t logs s.server))
  | inr (inl (x, e)) ↦ ground arith
  | inr (inr e) ↦ ground arith
]
