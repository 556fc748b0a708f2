-- ===== src/Service/Archive.antt =====
-- From `Write` of the store to a download: what was logged is what is read back.
pub mod Tests
pub mod Accepted
pub mod Downloaded
pub mod Served
pub mod Dated
use Prim.Native.Char.{code}
use mathlib.Core.List.{append-nil}
use coriolis_logger.Common.{
  ℕ, suc, ◌<◌, ◌≤◌, ◌≡◌, ◌≢◌, refl, sym, ap, ◌∙◌, subst, inl, inr, arith, String, Bool, true, false,
  ◌&&◌, Bool-cases, none, some, List, [], ◌∷◌, ◌++◌, map, All, length, length-append, if◌then◌else◌,
  ◌==◌, eq_iff, eqb, ◌⧺◌, leb_ℤ, not, ◌||◌, pos, ℤ, ◌+ℤ◌, ◌≤ℤ◌, Result, is_ok, ok, err, panic,
  Result-cases,
}
use coriolis_logger.Clock.{Time, zero_time}
use coriolis_logger.Clock.Laws.{nanos}
use coriolis_logger.Logging.{LogMessage}
use coriolis_logger.Influxdb.{Store, write, flush, point_of}
use coriolis_logger.Influxdb.Logged.{logged, write-point_of}
use coriolis_logger.Influxdb.Client.{Library, Storage, Chunk, result_of}
use coriolis_logger.Influxdb.Calls.{Call, writes, reads, receives, call, run, point_if_ok, accepted}
use coriolis_logger.Influxdb.Buffer.{flush_ok-points}
use coriolis_logger.Influxdb.Conservation.Stored.{kept, flush-kept, IsQuiet, run-quiet}
use coriolis_logger.Params.{QueryParams}
use coriolis_logger.Influxdb.Query.{
  prepare_query, query_options, start_option, end_option, hostname_option, is_dated,
}
use coriolis_logger.Influxdb.Reader.{result_reader, send_query}
use coriolis_logger.Influxdb.Reader.Lines.{lines}
use coriolis_logger.Http.{Request, get, ResponseWriter, new_writer, IsReliable}
use coriolis_logger.Controllers
use coriolis_logger.Controllers.{
  can_access, query_params, timestamp_to_time, get_severity, download_log_handler,
}
use coriolis_logger.Controllers.Transfer.{IsWorking}
use coriolis_logger.Controllers.LogDownload.{
  Chunks, all_of, read_store, Answers, download_log_handler-Chunks,
}
use coriolis_logger.Influxdb.Query.Conditions.{Condition, since, until, on_host, where_text}
use coriolis_logger.Logging.{lookup}

-- Nothing in a name that ends or escapes a quoted identifier of a query.
abbrev pub IsPlain : String → Type 0
IsPlain String.[] = Unit
IsPlain (String.◌∷◌ c s) = (code c ≢ b'"') × (code c ≢ b'\\') × (code c ≢ b'\n') × IsPlain s

abbrev pub select : String → String
select name = "select time,severity,message from \"" ⧺ name ⧺ "\""

-- Each time is after the one before.
abbrev IsAfter : Time → List Time → Type 0
IsAfter t [] = Unit
IsAfter t (u ∷ times) = nanos t +ℤ pos 1 ≤ℤ nanos u

abbrev pub IsChronological : List Time → Type 0
IsChronological [] = Unit
IsChronological (t ∷ times) = IsAfter t times × IsChronological times

-- Whether the conditions of a query let a point of this host and time through.
abbrev pub meets : List Condition → String → Time → Bool
meets [] host t = true
meets (since n ∷ cs) host t = leb_ℤ n (nanos t) && meets cs host t
meets (until n ∷ cs) host t = leb_ℤ (nanos t) n && meets cs host t
meets (on_host h ∷ cs) host t = host == h && meets cs host t

-- Whether a time lies within the dates that are given, both included.
abbrev pub is_within : QueryParams → Time → Bool
is_within p t =
    (not (is_dated p.start_date) || leb_ℤ (nanos p.start_date) (nanos t))
    && (not (is_dated p.end_date) || leb_ℤ (nanos t) (nanos p.end_date))

module _ (lib : Library) where
  -- The points of a measurement.
  abbrev pub named : (lib.Point → String) → String → List lib.Point → List lib.Point
  named measurement name [] = []
  named measurement name (p ∷ points) =
      let rest = named measurement name points in if measurement p == name then p ∷ rest else rest

  -- The points that a test keeps.
  abbrev pub those : (lib.Point → Bool) → List lib.Point → List lib.Point
  those keep [] = []
  those keep (p ∷ points) = let rest = those keep points in if keep p then p ∷ rest else rest

  -- InfluxDB as far as a log is concerned: a point has its measurement, host, message and time, and
  -- a query without conditions for the points of a measurement, whose times grow, answers with their
  -- messages in order, in chunks of which at most one is empty.
  pub record Database : Type 0 where
    pub storage : Storage lib
    pub measurement : lib.Point → String
    pub text : lib.Point → String
    pub time : lib.Point → Time
    pub host : lib.Point → String
    pub new_point_known :
        (name : String) (tags : List (String × String)) (message : String) (t : Time)
        (p : lib.Point)
        → result_of (lib.new_point name tags (("message", message) ∷ []) t) ≡ ok p
        → (measurement p ≡ name)
          × (text p ≡ message)
          × (time p ≡ t)
          × ((h : String) → lookup "hostname" tags ≡ some h → host p ≡ h)
    pub answers :
        (server : lib.Server) (database name : String)
        → IsPlain name
        → IsChronological (map time (named measurement name (storage.stored server)))
        → (chunks : List Chunk) × (parts : List (List String)) × (lib.query_as_chunk server
              (select name)
              database
              20000
            ≡ ok chunks)
          × Chunks chunks parts
          × (all_of parts ≡ map text (named measurement name (storage.stored server)))
          × (length parts ≤ suc (length (named measurement name (storage.stored server))))

  -- The same for a query with conditions.
  abbrev pub IsAnswered : Database → String → List Condition → Type 0
  IsAnswered db name cs =
      (server : lib.Server) (database : String)
      → IsChronological (map db.time (named db.measurement name (db.storage.stored server)))
      → (chunks : List Chunk) × (parts : List (List String)) × (lib.query_as_chunk server
            (select name ⧺ where_text cs) database 20000
          ≡ ok chunks)
        × Chunks chunks parts
        × (all_of parts
            ≡ map db.text (
                those (λ p. meets cs (db.host p) (db.time p))
                  (named db.measurement name (db.storage.stored server))))
        × (length parts ≤ suc (length (named db.measurement name (db.storage.stored server))))
