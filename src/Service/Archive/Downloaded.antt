-- ===== src/Service/Archive/Downloaded.antt =====
-- A download with or without dates, as the handler answers it.
use text.Mathlib.TextLemmas.{append-nil}
use coriolis_logger.Clock.{unix_nano}
use coriolis_logger.Clock.Laws.{nanos, unix_nano-eq_nanos}
use coriolis_logger.Influxdb.Query.Conditions.{
  since, until, optional, conditions, where_text, prepare_query_lem,
}
use coriolis_logger.Influxdb.Logged.{logged_within, logged_within-always}
use coriolis_logger.Common.{
  ℕ, suc, ◌<◌, ◌≤◌, ◌≡◌, ◌≢◌, refl, sym, ap, ◌∙◌, subst, arith, String, true, none, some, List, [],
  ◌∷◌, map, All, length, ℤ, ok, wrap, leb_ℤ, not, ◌||◌, ◌&&◌, Bool, false, ◌++◌, ◌⧺◌, inl, inr,
  IsInt64,
}
use coriolis_logger.Clock.{Time, zero_time}
use coriolis_logger.Influxdb.{Store, flush}
use coriolis_logger.Influxdb.Logged.{logged}
use coriolis_logger.Influxdb.Client.{Library, Chunk}
use coriolis_logger.Influxdb.Calls.{Call, run, accepted}
use coriolis_logger.Influxdb.Conservation.Stored.{IsQuiet}
use coriolis_logger.Params.{QueryParams}
use coriolis_logger.Influxdb.Query.{is_dated}
use coriolis_logger.Influxdb.Reader.{result_reader, send_query}
use coriolis_logger.Influxdb.Reader.Lines.{lines}
use coriolis_logger.Http.{Request, get, ResponseWriter, new_writer, IsReliable}
use coriolis_logger.Controllers
use coriolis_logger.Controllers.{
  can_access, query_params, timestamp_to_time, get_severity, download_log_handler,
}
use coriolis_logger.Controllers.Transfer.{IsWorking}
use coriolis_logger.Controllers.LogDownload.{
  IsComplete, read_store, Answers, download_log_handler-Chunks,
}
use coriolis_logger.Service.Archive.{
  IsPlain, select, IsChronological, named, those, meets, is_within, Database, IsAnswered,
}
use coriolis_logger.Service.Archive.Accepted.{
  length-named, accepted-logged_within, length-accepted, stored-flush,
}

-- The parameters of a request without dates, and their query.
abbrev undated : String → ℤ → QueryParams
undated name severity = record {
  hostname = "";
  start_date = zero_time;
  end_date = zero_time;
  app_name = name;
  severity = severity;
}

query_params-undated :
    (req : Request)
    → get "start_date" req.query ≡ ""
    → get "end_date" req.query ≡ ""
    → query_params req ≡ undated (get "log" req.vars) (get_severity (get "severity" req.query)).0
unfolding query_params timestamp_to_time
query_params-undated req start end = rw (start, end, query_params) refl

-- The conditions of a query without a host are those of its dates.
meets-dates :
    (a b : Bool) (m n m' n' : ℤ) (host : String) (t : Time)
    → (a ≡ true → m ≡ m')
    → (b ≡ true → n ≡ n')
    → meets (optional a (since m) ++ optional b (until n) ++ []) host t
      ≡ ((not a || leb_ℤ m' (nanos t)) && (not b || leb_ℤ (nanos t) n'))
meets-dates true true m n m' n' host t h k = rw (h refl, k refl) (ground arith)
meets-dates true false m n m' n' host t h k = rw (h refl) refl
meets-dates false true m n m' n' host t h k = rw (k refl) (ground arith)
meets-dates false false m n m' n' host t h k = refl

-- The dates that a request gives are in the range of UnixNano, which ends in the year 2262.
pub record IsInRange (p : QueryParams) : Type 0 where
  pub start : is_dated p.start_date ≡ true → IsInt64 (nanos p.start_date)
  pub end : is_dated p.end_date ≡ true → IsInt64 (nanos p.end_date)

meets-is_within :
    (req : Request) (host : String) (t : Time)
    → IsInRange (query_params req)
    → meets (conditions (query_params req)) host t ≡ is_within (query_params req) t
unfolding query_params
meets-is_within req host t range =
    let p = query_params req in
    meets-dates (is_dated p.start_date) (is_dated p.end_date) (unix_nano p.start_date)
      (unix_nano p.end_date) (nanos p.start_date) (nanos p.end_date) host t
      (λ dated. unix_nano-eq_nanos p.start_date (range.start dated))
      (λ dated. unix_nano-eq_nanos p.end_date (range.end dated))

send_query-conditions :
    (lib : Library) (p : QueryParams) (s : Store lib) (chunks : List Chunk)
    → p.app_name ≢ ""
    → lib.query_as_chunk s.server
        (select p.app_name ⧺ where_text (conditions p))
        s.cfg.database
        20000
      ≡ ok chunks
    → send_query lib p s ≡ ok chunks
unfolding send_query
send_query-conditions lib p s chunks given answered = elim (prepare_query_lem p) [
  | inl (missing, e) ↦ absurd (given missing)
  | inr (named_log, e) ↦ rw (e, send_query) (ap (wrap "executing query") answered)
]

those-always : (lib : Library) (points : List lib.Point) → those lib (λ p. true) points ≡ points
those-always lib [] = refl
those-always lib (p ∷ points) = ap (λ l. p ∷ l) (those-always lib points)

module _ (lib : Library) (db : Database lib) (http : Controllers.Library) (size : String → ℕ)
    (reliable : IsReliable http.connection) (working : IsWorking http.disk size) where
  -- A download whose dates, if any, are read, over a server that answers its query.
  pub dated-downloaded :
      (calls : List Call) (s : Store lib) (req : Request) (fuel : ℕ)
      → s.points ≡ []
      → db.storage.stored s.server ≡ []
      → All (IsQuiet lib db.storage) calls
      → (flush lib (run lib calls s)).1 ≡ ok tt
      → IsChronological
          (map db.time (named lib db.measurement (get "log" req.vars) (accepted lib calls s)))
      → can_access req ≡ true
      → IsComplete req
      → IsInRange (query_params req)
      → IsAnswered lib db (get "log" req.vars) (conditions (query_params req))
      → suc (length calls) < fuel
      → (w : ResponseWriter) × (download_log_handler http
            (read_store lib)
            (λ params. (result_reader params, run lib calls s))
            fuel
            req
            new_writer
          ≡ some (ok w))
        × Answers
            (get "log" req.vars)
            (lines (logged_within lib (get "log" req.vars) (is_within (query_params req)) calls s))
            w
  unfolding query_params
  dated-downloaded calls s req fuel no_points fresh quiet flushed ordered admin complete range
        answers enough =
      let name = get "log" req.vars in
      let params = query_params req in
      let after = run lib calls s in
      let server = (flush lib after).0.server in
      let holds = stored-flush lib db calls s no_points fresh quiet flushed in
      let (chunks, parts, answered, known, same, few) =
        answers server (flush lib after).0.cfg.database (
          subst (λ ps. IsChronological (map db.time (named lib db.measurement name ps))) (sym holds)
            ordered) in
      let all =
        same
        ∙ (λ i. map db.text (
            those lib (λ p. meets-is_within req (db.host p) (db.time p) range i)
              (named lib db.measurement name (holds i))))
        ∙ accepted-logged_within lib db (is_within params) name calls s in
      let count = length-named lib db.measurement name (accepted lib calls s) in
      let total = length-accepted lib db calls s in
      let within =
        subst (λ ps. length parts ≤ suc (length (named lib db.measurement name ps))) holds few in
      subst
        (λ ms.
          (w : ResponseWriter) × (download_log_handler http (read_store lib)
              (λ params. (result_reader params, after)) fuel req new_writer
            ≡ some (ok w))
          × Answers name (lines ms) w)
        all
        (download_log_handler-Chunks lib http size reliable working fuel req after chunks parts
          admin complete (λ crashed. cc)
          (send_query-conditions lib params (flush lib after).0 chunks complete.named answered)
          known (omega arith))

  undated-IsAnswered :
      (name : String) (severity : ℤ)
      → IsPlain name
      → IsAnswered lib db name (conditions (undated name severity))
  unfolding is_dated where_text
  undated-IsAnswered name severity plain server database ordered =
      let (chunks, parts, answered, known, same, few) =
        db.answers server database name plain ordered in
      (
        chunks,
        parts,
        ap (λ q. lib.query_as_chunk server q database 20000) (append-nil (select name)) ∙ answered,
        known,
        same ∙ ap (map db.text) (sym (those-always lib _)),
        few,
      )

  undated-IsInRange : (name : String) (severity : ℤ) → IsInRange (undated name severity)
  unfolding is_dated
  undated-IsInRange name severity = record { start = λ e. cc; end = λ e. cc }

  timestamp_known : (stamp : String) → stamp ≡ "" → (timestamp_to_time stamp).1 ≡ none
  unfolding timestamp_to_time
  timestamp_known stamp empty = rw (empty, timestamp_to_time) refl

  undated-logged :
      (name : String) (severity : ℤ) (calls : List Call) (s : Store lib)
      → logged_within lib name (is_within (undated name severity)) calls s ≡ logged lib name calls s
  unfolding is_dated
  undated-logged name severity calls s = logged_within-always lib name calls s

  -- A download without dates over the same server, as the handler answers it.
  pub logged-downloaded :
      (calls : List Call) (s : Store lib) (req : Request) (fuel : ℕ)
      → s.points ≡ []
      → db.storage.stored s.server ≡ []
      → All (IsQuiet lib db.storage) calls
      → (flush lib (run lib calls s)).1 ≡ ok tt
      → IsChronological
          (map db.time (named lib db.measurement (get "log" req.vars) (accepted lib calls s)))
      → can_access req ≡ true
      → get "log" req.vars ≢ ""
      → IsPlain (get "log" req.vars)
      → get "start_date" req.query ≡ ""
      → get "end_date" req.query ≡ ""
      → suc (length calls) < fuel
      → (w : ResponseWriter) × (download_log_handler http
            (read_store lib)
            (λ params. (result_reader params, run lib calls s))
            fuel
            req
            new_writer
          ≡ some (ok w))
        × Answers (get "log" req.vars) (lines (logged lib (get "log" req.vars) calls s)) w
  logged-downloaded calls s req fuel no_points fresh quiet flushed ordered admin given plain start
        end enough =
      let name = get "log" req.vars in
      let severity = (get_severity (get "severity" req.query)).0 in
      let params = query_params-undated req start end in
      subst
        (λ ms.
          (w : ResponseWriter) × (download_log_handler http (read_store lib)
              (λ params. (result_reader params, run lib calls s)) fuel req new_writer
            ≡ some (ok w))
          × Answers name (lines ms) w)
        (ap (λ p. logged_within lib name (is_within p) calls s) params
          ∙ undated-logged name severity calls s)
        (dated-downloaded calls s req fuel no_points fresh quiet flushed ordered admin
          (record { named = given; start = timestamp_known _ start; end = timestamp_known _ end })
          (subst IsInRange (sym params) (undated-IsInRange name severity))
          (subst (λ p. IsAnswered lib db name (conditions p)) (sym params)
            (undated-IsAnswered name severity plain))
          enough)
