-- ===== src/Controllers/LogDownload.antt =====
-- The download of a log from the store: the handler over the reader of datastore/influxdb.
pub mod Tests
use text.Mathlib.TextLemmas.{nil-append, append_assoc}
use coriolis_logger.Common.{
  ℕ, suc, ◌<◌, ◌≡◌, ◌≢◌, refl, sym, ap, ◌∙◌, inl, inr, arith, String, Bool, true, false, Bool-cases,
  none, some, List, [], ◌∷◌, ◌++◌, map, length, concat, ◌⧺◌, ◌==◌, eq_iff, pos, eof, Result,
  Result-cases, ok, err, panic, subst,
}
use coriolis_logger.Decimal.{itoa, parse_bool}
use coriolis_logger.Params.{QueryParams}
use coriolis_logger.Influxdb.Client.{Chunk, response, Response}
use coriolis_logger.Influxdb.Client
use coriolis_logger.Influxdb.{Store, flush}
use coriolis_logger.Influxdb.Reader
use coriolis_logger.Influxdb.Reader.{Reader, next_text, line_of, send_query, result_reader}
use coriolis_logger.Influxdb.Reader.Lines.{rows_of, Messages, lines, buffer_results-Messages}
use coriolis_logger.Http.{
  Request, get, ResponseWriter, new_writer, IsReliable, write, write_header, set_header,
}
use coriolis_logger.Controllers.{
  can_access, timestamp_to_time, Library, query_params, check_inputs, download_log_handler,
}
use coriolis_logger.Controllers.Download.{attachment, download_as_file, download_as_chunks}
use coriolis_logger.Controllers.Transfer.{
  IsWorking, Yields, ended, gave, sent, download_as_file-Yields, download_as_chunks-Yields,
}

-- The messages in the rows of the responses to a query.
pub data Chunks : List Chunk → List (List String) → Type 0 where
  no_chunks : Chunks [] []
  a_chunk :
      {r : Response} {chunks : List Chunk} {messages : List String} {later : List (List String)}
      → Messages (rows_of r.results) messages
      → Chunks chunks later
      → Chunks (response r ∷ chunks) (messages ∷ later)

abbrev pub all_of : List (List String) → List String
all_of [] = []
all_of (messages ∷ later) = messages ++ all_of later

concat-lines : (xs ys : List String) → lines (xs ++ ys) ≡ lines xs ⧺ lines ys
concat-lines [] ys = sym (nil-append _)
concat-lines (x ∷ xs) ys =
    ap (λ t. line_of x ⧺ t) (concat-lines xs ys) ∙ sym (append_assoc (line_of x) _ _)

pub concat-map-lines :
    (parts : List (List String)) → concat (map lines parts) ≡ lines (all_of parts)
concat-map-lines [] = refl
concat-map-lines (ms ∷ parts) =
    ap (λ t. lines ms ⧺ t) (concat-map-lines parts) ∙ sym (concat-lines ms (all_of parts))

pub length-map : (parts : List (List String)) → length (map lines parts) ≡ length parts
length-map [] = refl
length-map (ms ∷ parts) = ap suc (length-map parts)

-- The request names a log and has dates, if any, that are numbers.
pub record IsComplete (req : Request) : Type 0 where
  pub named : get "log" req.vars ≢ ""
  pub start : (timestamp_to_time (get "start_date" req.query)).1 ≡ none
  pub end : (timestamp_to_time (get "end_date" req.query)).1 ≡ none

-- The status, the name of the attachment, and the body of an answer.
abbrev pub Answers : String → String → ResponseWriter → Type 0
Answers name body w =
    (w.status ≡ some 200)
    × (get "Content-Disposition" w.headers ≡ "attachment; filename=" ⧺ name ⧺ ".log")
    × (w.body ≡ body)

module _ (db : Client.Library) where
  -- `ReadNext` of a reader with its datastore.
  abbrev pub read_store : Reader × Store db → (Reader × Store db) × Result String
  read_store (r, s) = let (s', (r', text)) = Reader.read_next db r s in ((r', s'), text)

  Chunks-Yields :
      (params : QueryParams) (s : Store db) {chunks : List Chunk} {parts : List (List String)}
      → Chunks chunks parts
      → Yields read_store (record { params = params; result = some chunks }, s) (map lines parts)
  unfolding Reader.read_next next_text
  Chunks-Yields params s no_chunks = ended refl refl
  Chunks-Yields params s (a_chunk {r} {messages = ms} known later) =
      gave (buffer_results-Messages r.results ms known) (Chunks-Yields params s later)

  -- The first call flushes the buffer, and then it is as if the query had been sent before.
  pub first_read :
      (params : QueryParams) (s : Store db) {chunks : List Chunk}
      → (flush db s).1 ≢ panic
      → send_query db params (flush db s).0 ≡ ok chunks
      → read_store (result_reader params, s)
        ≡ read_store (record { params = params; result = some chunks }, (flush db s).0)
  unfolding Reader.read_next result_reader
  first_read params s no_panic answered = elim (Result-cases (flush db s).1) [
    | inl (done, flushed) ↦ rw (flushed, answered, Reader.read_next) refl
    | inr (inl (e, failed)) ↦ rw (failed, answered, Reader.read_next) refl
    | inr (inr crashed) ↦ absurd (no_panic crashed)
  ]

  as_first :
      {r r' : Reader × Store db} {texts : List String}
      → read_store r ≡ read_store r'
      → Yields read_store r' texts
      → Yields read_store r texts
  as_first {r} {r'} same (ended e again) =
      ended (ap (λ p. p.1) same ∙ e) (ap (λ p. (read_store p.0).1) same ∙ again)
  as_first {r} {r'} same (gave {texts} e y) =
      gave (ap (λ p. p.1) same ∙ e)
        (subst (λ p. Yields read_store p texts) (sym (ap (λ p. p.0) same)) y)

  first-Yields :
      (params : QueryParams) (s : Store db) {chunks : List Chunk} {parts : List (List String)}
      → (flush db s).1 ≢ panic
      → send_query db params (flush db s).0 ≡ ok chunks
      → Chunks chunks parts
      → Yields read_store (result_reader params, s) (map lines parts)
  first-Yields params s no_panic answered known =
      as_first (first_read params s no_panic answered) (Chunks-Yields params (flush db s).0 known)

  module _ (lib : Library) (size : String → ℕ) (reliable : IsReliable lib.connection)
      (working : IsWorking lib.disk size) where
    pub check_inputs-IsComplete :
        (req : Request) (w : ResponseWriter) → IsComplete req → check_inputs lib req w ≡ w
    unfolding check_inputs
    check_inputs-IsComplete req w complete =
        ground (arith, complete.start, complete.end, eq_iff (get "log" req.vars) "", complete.named)

    by_file :
        (fuel : ℕ) (r : Reader × Store db) (texts : List String) (name : String)
        → Yields read_store r texts
        → length texts < fuel
        → (w : ResponseWriter) × (download_as_file lib.connection read_store lib.disk fuel r
              new_writer name
            ≡ some (ok w))
          × Answers name (concat texts) w
    unfolding write write_header attachment set_header get
    by_file fuel r texts name y enough = (
      _,
      download_as_file-Yields read_store lib.connection lib.disk size working fuel r texts name
          new_writer y enough,
      (refl, refl, ap (λ p. p.0) (reliable "" (concat texts)) ∙ nil-append _),
    )

    by_chunks :
        (fuel : ℕ) (r : Reader × Store db) (texts : List String) (name : String)
        → Yields read_store r texts
        → length texts < fuel
        → (w : ResponseWriter) × (download_as_chunks lib.connection read_store fuel r new_writer
              name
            ≡ some (ok w))
          × Answers name (concat texts) w
    unfolding sent write_header attachment set_header get
    by_chunks fuel r texts name y enough = (
      _,
      download_as_chunks-Yields read_store lib.connection reliable fuel r texts name new_writer y
          enough,
      (refl, refl, nil-append _),
    )

    -- If an admin asks for a named log with dates that are numbers or absent, the connection takes
    -- all that is written, the disk works, the flush does not panic, and the query that follows it
    -- is answered with responses whose rows hold messages, then with more fuel than responses the
    -- download, in chunks or as a file, answers a fresh writer with the status 200, an attachment
    -- of the name of the log, and the lines of all messages, in order.
    pub download_log_handler-Chunks :
        (fuel : ℕ) (req : Request) (s : Store db) (chunks : List Chunk) (parts : List (List String))
        → can_access req ≡ true
        → IsComplete req
        → (flush db s).1 ≢ panic
        → send_query db (query_params req) (flush db s).0 ≡ ok chunks
        → Chunks chunks parts
        → length parts < fuel
        → (w : ResponseWriter) × (download_log_handler lib read_store
              (λ params. (result_reader params, s))
              fuel
              req
              new_writer
            ≡ some (ok w))
          × Answers (get "log" req.vars) (lines (all_of parts)) w
    unfolding download_log_handler
    download_log_handler-Chunks fuel req s chunks parts admin complete no_panic answered known
          enough =
        let y = first-Yields (query_params req) s no_panic answered known in
        let checked = check_inputs-IsComplete req new_writer complete in
        let within = subst (λ n. n < fuel) (sym (length-map parts)) enough in
        let name = get "log" req.vars in
        let start : Reader × Store db = (result_reader (query_params req), s) in
        subst
          (λ body.
            (w : ResponseWriter) × (download_log_handler lib read_store
                (λ params. (result_reader params, s)) fuel req new_writer
              ≡ some (ok w))
            × Answers name body w)
          (concat-map-lines parts)
          (elim (Bool-cases (parse_bool (get "disable_chunked" req.query))) [
            | inl whole ↦
                rw (admin, checked, whole, download_log_handler)
                  (by_file fuel start (map lines parts) name y within)
            | inr in_parts ↦
                rw (admin, checked, in_parts, download_log_handler)
                  (by_chunks fuel start (map lines parts) name y within)
          ])
