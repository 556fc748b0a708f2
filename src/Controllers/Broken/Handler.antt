-- ===== src/Controllers/Broken/Handler.antt =====
-- The handler over a query whose responses end in an error.
mod Tests
use text.Mathlib.TextLemmas.{nil-append}
use coriolis_logger.Common.{
  ℕ, ◌<◌, suc, ◌≡◌, ◌≢◌, refl, sym, ap, ◌∙◌, inl, inr, arith, String, Bool, true, false, Bool-cases,
  Option, some, wrapped, List, [], ◌∷◌, map, length, concat, Error, is_eof, Result, ok, err, panic,
  subst,
}
use coriolis_logger.Decimal.{parse_bool}
use coriolis_logger.Params.{QueryParams}
use coriolis_logger.Influxdb.Client
use coriolis_logger.Influxdb.Client.{Chunk, response, failed, Response}
use coriolis_logger.Influxdb.{Store, flush}
use coriolis_logger.Influxdb.Reader
use coriolis_logger.Influxdb.Reader.{Reader, next_text, send_query, result_reader}
use coriolis_logger.Influxdb.Reader.Lines.{rows_of, Messages, lines, buffer_results-Messages}
use coriolis_logger.Http.{
  Request, get, ResponseWriter, new_writer, IsReliable, write_header, set_header,
}
use coriolis_logger.Controllers.{can_access, Library, query_params, download_log_handler}
use coriolis_logger.Controllers.Download.{attachment, download_as_file, download_as_chunks}
use coriolis_logger.Controllers.Transfer.{IsWorking, sent}
use coriolis_logger.Controllers.LogDownload.{
  all_of, concat-map-lines, length-map, IsComplete, Answers, read_store, first_read,
  check_inputs-IsComplete,
}
use coriolis_logger.Controllers.Broken.{
  Breaks, broke, before, download_as_file-Breaks, download_as_chunks-before,
  download_as_chunks-broke,
}

-- Responses whose rows hold messages, and then an error that is not the end.
pub data Cut : List Chunk → List (List String) → Type 0 where
  cut_here : {e : Error} {chunks : List Chunk} → is_eof e ≡ false → Cut (failed e ∷ chunks) []
  a_part :
      {r : Response} {chunks : List Chunk} {messages : List String} {later : List (List String)}
      → Messages (rows_of r.results) messages
      → Cut chunks later
      → Cut (response r ∷ chunks) (messages ∷ later)

abbrev Fails : ResponseWriter → Type 0
Fails w = (w.status ≡ some 500) × (w.body ≡ "")

-- The answer to a download, as a file or not, of which the reader gave some parts before an error.
abbrev pub IsCutOff : Bool → String → List (List String) → ResponseWriter → Type 0
IsCutOff true name parts w = Fails w
IsCutOff false name [] w = Fails w
IsCutOff false name (part ∷ parts) w = Answers name (lines (all_of (part ∷ parts))) w

module _ (db : Client.Library) where
  Cut-Breaks :
      (params : QueryParams) (s : Store db) {chunks : List Chunk} {parts : List (List String)}
      → Cut chunks parts
      → Breaks
          (read_store db)
          (record { params = params; result = some chunks }, s)
          (map lines parts)
  unfolding Reader.read_next next_text
  Cut-Breaks params s (cut_here {e} no_end) =
      broke {e = wrapped "reading results" e} (rw no_end refl) refl
  Cut-Breaks params s (a_part {r} {messages = ms} known later) =
      before (buffer_results-Messages r.results ms known) (Cut-Breaks params s later)

  as_first :
      {r r' : Reader × Store db} {texts : List String}
      → read_store db r ≡ read_store db r'
      → Breaks (read_store db) r' texts
      → Breaks (read_store db) r texts
  as_first same (broke e no_end) = broke (ap (λ p. p.1) same ∙ e) no_end
  as_first same (before {texts} e b) =
      before (ap (λ p. p.1) same ∙ e)
        (subst (λ p. Breaks (read_store db) p texts) (sym (ap (λ p. p.0) same)) b)

  module _ (lib : Library) (size : String → ℕ) (reliable : IsReliable lib.connection)
      (working : IsWorking lib.disk size) where
    abbrev Downloads : (ResponseWriter → Type 0) → Option (Result ResponseWriter) → Type 0
    Downloads P r = (w : ResponseWriter) × (r ≡ some (ok w)) × P w

    by_file :
        (fuel : ℕ) (r : Reader × Store db) (name : String) (parts : List (List String))
        → Breaks (read_store db) r (map lines parts)
        → length parts < fuel
        → Downloads Fails
            (download_as_file lib.connection (read_store db) lib.disk fuel r new_writer name)
    unfolding write_header
    by_file fuel r name parts b enough = (
      _,
      download_as_file-Breaks (read_store db) lib.connection lib.disk size working fuel r
          (map lines parts) name new_writer b
          (subst (λ n. n < fuel) (sym (length-map parts)) enough),
      (refl, refl),
    )

    by_chunks :
        (fuel : ℕ) (r : Reader × Store db) (name : String) (parts : List (List String))
        → Breaks (read_store db) r (map lines parts)
        → length parts < fuel
        → Downloads
            (IsCutOff false name parts)
            (download_as_chunks lib.connection (read_store db) fuel r new_writer name)
    unfolding sent write_header attachment set_header get
    by_chunks fuel r name [] b enough = (
      _,
      download_as_chunks-broke (read_store db) lib.connection reliable fuel r name new_writer b,
      (refl, refl),
    )
    by_chunks fuel r name (part ∷ parts) b enough = (
      _,
      download_as_chunks-before (read_store db) lib.connection reliable fuel r (lines part)
          (map lines parts) name new_writer b
          (subst (λ n. n < fuel) (sym (length-map parts)) (omega arith)),
      (refl, refl, nil-append _ ∙ concat-map-lines (part ∷ parts)),
    )

    -- If an admin asks for a named log with dates that are numbers or absent, the connection takes
    -- all that is written, the disk works, the flush does not panic, and the query that follows it
    -- is answered with responses whose rows hold messages and then with an error that is not the
    -- end of the stream, then with more fuel than responses the download answers a fresh writer:
    -- as a file, or if the error comes first, with the status 500 and an empty body; in chunks
    -- behind a first response, with the status 200, an attachment of the name of the log, and the
    -- lines of the messages before the error, as a whole log of these messages is answered.
    pub download_log_handler-IsCutOff :
        (fuel : ℕ) (req : Request) (s : Store db) (chunks : List Chunk) (parts : List (List String))
        → can_access req ≡ true
        → IsComplete req
        → (flush db s).1 ≢ panic
        → send_query db (query_params req) (flush db s).0 ≡ ok chunks
        → Cut chunks parts
        → length parts < fuel
        → (w : ResponseWriter) × (download_log_handler lib
              (read_store db)
              (λ params. (result_reader params, s))
              fuel
              req
              new_writer
            ≡ some (ok w))
          × IsCutOff (parse_bool (get "disable_chunked" req.query)) (get "log" req.vars) parts w
    unfolding download_log_handler
    download_log_handler-IsCutOff fuel req s chunks parts admin complete no_panic answered cut
          enough =
        let name = get "log" req.vars in
        let b =
          as_first (first_read db (query_params req) s no_panic answered)
            (Cut-Breaks (query_params req) (flush db s).0 cut) in
        let checked =
          check_inputs-IsComplete db lib size reliable working req new_writer complete in
        let start : Reader × Store db = (result_reader (query_params req), s) in
        elim (Bool-cases (parse_bool (get "disable_chunked" req.query))) [
          | inl whole ↦
              rw (admin, checked, whole, download_log_handler)
                (by_file fuel start name parts b enough)
          | inr in_parts ↦
              rw (admin, checked, in_parts, download_log_handler)
                (by_chunks fuel start name parts b enough)
        ]
