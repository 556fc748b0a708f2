-- ===== src/Controllers/Broken/Handler/Tests.antt =====
-- A log whose second response is an error.
use coriolis_logger.Common.{
  ◌≡◌, ◌≢◌, refl, arith, String, false, some, List, [], ◌∷◌, plain, ok, panic,
}
use coriolis_logger.Config.Tests.{influx}
use coriolis_logger.Decimal.{parse_bool}
use coriolis_logger.Influxdb.Client
use coriolis_logger.Influxdb.Client.{Chunk, response, failed}
use coriolis_logger.Influxdb.{Store, flush}
use coriolis_logger.Influxdb.Query.{prepare_query}
use coriolis_logger.Influxdb.Reader.{result_reader, send_query}
use coriolis_logger.Influxdb.Reader.Lines.{no_rows, a_row, lines}
use coriolis_logger.Influxdb.Tests
use coriolis_logger.Http.{get, ResponseWriter, new_writer}
use coriolis_logger.Controllers.{query_params, download_log_handler}
use coriolis_logger.Controllers.LogDownload.{all_of, read_store, Answers}
use coriolis_logger.Controllers.LogDownload.Tests.{
  rows, size, lib, request, request-admin, request-IsComplete,
}
use coriolis_logger.Controllers.Broken.Handler.{
  Cut, cut_here, a_part, download_log_handler-IsCutOff,
}

abbrev chunks : List Chunk
chunks =
    response (record { error = ""; results = rows "one" }) ∷ failed (plain "connection reset") ∷ []

abbrev db : Client.Library
db = record Tests.library { query_as_chunk = λ server q database size. ok chunks }

abbrev parts : List (List String)
parts = ("one" ∷ []) ∷ []

chunks-Cut : Cut chunks parts
chunks-Cut = a_part (a_row no_rows) (cut_here refl)

abbrev store : Store db
store = record { cfg = influx; points = []; server = []; closed = false }

store-flush : (flush db store).1 ≢ panic
unfolding flush
store-flush = λ e. cc

answered : send_query db (query_params request) (flush db store).0 ≡ ok chunks
unfolding send_query prepare_query query_params get flush
answered = refl

in_chunks : parse_bool (get "disable_chunked" request.query) ≡ false
unfolding parse_bool get
in_chunks = refl

download_log_handler-IsCutOff_example :
    (w : ResponseWriter) × (download_log_handler lib
        (read_store db)
        (λ params. (result_reader params, store))
        2
        request
        new_writer
      ≡ some (ok w))
    × Answers "worker" (lines (all_of parts)) w
unfolding parse_bool get
download_log_handler-IsCutOff_example =
    download_log_handler-IsCutOff db lib size (λ body s. refl)
      (record {
        creates = refl;
        appends = λ content s. refl;
        sizes = λ content. refl;
        seeks = refl;
      })
      2 request store chunks parts request-admin request-IsComplete store-flush answered chunks-Cut
      (omega arith)
