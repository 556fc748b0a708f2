-- ===== src/Controllers/LogDownload/Tests.antt =====
-- A store with two responses of a log, and the theorems on it.
use coriolis_logger.Common.{
  ◌≡◌, ◌≢◌, ◌<◌, refl, sym, ◌∙◌, subst, ok_injective, arith, String, true, false, none, some, List,
  [], ◌∷◌, length, suc, ℕ, ◌⧺◌, Result, ok, panic,
}
use coriolis_logger.Clock.{zero_time}
use coriolis_logger.Config.Tests.{influx}
use coriolis_logger.Influxdb.{Store, flush}
use coriolis_logger.Influxdb.Client
use coriolis_logger.Influxdb.Client.{Chunk, response, text, other, Series}
use coriolis_logger.Influxdb.Query.{prepare_query}
use coriolis_logger.Influxdb.Reader.{result_reader, send_query}
use coriolis_logger.Influxdb.Reader.Lines.{no_rows, a_row, lines}
use coriolis_logger.Influxdb.Tests
use coriolis_logger.Http.{Request, get, ResponseWriter, new_writer, Connection}
use coriolis_logger.Controllers.{
  can_access, Library, query_params, timestamp_to_time, download_log_handler,
}
use coriolis_logger.Controllers.Download.{Disk}
use coriolis_logger.Controllers.LogDownload.{
  Chunks, no_chunks, a_chunk, all_of, read_store, IsComplete, Answers, download_log_handler-Chunks,
}
use coriolis_logger.Controllers.Termination.{download_log_handler-Returns}

abbrev pub rows : String → List (List Series)
rows s = (((other ∷ other ∷ text s ∷ []) ∷ []) ∷ []) ∷ []

abbrev chunks : List Chunk
chunks =
    response (record { error = ""; results = rows "one" })
    ∷ response (record { error = ""; results = rows "two" })
    ∷ []

abbrev db : Client.Library
db = record Tests.library { query_as_chunk = λ server q database size. ok chunks }

abbrev parts : List (List String)
parts = ("one" ∷ []) ∷ ("two" ∷ []) ∷ []

chunks-known : Chunks chunks parts
chunks-known = a_chunk (a_row no_rows) (a_chunk (a_row no_rows) no_chunks)

-- A point waits in the buffer.
abbrev store : Store db
store = record { cfg = influx; points = ("worker", []) ∷ []; server = []; closed = false }

abbrev net : Connection
net body s = (body ⧺ s, none)

abbrev pub size : String → ℕ
size String.[] = 0
size (String.◌∷◌ c s) = suc (size s)

abbrev disk : Disk
disk = record {
  temp_file = none;
  append = λ content s. none;
  size = λ content. ok (size content);
  seek = none;
}

abbrev pub lib : Library
lib = record {
  connection = net;
  disk = disk;
  printf = λ s. s;
  quote = λ s. s;
  marshal = λ logs. ok "[]";
  upgrade = λ check req w. (w, none);
}

abbrev pub request : Request
request = record {
  headers = [];
  query = [];
  vars = ("log", "worker") ∷ [];
  auth_details = some (record { user_id = "u"; is_admin = true; expires_at = zero_time });
}

pub request-admin : can_access request ≡ true
unfolding can_access
request-admin = refl

pub request-IsComplete : IsComplete request
unfolding get timestamp_to_time
request-IsComplete = record { named = λ e. cc; start = refl; end = refl }

store-flush : (flush db store).1 ≢ panic
unfolding flush
store-flush = λ e. cc

answered : send_query db (query_params request) (flush db store).0 ≡ ok chunks
unfolding send_query prepare_query query_params get flush
answered = refl

download_log_handler-Chunks_example :
    (w : ResponseWriter) × (download_log_handler lib
        (read_store db)
        (λ params. (result_reader params, store))
        3
        request
        new_writer
      ≡ some (ok w))
    × Answers "worker" (lines (all_of parts)) w
unfolding get
download_log_handler-Chunks_example =
    download_log_handler-Chunks db lib size (λ body s. refl)
      (record {
        creates = refl;
        appends = λ content s. refl;
        sizes = λ content. refl;
        seeks = refl;
      })
      3 request store chunks parts request-admin request-IsComplete store-flush answered
      chunks-known (omega arith)

few_chunks :
    (cs : List Chunk)
    → send_query db (query_params request) (flush db store).0 ≡ ok cs
    → length cs < 3
few_chunks cs e = subst (λ l. length l < 3) (ok_injective (sym answered ∙ e)) (omega arith)

download_log_handler-Returns_example :
    (r : Result ResponseWriter) × (download_log_handler lib
        (read_store db)
        (λ params. (result_reader params, store))
        3
        request
        new_writer
      ≡ some r)
download_log_handler-Returns_example =
    download_log_handler-Returns db lib 3 request new_writer store few_chunks (omega arith)
