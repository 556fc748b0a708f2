-- ===== src/Influxdb/Client.antt =====
-- What datastore/influxdb/influxdb.go uses of the influxdb1-client library, as a parameter.
use coriolis_logger.Common.{String, Option, List, ℕ, Error, Result, ok, err, ◌≡◌, ◌++◌, none, some}
use coriolis_logger.Clock.{Time}

-- A value of type `interface{}` in a row of a result.
pub data Cell : Type 0 where
  text : String → Cell
  other : Cell

-- A series has rows of cells, a result has series, and a response has results.
abbrev pub Row : Type 0
Row = List Cell

abbrev pub Series : Type 0
Series = List Row

pub record Response : Type 0 where
  pub error : String
  pub results : List (List Series)

-- What a call of NextResponse gives. The list of a query's chunks ends where it gives io.EOF.
pub data Chunk : Type 0 where
  response : Response → Chunk
  failed : Error → Chunk

-- What a function of the client library that returns a value and an error gives; it does not panic.
pub data Reply (A : Type 0) : Type 0 where
  given : A → Reply A
  refused : Error → Reply A

abbrev pub result_of : {A : Type 0} → Reply A → Result A
result_of (given a) = ok a
result_of (refused e) = err e

-- The server stands for the client's connection with all that is behind it.
pub record Library : Type 1 where
  pub Point : Type 0
  pub Server : Type 0
  -- NewPoint: measurement, tags, fields and time
  pub new_point : String → List (String × String) → List (String × String) → Time → Reply Point
  -- NewBatchPoints: database and precision
  pub new_batch_points : String → String → Reply (Unit {0})
  -- Write of a batch of points to a database
  pub write : Server → String → List Point → Server × Option Error
  -- Query: the text, the database; the error of the response, empty if there is none
  pub query : Server → String → String → Server × Result String
  -- QueryAsChunk: the text, the database and the chunk size
  pub query_as_chunk : Server → String → String → ℕ → Result (List Chunk)

-- A server seen as the points that it holds, in the order in which it got them: a write that is
-- answered without an error adds its batch, and any other adds nothing.
pub record Storage (lib : Library) : Type 0 where
  pub stored : lib.Server → List lib.Point
  pub write_ok :
      (server : lib.Server) (database : String) (points : List lib.Point)
      → (lib.write server database points).1 ≡ none
      → stored (lib.write server database points).0 ≡ stored server ++ points
  pub write_failed :
      (server : lib.Server) (database : String) (points : List lib.Point) (e : Error)
      → (lib.write server database points).1 ≡ some e
      → stored (lib.write server database points).0 ≡ stored server

-- The points that a server has ever acknowledged, which a deletion leaves as they are.
pub record History (lib : Library) : Type 0 where
  pub storage : Storage lib
  pub query_keeps :
      (server : lib.Server) (text database : String)
      → storage.stored (lib.query server text database).0 ≡ storage.stored server
