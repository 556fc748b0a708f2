-- ===== src/Influxdb/Reader.antt =====
-- The reader of datastore/influxdb/influxdb.go: `ResultReader` and `ReadNext`.
pub mod Lines
use Prim.Native.Char.{code}
use coriolis_logger.Common.{
  ℕ, String, Bool, true, false, not, ◌&&◌, Option, none, some, List, [], ◌∷◌, eqb, if◌then◌else◌,
  ◌⧺◌, Error, eof, wrapped, is_eof, Result, ok, err, panic, ◌>>=◌, wrap,
}
use coriolis_logger.Params.{QueryParams}
use coriolis_logger.Influxdb.{Store, flush}
use coriolis_logger.Influxdb.Client.{
  Library, Cell, text, other, Row, Series, Response, Chunk, response, failed,
}
use coriolis_logger.Influxdb.Query.{prepare_query}

-- `none` is the nil of a reader that has not sent its query; the datastore is an argument.
pub record Reader : Type 0 where
  pub params : QueryParams
  pub result : Option (List Chunk)

unfoldable pub result_reader : QueryParams → Reader
result_reader params = record { params = params; result = none }

-- The last character is a newline.
unfoldable pub ends_in_newline : String → Bool
ends_in_newline String.[] = false
ends_in_newline (String.◌∷◌ c String.[]) = eqb (code c) b'\n'
ends_in_newline (String.◌∷◌ c (String.◌∷◌ d s)) = ends_in_newline (String.◌∷◌ d s)

abbrev is_empty : String → Bool
is_empty String.[] = true
is_empty (String.◌∷◌ c s) = false

unfoldable pub line_of : String → String
unfolding ends_in_newline
line_of s = if not (is_empty s) && not (ends_in_newline s) then s ⧺ "\n" else s

-- `val[2].(string)`
unfoldable pub message_cell : Row → Result String
message_cell (a ∷ b ∷ text s ∷ cells) = ok s
message_cell _ = panic

-- The loops that write the lines of a response to the buffer.
unfoldable pub buffer_rows : Series → String → Result String
buffer_rows [] buf = ok buf
buffer_rows (row ∷ rows) buf = message_cell row >>= λ s. buffer_rows rows (buf ⧺ line_of s)

unfoldable pub buffer_series : List Series → String → Result String
buffer_series [] buf = ok buf
buffer_series (rows ∷ series) buf = buffer_rows rows buf >>= λ buf'. buffer_series series buf'

unfoldable pub buffer_results : List (List Series) → String → Result String
buffer_results [] buf = ok buf
buffer_results (series ∷ results) buf =
    buffer_series series buf >>= λ buf'. buffer_results results buf'

-- `NextResponse`, and the text of the response that it gives.
unfoldable pub next_text : List Chunk → List Chunk × Result String
next_text [] = ([], err eof)
next_text (failed e ∷ chunks) =
    (chunks, if is_eof e then err e else err (wrapped "reading results" e))
next_text (response r ∷ chunks) = (chunks, buffer_results r.results "")

module _ (lib : Library) where
  open lib use {query_as_chunk}

  -- The query, sent after a flush whose error is dropped.
  unfoldable pub send_query : QueryParams → Store lib → Result (List Chunk)
  send_query params s = do
    q ← wrap "preparing query" (prepare_query params)
    wrap "executing query" (query_as_chunk s.server q s.cfg.database 20000)

  read_from : Reader → Result (List Chunk) → Reader × Result String
  read_from r (ok chunks) = let (rest, s) = next_text chunks in (record r { result = some rest }, s)
  read_from r (err e) = (r, err e)
  read_from r panic = (r, panic)

  -- A flush that panics takes the call down with it.
  after_flush : Reader → Store lib × Result (Unit {0}) → Store lib × (Reader × Result String)
  unfolding read_from
  after_flush r (s, panic) = (s, (r, panic))
  after_flush r (s, _) = (s, read_from r (send_query r.params s))

  -- `ReadNext`
  unfoldable pub read_next : Reader → Store lib → Store lib × (Reader × Result String)
  unfolding after_flush
  read_next r s = elim r.result [
    | none ↦ after_flush r (flush lib s)
    | some chunks ↦ (s, read_from r (ok chunks))
  ]
