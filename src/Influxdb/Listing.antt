-- ===== src/Influxdb/Listing.antt =====
-- `List`, on what the server answers to SHOW MEASUREMENTS.
use coriolis_logger.Common.{◌≡◌, refl, ap, String, true, List, [], ◌∷◌, ◌++◌, map, Error, ok}
use coriolis_logger.Influxdb.Client.{Library, Chunk, response, failed, Response, Row, text}
use coriolis_logger.Influxdb.{
  Store, LogEntry, is_eof, names_of_rows, names_of_series, names_of_results, collect_names, list,
}

-- Each element has its names, and the list has those of all, in order.
pub data Each {A : Type 0} (R : A → List String → Type 0) : List A → List String → Type 0 where
  none_left : Each R [] []
  one_more :
      {a : A} {rest : List A} {xs ys : List String}
      → R a xs
      → Each R rest ys
      → Each R (a ∷ rest) (xs ++ ys)

-- The name of a measurement is in the first cell of its row.
pub data NameOf : Row → List String → Type 0 where
  blank : NameOf [] []
  named : {name : String} {cells : Row} → NameOf (text name ∷ cells) (name ∷ [])

abbrev pub NamesOf : Response → List String → Type 0
NamesOf r = Each (Each (Each NameOf)) r.results

-- Responses without an error, up to the end of the stream.
pub data Listed : List Chunk → List String → Type 0 where
  no_more : Listed [] []
  at_end : {e : Error} {chunks : List Chunk} → is_eof e ≡ true → Listed (failed e ∷ chunks) []
  next :
      {r : Response} {chunks : List Chunk} {xs ys : List String}
      → r.error ≡ ""
      → NamesOf r xs
      → Listed chunks ys
      → Listed (response r ∷ chunks) (xs ++ ys)

abbrev pub entries : List String → List LogEntry
entries names = map (λ n. ("log_name", n) ∷ []) names

entries-append : (xs ys : List String) → entries xs ++ entries ys ≡ entries (xs ++ ys)
entries-append [] ys = refl
entries-append (x ∷ xs) ys = ap (λ l. (("log_name", x) ∷ []) ∷ l) (entries-append xs ys)

names_of_rows-entries :
    {rows : List Row} {names : List String}
    → Each NameOf rows names
    → names_of_rows rows ≡ ok (entries names)
unfolding names_of_rows
names_of_rows-entries none_left = refl
names_of_rows-entries (one_more blank rest) = names_of_rows-entries rest
names_of_rows-entries (one_more named rest) = rw (names_of_rows-entries rest) refl

names_of_series-entries :
    {series : List (List Row)} {names : List String}
    → Each (Each NameOf) series names
    → names_of_series series ≡ ok (entries names)
unfolding names_of_series
names_of_series-entries none_left = refl
names_of_series-entries (one_more {xs = xs} {ys = ys} h rest) =
    rw (names_of_rows-entries h, names_of_series-entries rest) (ap ok (entries-append xs ys))

names_of_results-entries :
    {results : List (List (List Row))} {names : List String}
    → Each (Each (Each NameOf)) results names
    → names_of_results results ≡ ok (entries names)
unfolding names_of_results
names_of_results-entries none_left = refl
names_of_results-entries (one_more {xs = xs} {ys = ys} h rest) =
    rw (names_of_series-entries h, names_of_results-entries rest) (ap ok (entries-append xs ys))

collect_names-Listed :
    {chunks : List Chunk} {names : List String}
    → Listed chunks names
    → collect_names chunks ≡ ok (entries names)
unfolding collect_names
collect_names-Listed no_more = refl
collect_names-Listed (at_end end) = rw end refl
collect_names-Listed (next {xs = xs} {ys = ys} fine h rest) =
    rw (fine, names_of_results-entries h, collect_names-Listed rest) (ap ok (entries-append xs ys))

pub list-Listed :
    (lib : Library) (s : Store lib) (chunks : List Chunk) (names : List String)
    → lib.query_as_chunk s.server "SHOW MEASUREMENTS" s.cfg.database 0 ≡ ok chunks
    → Listed chunks names
    → list lib s ≡ ok (entries names)
unfolding list
list-Listed lib s chunks names answered listed = rw (answered, list) (collect_names-Listed listed)
