-- ===== src/Influxdb/Reader/Lines.antt =====
-- What a reader makes of a response: the messages of its rows, each on a line of its own.
use package.text.Mathlib.TextLemmas.{append-nil, append_assoc, nil-append, cons-append}
use coriolis_logger.Common.{
  String, true, List, [], ◌∷◌, ◌++◌, map, concat, ◌≡◌, ◌⊎◌, inl, inr, refl, sym, ap, ◌∙◌, ◌⧺◌, ok,
  ◌>>=◌, bind_agree, >>=_assoc, Bool-cases,
}
use coriolis_logger.Influxdb.Client.{Cell, text, Row, Series}
use coriolis_logger.Influxdb.Reader.{
  ends_in_newline, line_of, message_cell, buffer_rows, buffer_series, buffer_results,
}

-- Every row holds a message in its third cell; the messages of all rows, in order.
abbrev flatten_rows : List Series → Series
flatten_rows [] = []
flatten_rows (rows ∷ series) = rows ++ flatten_rows series

abbrev pub rows_of : List (List Series) → Series
rows_of [] = []
rows_of (series ∷ results) = flatten_rows series ++ rows_of results

pub data Messages : Series → List String → Type 0 where
  no_rows : Messages [] []
  a_row :
      {a b : Cell} {s : String} {cells : Row} {rows : Series} {messages : List String}
      → Messages rows messages
      → Messages ((a ∷ b ∷ text s ∷ cells) ∷ rows) (s ∷ messages)

abbrev pub lines : List String → String
lines messages = concat (map line_of messages)

buffer_rows-append :
    (xs ys : Series) (buf : String)
    → buffer_rows (xs ++ ys) buf ≡ (buffer_rows xs buf >>= buffer_rows ys)
unfolding buffer_rows
buffer_rows-append [] ys buf = refl
buffer_rows-append (row ∷ xs) ys buf =
    bind_agree (message_cell row) _ _ (λ s. buffer_rows-append xs ys (buf ⧺ line_of s))
    ∙ sym (>>=_assoc (message_cell row) _ (buffer_rows ys))

buffer_series-flatten :
    (series : List Series) (buf : String)
    → buffer_series series buf ≡ buffer_rows (flatten_rows series) buf
unfolding buffer_series buffer_rows
buffer_series-flatten [] buf = refl
buffer_series-flatten (rows ∷ series) buf =
    bind_agree (buffer_rows rows buf) _ _ (λ b. buffer_series-flatten series b)
    ∙ sym (buffer_rows-append rows (flatten_rows series) buf)

buffer_results-flatten :
    (results : List (List Series)) (buf : String)
    → buffer_results results buf ≡ buffer_rows (rows_of results) buf
unfolding buffer_results buffer_rows
buffer_results-flatten [] buf = refl
buffer_results-flatten (series ∷ results) buf =
    ap (λ r. r >>= buffer_results results) (buffer_series-flatten series buf)
    ∙ bind_agree (buffer_rows (flatten_rows series) buf) _ _ (λ b. buffer_results-flatten results b)
    ∙ sym (buffer_rows-append (flatten_rows series) (rows_of results) buf)

buffer_rows-Messages :
    {rows : Series} {messages : List String} (buf : String)
    → Messages rows messages
    → buffer_rows rows buf ≡ ok (buf ⧺ lines messages)
unfolding buffer_rows message_cell
buffer_rows-Messages buf no_rows = ap ok (sym (append-nil buf))
buffer_rows-Messages buf (a_row {s = s} {messages = ms} rest) =
    buffer_rows-Messages (buf ⧺ line_of s) rest ∙ ap ok (append_assoc buf (line_of s) (lines ms))

-- If every row of a response holds a message in its third cell, the text of the response is the
-- concatenation of the lines of the messages of all rows, in order.
pub buffer_results-Messages :
    (results : List (List Series)) (messages : List String)
    → Messages (rows_of results) messages
    → buffer_results results "" ≡ ok (lines messages)
buffer_results-Messages results messages h =
    buffer_results-flatten results "" ∙ buffer_rows-Messages "" h ∙ ap ok (nil-append _)

-- What has a newline behind it ends in one.
ends-append_newline : (s : String) → ends_in_newline (s ⧺ "\n") ≡ true
unfolding ends_in_newline
ends-append_newline String.[] = refl
ends-append_newline (String.◌∷◌ c String.[]) = rw cons-append refl
ends-append_newline (String.◌∷◌ c (String.◌∷◌ d s)) =
    rw (cons-append, cons-append) (rw cons-append at (ends-append_newline (String.◌∷◌ d s)))

-- The line of an empty message is empty; that of any other ends in a newline and is the message
-- itself or the message with one newline behind it.
line_of_lem :
    (s : String)
    → ((s ≡ "") × (line_of s ≡ ""))
      ⊎ ((ends_in_newline (line_of s) ≡ true) × ((line_of s ≡ s) ⊎ (line_of s ≡ s ⧺ "\n")))
unfolding line_of
line_of_lem String.[] = inl (refl, refl)
line_of_lem (String.◌∷◌ c s) = elim (Bool-cases (ends_in_newline (String.◌∷◌ c s))) [
  | inl ended ↦ inr (rw ended (ended, inl refl))
  | inr open_end ↦ inr (rw open_end (ends-append_newline (String.◌∷◌ c s), inr refl))
]
