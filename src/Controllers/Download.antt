-- ===== src/Controllers/Download.antt =====
-- `downloadAsFile` and `downloadAsChuks` of apiserver/controllers/controllers.go, over any reader. A
-- loop has fuel; `none` means that it ran out.
use coriolis_logger.Common.{
  ℕ, zero, suc, String, Option, none, some, ◌⧺◌, pos, Error, is_eof, Result, ok, err, panic,
  if◌then◌else◌,
}
use coriolis_logger.Decimal.{itoa}
use coriolis_logger.Http.{
  ResponseWriter, Connection, write_header, set_header, write, status_internal_server_error,
}

-- The temporary file: its creation, a write to what it holds, its size, and the way back to its
-- beginning.
pub record Disk : Type 0 where
  pub temp_file : Option Error
  pub append : String → String → Option Error
  pub size : String → Result ℕ
  pub seek : Option Error

abbrev pub internal_error : ResponseWriter → ResponseWriter
internal_error w = write_header status_internal_server_error w

-- The headers of an attachment.
unfoldable pub attachment : String → ResponseWriter → ResponseWriter
unfolding set_header
attachment name w =
    set_header "Content-Type" "text/plain"
      (set_header "Content-Disposition" ("attachment; filename=" ⧺ name ⧺ ".log") w)

-- How the loop that fills the file ends.
pub data Filled : Type 0 where
  filled : String → Filled
  unread unwritten crashed : Filled

module _ (net : Connection) where
  after_seek : String → String → ResponseWriter → ℕ → Option Error → Result ResponseWriter
  after_seek content name w size (some e) = ok (internal_error w)
  after_seek content name w size none =
      ok (write net content (set_header "Content-Length" (itoa (pos size)) (attachment name w))).0

  -- What follows the loop.
  serve_file : Disk → String → ResponseWriter → Filled → Result ResponseWriter
  unfolding after_seek
  serve_file disk name w (filled content) = elim (disk.size content) [
    | ok size ↦ after_seek content name w size disk.seek
    | err e ↦ ok (internal_error w)
    | panic ↦ panic
  ]
  serve_file disk name w unread = ok (internal_error w)
  serve_file disk name w unwritten = ok (internal_error w)
  serve_file disk name w crashed = panic

  module _ {R : Type 0} (read_next : R → R × Result String) where
    -- The loop from the reader to the file.
    unfoldable pub fill : Disk → ℕ → R → String → Option Filled
    fill disk zero r content = none
    fill disk (suc fuel) r content =
        let (r', text) = read_next r in
        elim text [
          | ok s ↦ elim (disk.append content s) [
            | none ↦ fill disk fuel r' (content ⧺ s)
            | some e ↦ some unwritten
          ]
          | err e ↦ some (if is_eof e then filled content else unread)
          | panic ↦ some crashed
        ]

    abbrev serve_filled :
        Disk → String → ResponseWriter → Option Filled → Option (Result ResponseWriter)
    serve_filled disk name w none = none
    serve_filled disk name w (some f) = some (serve_file disk name w f)

    unfoldable pub download_as_file :
        Disk → ℕ → R → ResponseWriter → String → Option (Result ResponseWriter)
    unfolding serve_file
    download_as_file disk fuel r w name = elim disk.temp_file [
      | some e ↦ some (ok (internal_error w))
      | none ↦ serve_filled disk name w (fill disk fuel r "")
    ]

    -- The loop from the reader to the connection. Neither kind of error is told to the client.
    unfoldable pub stream : ℕ → R → ResponseWriter → Option (Result ResponseWriter)
    stream zero r w = none
    stream (suc fuel) r w =
        let (r', text) = read_next r in
        elim text [
          | ok s ↦
              let (w', failed) = write net s w in
              elim failed [ none ↦ stream fuel r' w' | some e ↦ some (ok w') ]
          | err e ↦ some (ok w)
          | panic ↦ some panic
        ]

    -- The first part, `nil` at the end of the log, is written after the headers.
    unfoldable pub first_part : ℕ → R → ResponseWriter → String → Option (Result ResponseWriter)
    first_part fuel r w s =
        let (w', failed) = write net s w in
        elim failed [ none ↦ stream fuel r w' | some e ↦ some (ok w') ]

    unfoldable pub download_as_chunks :
        ℕ → R → ResponseWriter → String → Option (Result ResponseWriter)
    unfolding first_part
    download_as_chunks fuel r w name =
        let (r', text) = read_next r in
        elim text [
          | ok s ↦ first_part fuel r' (attachment name w) s
          | err e ↦
              let rest = first_part fuel r' (attachment name w) "" in
              if is_eof e then rest else some (ok (internal_error w))
          | panic ↦ some panic
        ]
