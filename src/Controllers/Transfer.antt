-- ===== src/Controllers/Transfer.antt =====
-- The two ways to send a log: both give the client all that the reader gives.
use coriolis_logger.Common.{
  ℕ, zero, suc, ◌<◌, ◌≡◌, refl, sym, ap, ◌∙◌, arith, String, Option-cases, inl, inr, none, some,
  List, [], ◌∷◌, length, concat, ◌⧺◌, pos, eof, Result, ok, err,
}
use text.Mathlib.TextLemmas.{append-nil, append_assoc, nil-append}
use coriolis_logger.Decimal.{itoa}
use coriolis_logger.Http.{ResponseWriter, Connection, IsReliable, write_header, set_header, write}
use coriolis_logger.Controllers.Download.{
  Disk, attachment, filled, fill, download_as_file, stream, first_part, download_as_chunks,
}

-- A disk on which every step succeeds, and which knows the size of what it holds.
pub record IsWorking (disk : Disk) (size : String → ℕ) : Type 0 where
  pub creates : disk.temp_file ≡ none
  pub appends : (content s : String) → disk.append content s ≡ none
  pub sizes : (content : String) → disk.size content ≡ ok (size content)
  pub seeks : disk.seek ≡ none

-- The writer after a text that was sent.
unfoldable pub sent : String → ResponseWriter → ResponseWriter
unfolding write_header
sent s w = record (write_header 200 w) { body = w.body ⧺ s }

module _ {R : Type 0} (read_next : R → R × Result String) where
  -- A reader that gives these texts, and then the end, which it gives again when it is asked again.
  pub data Yields : R → List String → Type 0 where
    ended :
        {r : R} → (read_next r).1 ≡ err eof → (read_next (read_next r).0).1 ≡ err eof → Yields r []
    gave :
        {r : R} {s : String} {texts : List String}
        → (read_next r).1 ≡ ok s
        → Yields (read_next r).0 texts
        → Yields r (s ∷ texts)

  module _ (net : Connection) (disk : Disk) (size : String → ℕ)
      (working : IsWorking disk size) where
    fill-Yields :
        (fuel : ℕ) (r : R) (texts : List String) (content : String)
        → Yields r texts
        → length texts < fuel
        → fill net read_next disk fuel r content ≡ some (filled (content ⧺ concat texts))
    unfolding fill
    fill-Yields zero r texts content y h = absurd (omega arith)
    fill-Yields (suc fuel) r [] content (ended e again) h =
        rw (e, fill) (ap (λ t. some (filled t)) (sym (append-nil _)))
    fill-Yields (suc fuel) r (s ∷ texts) content (gave e y) h =
        rw (e, working.appends content s, fill)
          (fill-Yields fuel (read_next r).0 texts (content ⧺ s) y (omega arith)
            ∙ ap (λ t. some (filled t)) (append_assoc _ _ _))

    fill_all :
        (fuel : ℕ) (r : R) (texts : List String)
        → Yields r texts
        → length texts < fuel
        → fill net read_next disk fuel r "" ≡ some (filled (concat texts))
    fill_all fuel r texts y h =
        fill-Yields fuel r texts "" y h ∙ ap (λ t. some (filled t)) (nil-append (concat texts))

    -- If a reader gives some texts and then the end, the disk works, and there is more fuel than
    -- texts, the download as a file writes all the texts, in order and at once, behind the headers
    -- of an attachment and a Content-Length of their size.
    pub download_as_file-Yields :
        (fuel : ℕ) (r : R) (texts : List String) (name : String) (w : ResponseWriter)
        → Yields r texts
        → length texts < fuel
        → download_as_file net read_next disk fuel r w name
          ≡ some (
              ok
                (write net (concat texts) (
                  set_header "Content-Length"
                    (itoa (pos (size (concat texts))))
                    (attachment name w))).0)
    unfolding download_as_file
    download_as_file-Yields fuel r texts name w y h = ground (
      arith,
      fill_all fuel r texts y h,
      working.creates,
      working.sizes (concat texts),
      working.seeks,
    )

  module _ (net : Connection) (reliable : IsReliable net) where
    pub write-sent :
        (t s : String) (w : ResponseWriter) → write net t (sent s w) ≡ (sent (s ⧺ t) w, none)
    unfolding write write_header sent
    write-sent t s w = elim (Option-cases w.status) [
      | inl e ↦ ground (arith, e, reliable (w.body ⧺ s) t, append_assoc w.body s t)
      | inr (n, e) ↦ ground (arith, e, reliable (w.body ⧺ s) t, append_assoc w.body s t)
    ]

    write_lem : (t : String) (w : ResponseWriter) → write net t w ≡ (sent t w, none)
    unfolding write sent
    write_lem t w = ground (arith, reliable w.body t)

    stream-Yields :
        (fuel : ℕ) (r : R) (texts : List String) (s : String) (w : ResponseWriter)
        → Yields r texts
        → length texts < fuel
        → stream net read_next fuel r (sent s w) ≡ some (ok (sent (s ⧺ concat texts) w))
    unfolding stream
    stream-Yields zero r texts s w y h = absurd (omega arith)
    stream-Yields (suc fuel) r [] s w (ended e again) h =
        rw (e, stream) (ap (λ t. some (ok (sent t w))) (sym (append-nil s)))
    stream-Yields (suc fuel) r (t ∷ texts) s w (gave e y) h =
        rw (e, ap (λ p. p.1) (write-sent t s w), ap (λ p. p.0) (write-sent t s w), stream)
          (stream-Yields fuel (read_next r).0 texts (s ⧺ t) w y (omega arith)
            ∙ ap (λ t. some (ok (sent t w))) (append_assoc s t (concat texts)))

    pub first_part_lem :
        (fuel : ℕ) (r : R) (w : ResponseWriter) (t : String)
        → first_part net read_next fuel r w t ≡ stream net read_next fuel r (sent t w)
    unfolding first_part
    first_part_lem fuel r w t =
        rw (ap (λ p. p.1) (write_lem t w), ap (λ p. p.0) (write_lem t w), first_part) refl

    -- If a reader gives some texts and then the end, the connection takes all that is written, and
    -- there is more fuel than texts, the download in chunks answers with the headers of an
    -- attachment and all the texts, in order.
    pub download_as_chunks-Yields :
        (fuel : ℕ) (r : R) (texts : List String) (name : String) (w : ResponseWriter)
        → Yields r texts
        → length texts < fuel
        → download_as_chunks net read_next fuel r w name
          ≡ some (ok (sent (concat texts) (attachment name w)))
    unfolding download_as_chunks stream
    download_as_chunks-Yields zero r texts name w y h = absurd (omega arith)
    download_as_chunks-Yields (suc fuel) r [] name w (ended e again) h =
        rw (e, download_as_chunks)
          (first_part_lem (suc fuel) (read_next r).0 (attachment name w) ""
            ∙ rw (again, stream) refl)
    download_as_chunks-Yields (suc fuel) r (t ∷ texts) name w (gave e y) h =
        rw (e, download_as_chunks)
          (first_part_lem (suc fuel) (read_next r).0 (attachment name w) t
            ∙ stream-Yields (suc fuel) (read_next r).0 texts t (attachment name w) y (omega arith))
