-- ===== src/Controllers/Broken.antt =====
-- A download whose reader fails on the way.
pub mod Handler
use text.Mathlib.TextLemmas.{append_assoc, append-nil}
use coriolis_logger.Common.{
  ℕ, zero, suc, ◌<◌, ◌≡◌, refl, sym, ap, ◌∙◌, arith, String, false, some, none, List, [], ◌∷◌,
  length, concat, ◌⧺◌, Error, is_eof, Result, ok, err,
}
use coriolis_logger.Http.{ResponseWriter, Connection, IsReliable}
use coriolis_logger.Controllers.Download.{
  Disk, internal_error, attachment, unread, fill, download_as_file, stream, download_as_chunks,
}
use coriolis_logger.Controllers.Transfer.{IsWorking, sent, write-sent, first_part_lem}

module _ {R : Type 0} (read_next : R → R × Result String) where
  -- A reader that gives these texts, and then an error that is not the end.
  pub data Breaks : R → List String → Type 0 where
    broke : {r : R} {e : Error} → (read_next r).1 ≡ err e → is_eof e ≡ false → Breaks r []
    before :
        {r : R} {s : String} {texts : List String}
        → (read_next r).1 ≡ ok s
        → Breaks (read_next r).0 texts
        → Breaks r (s ∷ texts)

  module _ (net : Connection) (disk : Disk) (size : String → ℕ)
      (working : IsWorking disk size) where
    fill-Breaks :
        (fuel : ℕ) (r : R) (texts : List String) (content : String)
        → Breaks r texts
        → length texts < fuel
        → fill net read_next disk fuel r content ≡ some unread
    unfolding fill
    fill-Breaks zero r texts content b h = absurd (omega arith)
    fill-Breaks (suc fuel) r [] content (broke e no_end) h = rw (e, no_end, fill) refl
    fill-Breaks (suc fuel) r (s ∷ texts) content (before e b) h =
        rw (e, working.appends content s, fill)
          (fill-Breaks fuel (read_next r).0 texts (content ⧺ s) b (omega arith))

    -- Nothing of the file is sent.
    pub download_as_file-Breaks :
        (fuel : ℕ) (r : R) (texts : List String) (name : String) (w : ResponseWriter)
        → Breaks r texts
        → length texts < fuel
        → download_as_file net read_next disk fuel r w name ≡ some (ok (internal_error w))
    unfolding download_as_file
    download_as_file-Breaks fuel r texts name w b h =
        ground (arith, fill-Breaks fuel r texts "" b h, working.creates)

  module _ (net : Connection) (reliable : IsReliable net) where
    stream-Breaks :
        (fuel : ℕ) (r : R) (texts : List String) (s : String) (w : ResponseWriter)
        → Breaks r texts
        → length texts < fuel
        → stream net read_next fuel r (sent s w) ≡ some (ok (sent (s ⧺ concat texts) w))
    unfolding stream
    stream-Breaks zero r texts s w b h = absurd (omega arith)
    stream-Breaks (suc fuel) r [] s w (broke e no_end) h =
        rw (e, stream) (ap (λ t. some (ok (sent t w))) (sym (append-nil s)))
    stream-Breaks (suc fuel) r (t ∷ texts) s w (before e b) h =
        let wrote = write-sent read_next net reliable t s w in
        rw (e, ap (λ p. p.1) wrote, ap (λ p. p.0) wrote, stream)
          (stream-Breaks fuel (read_next r).0 texts (s ⧺ t) w b (omega arith)
            ∙ ap (λ t. some (ok (sent t w))) (append_assoc s t (concat texts)))

    -- What was read before the error is sent as if it were all.
    pub download_as_chunks-before :
        (fuel : ℕ) (r : R) (t : String) (texts : List String) (name : String) (w : ResponseWriter)
        → Breaks r (t ∷ texts)
        → length texts < fuel
        → download_as_chunks net read_next fuel r w name
          ≡ some (ok (sent (concat (t ∷ texts)) (attachment name w)))
    unfolding download_as_chunks
    download_as_chunks-before fuel r t texts name w (before e b) h =
        rw (e, download_as_chunks)
          (first_part_lem read_next net reliable fuel (read_next r).0 (attachment name w) t
            ∙ stream-Breaks fuel (read_next r).0 texts t (attachment name w) b h)

    pub download_as_chunks-broke :
        (fuel : ℕ) (r : R) (name : String) (w : ResponseWriter)
        → Breaks r []
        → download_as_chunks net read_next fuel r w name ≡ some (ok (internal_error w))
    unfolding download_as_chunks
    download_as_chunks-broke fuel r name w (broke e no_end) =
        rw (e, no_end, download_as_chunks) refl
