-- ===== src/Controllers/Termination/Loops.antt =====
-- The loops of a download over any reader that comes to an end.
use coriolis_logger.Common.{
  ℕ, zero, suc, ◌>>=◌, wrap, ◌≡◌, refl, inl, inr, String, true, false, Bool-cases, Option,
  Option-cases, some, ◌⧺◌, Error, is_eof, Result, Result-cases, ok, err, panic,
}
use coriolis_logger.Http.{ResponseWriter, Connection, write}
use coriolis_logger.Controllers.Download.{
  Disk, fill, stream, first_part, attachment, download_as_file, download_as_chunks,
}

abbrev pub Returns {ℓ} : {A : Type ℓ} → Option A → Type ℓ
Returns {A} r = (a : A) × (r ≡ some a)

-- An error that is not io.EOF, if any.
abbrev pub IsNoEnd {ℓ} : {A : Type ℓ} → Result A → Type 0
IsNoEnd (err e) = is_eof e ≡ false
IsNoEnd _ = Unit

pub wrap-IsNoEnd {ℓ} : {A : Type ℓ} (text : String) (r : Result A) → IsNoEnd (wrap text r)
wrap-IsNoEnd text (ok a) = tt
wrap-IsNoEnd text (err e) = refl
wrap-IsNoEnd text panic = tt

pub bind-IsNoEnd {ℓ κ} :
    {A : Type ℓ} {B : Type κ} (r : Result A) (next : A → Result B)
    → IsNoEnd r
    → ((a : A) → IsNoEnd (next a))
    → IsNoEnd (r >>= next)
bind-IsNoEnd (ok a) next h k = k a
bind-IsNoEnd (err e) next h k = h
bind-IsNoEnd panic next h k = tt

module _ {R : Type 0} (read_next : R → R × Result String) where
  -- A reader that gives fewer texts than this before anything else.
  abbrev pub Ends : ℕ → R → Type 0
  Ends zero r = ⊥
  Ends (suc n) r = (s : String) → (read_next r).1 ≡ ok s → Ends n (read_next r).0

  fill-Returns :
      (net : Connection) (disk : Disk) (fuel : ℕ) (r : R) (content : String)
      → Ends fuel r
      → Returns (fill net read_next disk fuel r content)
  unfolding fill
  fill-Returns net disk zero r content ends = absurd ends
  fill-Returns net disk (suc fuel) r content ends = elim (Result-cases (read_next r).1) [
    | inl (s, e) ↦ elim (Option-cases (disk.append content s)) [
      | inl kept ↦
          rw (e, kept, fill) (fill-Returns net disk fuel (read_next r).0 (content ⧺ s) (ends s e))
      | inr (x, lost) ↦ rw (e, lost, fill) (_, refl)
    ]
    | inr (inl (x, e)) ↦ rw (e, fill) (_, refl)
    | inr (inr e) ↦ rw (e, fill) (_, refl)
  ]

  stream-Returns :
      (net : Connection) (fuel : ℕ) (r : R) (w : ResponseWriter)
      → Ends fuel r
      → Returns (stream net read_next fuel r w)
  unfolding stream
  stream-Returns net zero r w ends = absurd ends
  stream-Returns net (suc fuel) r w ends = elim (Result-cases (read_next r).1) [
    | inl (s, e) ↦ elim (Option-cases (write net s w).1) [
      | inl kept ↦
          rw (e, kept, stream)
            (stream-Returns net fuel (read_next r).0 (write net s w).0 (ends s e))
      | inr (x, lost) ↦ rw (e, lost, stream) (_, refl)
    ]
    | inr (inl (x, e)) ↦ rw (e, stream) (_, refl)
    | inr (inr e) ↦ rw (e, stream) (_, refl)
  ]

  first_part-Returns :
      (net : Connection) (fuel : ℕ) (r : R) (w : ResponseWriter) (s : String)
      → Ends fuel r
      → Returns (first_part net read_next fuel r w s)
  unfolding first_part
  first_part-Returns net fuel r w s ends = elim (Option-cases (write net s w).1) [
    | inl kept ↦ rw (kept, first_part) (stream-Returns net fuel r (write net s w).0 ends)
    | inr (x, lost) ↦ rw (lost, first_part) (_, refl)
  ]

  pub download_as_file-Returns :
      (net : Connection) (disk : Disk) (fuel : ℕ) (r : R) (w : ResponseWriter) (name : String)
      → Ends fuel r
      → Returns (download_as_file net read_next disk fuel r w name)
  unfolding download_as_file
  download_as_file-Returns net disk fuel r w name ends = elim (Option-cases disk.temp_file) [
    | inl created ↦
        let (f, e) = fill-Returns net disk fuel r "" ends in
        rw (created, e, download_as_file) (_, refl)
    | inr (x, unmade) ↦ rw (unmade, download_as_file) (_, refl)
  ]

  -- An end of the log may come first; the reader is then asked again.
  pub download_as_chunks-Returns :
      (net : Connection) (fuel : ℕ) (r : R) (w : ResponseWriter) (name : String)
      → ((s : String) → (read_next r).1 ≡ ok s → Ends fuel (read_next r).0)
      → ((e : Error) → (read_next r).1 ≡ err e → is_eof e ≡ true → Ends fuel (read_next r).0)
      → Returns (download_as_chunks net read_next fuel r w name)
  unfolding download_as_chunks
  download_as_chunks-Returns net fuel r w name after_text after_end =
      elim (Result-cases (read_next r).1) [
        | inl (s, e) ↦
            rw (e, download_as_chunks)
              (first_part-Returns net fuel (read_next r).0 (attachment name w) s (after_text s e))
        | inr (inl (x, e)) ↦ elim (Bool-cases (is_eof x)) [
          | inl ended ↦
              rw (e, ended, download_as_chunks)
                (first_part-Returns net fuel (read_next r).0 (attachment name w) ""
                  (after_end x e ended))
          | inr broken ↦ rw (e, broken, download_as_chunks) (_, refl)
        ]
        | inr (inr e) ↦ rw (e, download_as_chunks) (_, refl)
      ]
