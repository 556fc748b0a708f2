-- ===== src/Logging/Aggregate/Delivery.antt =====
-- logging/logging.go: every writer gets every message, and the first failure is reported.
use mathlib.Core.List.{append_assoc, append-nil}
use coriolis_logger.Common.{
  ◌≡◌, refl, sym, ap, ◌∙◌, ◌↔◌, arith, Option, none, some, List, [], ◌∷◌, ◌++◌, Error, wrapped,
}
use coriolis_logger.Logging.{LogMessage}
use coriolis_logger.Logging.Aggregate.{Writer, add_error, write_each, first_error, aggregate_write}

add_error-append :
    (e : Option Error) (errs : List Error) → add_error e errs ≡ errs ++ add_error e []
add_error-append none errs = sym (append-nil errs)
add_error-append (some e) errs = refl

module _ {ℓ} {W : Type ℓ} where
  -- The errors so far do not touch the world, and are a prefix of the errors.
  world-errors :
      (ws : List (Writer W)) (msg : LogMessage) (w : W) (errs : List Error)
      → (write_each ws msg w errs).0 ≡ (write_each ws msg w []).0
  unfolding write_each
  world-errors [] msg w errs = refl
  world-errors (y ∷ ws) msg w errs =
      world-errors ws msg (y msg w).0 _ ∙ sym (world-errors ws msg (y msg w).0 _)

  write_each-errors :
      (ws : List (Writer W)) (msg : LogMessage) (w : W) (errs : List Error)
      → (write_each ws msg w errs).1 ≡ errs ++ (write_each ws msg w []).1
  unfolding write_each
  write_each-errors [] msg w errs = sym (append-nil errs)
  write_each-errors (y ∷ ws) msg w errs =
      let (w', e) = y msg w in
      let rest = (write_each ws msg w' []).1 in
      write_each-errors ws msg w' (add_error e errs)
      ∙ ap (λ l. l ++ rest) (add_error-append e errs)
      ∙ append_assoc errs (add_error e []) rest
      ∙ ap (λ l. errs ++ l) (sym (write_each-errors ws msg w' (add_error e [])))

  write_each-append :
      (xs ys : List (Writer W)) (msg : LogMessage) (w : W) (errs : List Error)
      → write_each (xs ++ ys) msg w errs
        ≡ write_each ys msg (write_each xs msg w errs).0 (write_each xs msg w errs).1
  unfolding write_each
  write_each-append [] ys msg w errs = refl
  write_each-append (x ∷ xs) ys msg w errs =
      write_each-append xs ys msg (x msg w).0 (add_error (x msg w).1 errs)

  -- Whatever the writers before it answered, a writer gets the message, on the world that they
  -- have left, and those behind it get the world that it leaves.
  aggregate_write-each :
      (xs ys : List (Writer W)) (y : Writer W) (msg : LogMessage) (w : W)
      → (aggregate_write (xs ++ y ∷ ys) msg w).0
        ≡ (aggregate_write ys msg (y msg (aggregate_write xs msg w).0).0).0
  unfolding aggregate_write write_each
  aggregate_write-each xs ys y msg w =
      ap (λ r. r.0) (write_each-append xs (y ∷ ys) msg w [])
      ∙ world-errors ys msg (y msg (write_each xs msg w []).0).0 _

  -- No writer fails, each on the world that those before it have left.
  abbrev pub AllWrite : List (Writer W) → LogMessage → W → Type 0
  AllWrite [] msg w = Unit
  AllWrite (y ∷ ys) msg w = ((y msg w).1 ≡ none) × AllWrite ys msg (y msg w).0

  none-AllWrite :
      (ws : List (Writer W)) (msg : LogMessage) (w : W)
      → (write_each ws msg w []).1 ≡ []
      → AllWrite ws msg w
  unfolding write_each
  none-AllWrite [] msg w h = tt
  none-AllWrite (y ∷ ws) msg w h = ground (
    arith,
    write_each-errors ws msg (y msg w).0 (add_error (y msg w).1 []),
    none-AllWrite ws msg (y msg w).0,
  )

  AllWrite-none :
      (ws : List (Writer W)) (msg : LogMessage) (w : W)
      → AllWrite ws msg w
      → (write_each ws msg w []).1 ≡ []
  unfolding write_each
  AllWrite-none [] msg w h = refl
  AllWrite-none (y ∷ ws) msg w (e, h) =
      write_each-errors ws msg (y msg w).0 (add_error (y msg w).1 [])
      ∙ rw (e, AllWrite-none ws msg (y msg w).0 h)

  -- The aggregate writer reports no error exactly when every writer succeeds, each on the world
  -- that those before it have left.
  aggregate_write-none_iff :
      (ws : List (Writer W)) (msg : LogMessage) (w : W)
      → ((aggregate_write ws msg w).1 ≡ none) ↔ AllWrite ws msg w
  unfolding aggregate_write
  aggregate_write-none_iff ws msg w =
      (λ h. none-AllWrite ws msg w (ground arith), λ h. ap first_error (AllWrite-none ws msg w h))

  -- If the writers before one succeed and that one fails, the aggregate writer reports its error,
  -- whatever the writers behind it answer.
  aggregate_write-first_failure :
      (xs ys : List (Writer W)) (y : Writer W) (msg : LogMessage) (w : W) (e : Error)
      → AllWrite xs msg w
      → (y msg (aggregate_write xs msg w).0).1 ≡ some e
      → (aggregate_write (xs ++ y ∷ ys) msg w).1 ≡ some (wrapped "writing log message" e)
  unfolding aggregate_write write_each
  aggregate_write-first_failure xs ys y msg w e before fails =
      let start = (write_each xs msg w []).0 in
      ap (λ r. first_error r.1) (write_each-append xs (y ∷ ys) msg w [])
      ∙ ap first_error (write_each-errors ys msg (y msg start).0 _)
      ∙ rw (AllWrite-none xs msg w before, fails) refl
