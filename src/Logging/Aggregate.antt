-- ===== src/Logging/Aggregate.antt =====
-- logging/logging.go: the writer that hands each message to every configured writer.
pub mod Delivery
use coriolis_logger.Common.{
  ◌≡◌, refl, Option, none, some, List, [], ◌∷◌, ◌++◌, Error, wrapped, ap, All, ◌↔◌,
}
use coriolis_logger.Logging.{LogMessage}

-- What a writer writes to is part of the world `W`.
abbrev pub Writer {ℓ} : Type ℓ → Type ℓ
Writer W = LogMessage → W → W × Option Error

abbrev add_error : Option Error → List Error → List Error
add_error none errs = errs
add_error (some e) errs = errs ++ e ∷ []

abbrev pub first_error : List Error → Option Error
first_error [] = none
first_error (e ∷ errs) = some (wrapped "writing log message" e)

module _ {ℓ} {W : Type ℓ} where
  -- The loop over the writers; the errors stand in the order in which they came.
  unfoldable pub write_each : List (Writer W) → LogMessage → W → List Error → W × List Error
  write_each [] msg w errs = (w, errs)
  write_each (writer ∷ writers) msg w errs =
      let (w', e) = writer msg w in write_each writers msg w' (add_error e errs)

  unfoldable pub aggregate_write : List (Writer W) → Writer W
  aggregate_write writers msg w =
      let (w', errs) = write_each writers msg w [] in (w', first_error errs)
