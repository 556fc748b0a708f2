-- ===== src/Controllers/Dates.antt =====
-- Dates of a request outside the range of UnixNano.
use coriolis_logger.Common.{
  ℕ, ◌≤◌, ◌-◌, ◌*◌, ◌≡◌, refl, ap, ◌∙◌, arith, true, [], ◌∷◌, ◌⧺◌, pos, negsuc, word_mod, wrap64,
  ◌+ℤ◌, ◌*ℤ◌,
}
use coriolis_logger.Decimal.{itoa}
use coriolis_logger.Clock.{unix, second, unix_nano}
use coriolis_logger.Influxdb.Query.{is_dated, start_option}
use coriolis_logger.Http.{Request, get}
use coriolis_logger.Controllers.{query_params, timestamp_to_time}
use coriolis_logger.Controllers.Inputs.{timestamp_to_time-itoa}

unix_nano-wraps :
    (n : ℕ)
    → 9223372037 ≤ n
    → n ≤ 18446744073
    → unix_nano (unix (pos n)) ≡ negsuc (word_mod - n * second - 1)
unfolding unix_nano wrap64 ◌+ℤ◌ ◌*ℤ◌
unix_nano-wraps n h k = ground arith

unix-is_dated : (n : ℕ) → is_dated (unix (pos n)) ≡ true
unfolding is_dated
unix-is_dated n = ground arith

-- A download whose start date is the number of a second between the last one in the range of
-- UnixNano, in the year 2262, and the end of the unsigned 64-bit nanoseconds asks the server for
-- the points since a time before 1970.
pub start_date-wraps :
    (req : Request) (n : ℕ)
    → get "start_date" req.query ≡ itoa (pos n)
    → 9223372037 ≤ n
    → n ≤ 18446744073
    → start_option (query_params req)
      ≡ ("time >= " ⧺ itoa (negsuc (word_mod - n * second - 1))) ∷ []
unfolding start_option query_params
start_date-wraps req n given h k =
    let e =
      ap (λ t. (timestamp_to_time t).0) given
      ∙ ap (λ p. p.0) (timestamp_to_time-itoa (pos n) (omega arith)) in
    rw (e, unix-is_dated n, unix_nano-wraps n h k) refl
