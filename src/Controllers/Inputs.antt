-- ===== src/Controllers/Inputs.antt =====
-- What the handlers make of the texts in a request: severities, dates and origins.
use mathlib.Core.List.{Memᴰ}
use coriolis_logger.Common.{
  ℕ, ◌≤◌, ◌≡◌, ◌≢◌, refl, sym, ◌↔◌, ◌⊎◌, inl, inr, arith, String, Bool, true, Option, none, some,
  List, [], ◌∷◌, if◌then◌else◌, ℤ, pos, ◌≤ℤ◌, IsInt64, ◌==◌, eq_iff, Bool-cases, about,
}
use coriolis_logger.Decimal.{itoa, parse_int, NumError}
use coriolis_logger.Decimal.RoundTrip.{parse_int-itoa}
use coriolis_logger.Clock.{unix}
use coriolis_logger.Logging.{severity_string, emergency, debug}
use coriolis_logger.Config.{ApiServer}
use coriolis_logger.Http.{Request, get}
use coriolis_logger.Controllers.{
  origin_check, severity_of, get_severity, is_allowed, get_cors_checker, timestamp_to_time,
}

severity_of_range :
    (text : String) (r : ℤ × Option NumError)
    → (emergency ≤ℤ (severity_of text r).0) × ((severity_of text r).0 ≤ℤ debug)
severity_of_range text (n, some e) = ground arith
severity_of_range text (n, none) = ground arith

-- For every text the value of getSeverity lies between emergency and debug.
get_severity_range :
    (text : String) → (emergency ≤ℤ (get_severity text).0) × ((get_severity text).0 ≤ℤ debug)
unfolding get_severity
get_severity_range text = ground (arith, severity_of_range text (parse_int text))

itoa-ne-nil : (a : ℤ) → IsInt64 a → itoa a ≢ ""
unfolding parse_int
itoa-ne-nil a h e = cc (rw e at (parse_int-itoa a h))

-- The print of a severity from 0 to 7 is read back as that severity without an error.
get_severity-severity_string :
    (n : ℕ) → n ≤ 7 → get_severity (severity_string (pos n)) ≡ (pos n, none)
unfolding get_severity
get_severity-severity_string n h =
    let fits : IsInt64 (pos n) = omega arith in
    ground (arith, parse_int-itoa (pos n) fits, itoa-ne-nil (pos n) fits, eq_iff (itoa (pos n)) "")

severity_of_error :
    (text : String) (r : ℤ × Option NumError)
    → r.1 ≢ none
    → severity_of text r ≡ (emergency, some (about "invalid severity" text))
severity_of_error text (n, some e) h = refl
severity_of_error text (n, none) h = absurd (h refl)

-- A nonempty text that is no number is answered with the value 0, emergency, beside the error.
get_severity_invalid :
    (text : String)
    → text ≢ ""
    → (parse_int text).1 ≢ none
    → get_severity text ≡ (emergency, some (about "invalid severity" text))
unfolding get_severity
get_severity_invalid text h e =
    ground (arith, eq_iff text "", severity_of_error text (parse_int text) e)

-- The print of an int64 is read by timestampToTime as that Unix time, without an error.
pub timestamp_to_time-itoa : (a : ℤ) → IsInt64 a → timestamp_to_time (itoa a) ≡ (unix a, none)
unfolding timestamp_to_time
timestamp_to_time-itoa a h = ground (arith, parse_int-itoa a h, itoa-ne-nil a h, eq_iff (itoa a) "")

is_allowed_sound :
    (origins : List String) (origin : String)
    → is_allowed origins origin ≡ true
    → Memᴰ "*" origins ⊎ Memᴰ origin origins
unfolding is_allowed
is_allowed_sound [] origin h = cc
is_allowed_sound (val ∷ origins) origin h = elim (Bool-cases (val == "*")) [
  | inl star ↦ inl (Memᴰ.head (sym ((eq_iff val "*").0 star)))
  | inr other ↦ elim (Bool-cases (val == origin)) [
    | inl same ↦ inr (Memᴰ.head (sym ((eq_iff val origin).0 same)))
    | inr differs ↦ elim (is_allowed_sound origins origin (rw (other, differs, is_allowed) at h)) [
      | inl m ↦ inl (Memᴰ.tail m)
      | inr m ↦ inr (Memᴰ.tail m)
    ]
  ]
]

star-is_allowed :
    (origins : List String) (origin : String) → Memᴰ "*" origins → is_allowed origins origin ≡ true
unfolding is_allowed
star-is_allowed [] origin h = elim h [ ]
star-is_allowed (val ∷ origins) origin (Memᴰ.head e) = ground (arith, eq_iff val "*")
star-is_allowed (val ∷ origins) origin (Memᴰ.tail m) =
    ground (arith, star-is_allowed origins origin m)

mem-is_allowed :
    (origins : List String) (origin : String)
    → Memᴰ origin origins
    → is_allowed origins origin ≡ true
unfolding is_allowed
mem-is_allowed [] origin h = elim h [ ]
mem-is_allowed (val ∷ origins) origin (Memᴰ.head e) = ground (arith, eq_iff val origin)
mem-is_allowed (val ∷ origins) origin (Memᴰ.tail m) =
    ground (arith, mem-is_allowed origins origin m)

-- With a nonempty list of origins, the checker lets a request through exactly when the request
-- names no origin or the list has a star or its origin.
pub get_cors_checker_iff :
    (cfg : ApiServer) (first : String) (others : List String) (req : Request)
    → cfg.cors_origins ≡ first ∷ others
    → (check : Request → Bool) × (get_cors_checker cfg ≡ some check)
      × ((check req ≡ true) ↔ (
          (get "Origin" req.headers ≡ "")
          ⊎ (Memᴰ "*" (first ∷ others) ⊎ Memᴰ (get "Origin" req.headers) (first ∷ others))))
unfolding get_cors_checker
get_cors_checker_iff cfg first others req e =
    let origin = get "Origin" req.headers in
    (origin_check (first ∷ others), rw (e, get_cors_checker) refl, (sound origin, complete origin))
  where
    test : String → Bool
    test origin = if origin == "" then true else is_allowed (first ∷ others) origin

    sound :
        (origin : String)
        → test origin ≡ true
        → (origin ≡ "") ⊎ (Memᴰ "*" (first ∷ others) ⊎ Memᴰ origin (first ∷ others))
    sound origin h = elim (Bool-cases (origin == "")) [
      | inl empty ↦ inl ((eq_iff origin "").0 empty)
      | inr given ↦ inr (is_allowed_sound (first ∷ others) origin (rw given at h))
    ]

    complete :
        (origin : String)
        → (origin ≡ "") ⊎ (Memᴰ "*" (first ∷ others) ⊎ Memᴰ origin (first ∷ others))
        → test origin ≡ true
    complete origin (inl empty) = ground (arith, eq_iff origin "")
    complete origin (inr (inl m)) = ground (arith, star-is_allowed (first ∷ others) origin m)
    complete origin (inr (inr m)) = ground (arith, mem-is_allowed (first ∷ others) origin m)
