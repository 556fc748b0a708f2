-- ===== src/Influxdb/Query/Conditions.antt =====
-- The query as a measurement with conditions, and its text.
use text.Mathlib.TextLemmas.{append-nil, append_assoc}
use coriolis_logger.Common.{
  sym, ap, String, Bool, true, false, not, ◌||◌, List, [], ◌∷◌, ◌++◌, ◌≡◌, ◌≢◌, ◌⊎◌, inl, inr,
  arith, ltb, length, map, eq_iff, if◌then◌else◌, ℤ, ◌==◌, ◌⧺◌, plain, ok, err, Bool-cases,
}
use coriolis_logger.Decimal.{itoa}
use coriolis_logger.Clock.{unix_nano}
use coriolis_logger.Params.{QueryParams}
use coriolis_logger.Influxdb.Query.{
  join, is_dated, start_option, end_option, hostname_option, query_options, prepare_query,
}

-- Bounds of the time are in nanoseconds since the epoch, and are included.
pub data Condition : Type 0 where
  since until : ℤ → Condition
  on_host : String → Condition

unfoldable pub condition_text : Condition → String
condition_text (since t) = "time >= " ⧺ itoa t
condition_text (until t) = "time <= " ⧺ itoa t
condition_text (on_host h) = "hostname='" ⧺ h ⧺ "'"

unfoldable pub where_text : List Condition → String
where_text [] = ""
where_text (c ∷ cs) = " where " ⧺ join (map condition_text (c ∷ cs)) " and "

abbrev pub optional : Bool → Condition → List Condition
optional true c = c ∷ []
optional false c = []

-- A condition for each parameter that is given.
abbrev pub conditions : QueryParams → List Condition
conditions p =
    optional (is_dated p.start_date) (since (unix_nano p.start_date))
    ++ optional (is_dated p.end_date) (until (unix_nano p.end_date))
    ++ optional (not (p.hostname == "")) (on_host p.hostname)

abbrev option : Bool → Condition → List String
option wanted c = if wanted then condition_text c ∷ [] else []

-- The two tests for a condition, that before and that after the options are made, agree.
assembled :
    (a b c : Bool) (s u h : Condition) (q : String)
    → let options = option a s ++ option b u ++ option c h in
      let q' = if a || b || c then q ⧺ " where " else q in
      (if ltb 0 (length options) then q' ⧺ join options " and " else q')
      ≡ q ⧺ where_text (optional a s ++ optional b u ++ optional c h)
unfolding where_text
assembled false false false s u h q = sym (append-nil q)
assembled a b c s u h q =
    ground (arith, append_assoc q " where " (join (option a s ++ option b u ++ option c h) " and "))

-- The query of a reader selects the measurement of its application, restricted by the conjunction
-- of one condition for each parameter that is given and by nothing if none is; without an
-- application it is refused.
pub prepare_query_lem :
    (p : QueryParams)
    → ((p.app_name ≡ "") × (prepare_query p ≡ err (plain "missing application name")))
      ⊎ ((p.app_name ≢ "")
          × (prepare_query p
              ≡ ok (
                  "select time,severity,message from \""
                  ⧺ p.app_name
                  ⧺ "\""
                  ⧺ where_text (conditions p))))
unfolding prepare_query query_options start_option end_option hostname_option condition_text
prepare_query_lem p = elim (Bool-cases (p.app_name == "")) [
  | inl missing ↦ inl ((eq_iff p.app_name "").0 missing, rw missing)
  | inr given ↦ inr (
    ground (arith, eq_iff p.app_name ""),
    rw given (
        ap ok (
          assembled (is_dated p.start_date) (is_dated p.end_date) (not (p.hostname == ""))
            (since (unix_nano p.start_date)) (until (unix_nano p.end_date)) (on_host p.hostname)
            ("select time,severity,message from \"" ⧺ p.app_name ⧺ "\""))),
  )
]
