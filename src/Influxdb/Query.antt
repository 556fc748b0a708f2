-- ===== src/Influxdb/Query.antt =====
-- `prepareQuery` of datastore/influxdb/influxdb.go: the text of the query that a reader sends.
pub mod Conditions
use coriolis_logger.Common.{
  ℕ, String, Bool, not, ◌||◌, List, [], ◌∷◌, ◌++◌, length, ltb, if◌then◌else◌, ◌==◌, ◌⧺◌, plain,
  Result, ok, err,
}
use coriolis_logger.Decimal.{itoa}
use coriolis_logger.Clock.{Time, zero_time, equal, unix_nano}
use coriolis_logger.Params.{QueryParams}

-- `strings.Join`
unfoldable pub join : List String → String → String
join [] sep = ""
join (s ∷ []) sep = s
join (s ∷ t ∷ ss) sep = s ⧺ sep ⧺ join (t ∷ ss) sep

unfoldable pub is_dated : Time → Bool
is_dated t = not (equal t zero_time)

unfoldable pub start_option : QueryParams → List String
start_option p =
    if is_dated p.start_date then ("time >= " ⧺ itoa (unix_nano p.start_date)) ∷ [] else []

unfoldable pub end_option : QueryParams → List String
end_option p = if is_dated p.end_date then ("time <= " ⧺ itoa (unix_nano p.end_date)) ∷ [] else []

unfoldable pub hostname_option : QueryParams → List String
hostname_option p = if not (p.hostname == "") then ("hostname='" ⧺ p.hostname ⧺ "'") ∷ [] else []

unfoldable pub query_options : QueryParams → List String
query_options p = start_option p ++ end_option p ++ hostname_option p

unfoldable pub prepare_query : QueryParams → Result String
prepare_query p =
    let select = "select time,severity,message from \"" ⧺ p.app_name ⧺ "\"" in
    let q =
      if is_dated p.start_date || is_dated p.end_date || not (p.hostname == "")
      then select ⧺ " where "
      else select in
    let options = query_options p in
    if p.app_name == ""
    then err (plain "missing application name")
    else ok (if ltb 0 (length options) then q ⧺ join options " and " else q)
