-- ===== src/Service/Archive/Dated/Tests.antt =====
-- The log of the worker since its second message.
use mathlib.Core.List.{append-nil}
use coriolis_logger.Common.{
  ◌≡◌, refl, sym, ap, ◌∙◌, inl, inr, arith, Bool-cases, none, some, List, [], ◌∷◌, map, ok, ◌+ℤ◌,
  ◌*ℤ◌, neg, wrap64, leb_ℤ, ◌==◌, ◌⧺◌, subst,
}
use coriolis_logger.Clock.{unix_nano}
use coriolis_logger.Clock.Laws.{nanos}
use coriolis_logger.Decimal.{parse_int, itoa, format_uint, emit, digit}
use coriolis_logger.Config.Tests.{api_server}
use coriolis_logger.Influxdb.{write, flush, point_of, point_time, on_event}
use coriolis_logger.Influxdb.Calls.{call, run}
use coriolis_logger.Influxdb.Logged.{logged_within}
use coriolis_logger.Influxdb.Query.{is_dated, join}
use coriolis_logger.Influxdb.Query.Conditions.{since, conditions, condition_text, where_text}
use coriolis_logger.Influxdb.Reader.Lines.{lines}
use coriolis_logger.Http.{Request, get, ResponseWriter, new_writer}
use coriolis_logger.Controllers.{query_params, timestamp_to_time}
use coriolis_logger.Controllers.LogDownload.{no_chunks, a_chunk, Answers}
use coriolis_logger.Controllers.LogDownload.Tests.{lib, size}
use coriolis_logger.Auth.{auth_token}
use coriolis_logger.Auth.Guarding.{HasToken}
use coriolis_logger.Auth.Tests.{keystone, cfg, with_token, context}
use coriolis_logger.Api.Routing.{serve}
use coriolis_logger.Service.Archive.{select, named, those, is_within, meets, IsAnswered}
use coriolis_logger.Service.Archive.Downloaded.{IsInRange}
use coriolis_logger.Service.Archive.Served.{over_store}
use coriolis_logger.Service.Archive.Tests.{
  Point, archive, database, store, calls, flushed, in_order, late, late_points, chosen, response_of,
  answer-Messages, log_route, matches, router, admin_role, listed,
}
use coriolis_logger.Service.Archive.Dated.{dated-served}

abbrev with_date : Request
with_date = record with_token { query = ("start_date", "1571700001") ∷ [] }

with_date-HasToken : HasToken keystone with_date context
unfolding auth_token get
with_date-HasToken = record { given = λ e. cc; answered = refl }

date_read : (timestamp_to_time (get "start_date" with_date.query)).1 ≡ none
unfolding timestamp_to_time get parse_int
date_read = refl

no_end : (timestamp_to_time (get "end_date" with_date.query)).1 ≡ none
unfolding timestamp_to_time get
no_end = refl

since_late : conditions (query_params with_date) ≡ since (nanos late) ∷ []
unfolding query_params timestamp_to_time get parse_int is_dated unix_nano neg ◌+ℤ◌ wrap64 ◌*ℤ◌
since_late = refl

with_date-IsInRange : IsInRange (query_params with_date)
unfolding query_params timestamp_to_time get parse_int is_dated ◌+ℤ◌ ◌*ℤ◌
with_date-IsInRange = record { start = λ e. omega arith; end = λ e. cc }

since_late_text : where_text (since (nanos late) ∷ []) ≡ " where time >= 1571700001000000000"
unfolding where_text condition_text join itoa ◌+ℤ◌ ◌*ℤ◌ format_uint emit digit
since_late_text = refl

late_points-those :
    (points : List Point)
    → late_points points
      ≡ those archive
          (λ p. meets (since (nanos late) ∷ []) p.3 p.2)
          (named archive (λ p. p.0) "worker" points)
late_points-those [] = refl
late_points-those (p ∷ points) = elim (Bool-cases (p.0 == "worker")) [
  | inl same ↦ elim (Bool-cases (leb_ℤ (nanos late) (nanos p.2))) [
    | inl kept ↦ rw (same, kept, late_points-those points) refl
    | inr early ↦ rw (same, early, late_points-those points) refl
  ]
  | inr other ↦ rw (other, late_points-those points) refl
]

late-IsAnswered : IsAnswered archive database "worker" (since (nanos late) ∷ [])
late-IsAnswered = λ server db ordered. (
  response_of (late_points server) ∷ [],
  map (λ p. p.1) (late_points server) ∷ [],
  ap (λ q. ok (response_of (chosen (select "worker" ⧺ q) server) ∷ [])) since_late_text,
  a_chunk (answer-Messages (late_points server)) no_chunks,
  append-nil (map (λ p. p.1) (late_points server)) ∙ ap (map (λ p. p.1)) (late_points-those server),
  omega arith,
)

date-IsAnswered : IsAnswered archive database "worker" (conditions (query_params with_date))
date-IsAnswered = subst (IsAnswered archive database "worker") (sym since_late) late-IsAnswered

-- Of the two messages of the worker, the second.
second_logged :
    logged_within archive "worker" (is_within (query_params with_date)) calls store ≡ "two" ∷ []
unfolding call write flush point_of point_time on_event query_params timestamp_to_time get parse_int
    is_dated neg ◌+ℤ◌ ◌*ℤ◌
second_logged = refl

dated-served_example :
    (w : ResponseWriter) × (serve
        (over_store archive lib keystone
          (λ e. "refused")
          matches
          (λ w. w)
          (run archive calls store))
        api_server
        6
        router
        with_date
        new_writer
      ≡ some (ok (w, none)))
    × Answers "worker"
        (lines (logged_within archive "worker" (is_within (query_params with_date)) calls store))
        w
unfolding get
dated-served_example =
    dated-served archive database lib size (λ body s. refl)
      (record {
        creates = refl;
        appends = λ content s. refl;
        sizes = λ content. refl;
        seeks = refl;
      })
      keystone (λ e. "refused") matches (λ w. w) calls store router api_server cfg with_date
      log_route (("log", "worker") ∷ []) context "admin" 6 refl refl (tt, (tt, (tt, (tt, tt))))
      flushed in_order refl refl refl with_date-HasToken admin_role listed (λ e. cc) date_read
      no_end with_date-IsInRange date-IsAnswered (omega arith)
