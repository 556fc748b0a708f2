-- ===== src/Service/Archive/Tests.antt =====
-- A database that keeps its points in a list, and a log that is written to it and downloaded.
use mathlib.Core.List.{append-nil, Memᴰ}
use package.text.Mathlib.TextLemmas.{append_cancel_left, append_cancel_right}
use Prim.Native.Char.{code}
use package.text.Mathlib.TextLemmas.{cons-append}
use coriolis_logger.Common.{
  Bool, true, eqb, leb_ℤ, ◌⧺◌, ◌&&◌, ◌≡◌, refl, sym, ap, ◌∙◌, inl, inr, arith, String, false,
  Bool-cases, Option, none, some, Error, ok_injective, List, [], ◌∷◌, ◌++◌, map, if◌then◌else◌,
  ◌==◌, eq_iff, pos, ◌+ℤ◌, ◌*ℤ◌, ok,
}
use coriolis_logger.Clock.{Time, unix, zero_time}
use coriolis_logger.Logging.{LogMessage, rfc5424, lookup}
use coriolis_logger.Clock.Laws.{nanos}
use coriolis_logger.Config.Tests.{influx}
use coriolis_logger.Influxdb.{Store, tick, write, flush, point_of, point_time, on_event}
use coriolis_logger.Influxdb.Client.{given, Library, Storage, Chunk, response, text, other, Row}
use coriolis_logger.Influxdb.Calls.{Call, writes, receives, call, run, accepted}
use coriolis_logger.Influxdb.Logged.{logged}
use coriolis_logger.Influxdb.Reader.Lines.{Messages, no_rows, a_row, rows_of}
use coriolis_logger.Http.{Request, get}
use coriolis_logger.Controllers.LogDownload.{no_chunks, a_chunk}
use coriolis_logger.Auth.{auth_token}
use coriolis_logger.Auth.Guarding.{HasToken}
use coriolis_logger.Auth.Tests.{keystone, cfg, with_token, context}
use coriolis_logger.Api.Routing.{Route, Router, log_file, routes}
use coriolis_logger.Service.Archive.{IsPlain, select, IsChronological, named, Database}

abbrev pub Point : Type 0
Point = String × String × Time × String

abbrev measurement : Point → String
measurement p = p.0

abbrev message_field : List (String × String) → String
message_field [] = ""
message_field ((key, value) ∷ fields) = value

-- The points that a query selects.
abbrev pub selected : String → List Point → List Point
selected q [] = []
selected q (p ∷ points) =
    let rest = selected q points in if select (measurement p) == q then p ∷ rest else rest

abbrev pub row : Point → Row
row p = other ∷ other ∷ text p.1 ∷ []

-- The last character is a quote, as in a query without conditions.
abbrev pub ends_in_quote : String → Bool
ends_in_quote String.[] = false
ends_in_quote (String.◌∷◌ c String.[]) = eqb (code c) b'"'
ends_in_quote (String.◌∷◌ c (String.◌∷◌ d s)) = ends_in_quote (String.◌∷◌ d s)

ends_in_quote-append : (s : String) → ends_in_quote (s ⧺ "\"") ≡ true
ends_in_quote-append String.[] = refl
ends_in_quote-append (String.◌∷◌ c String.[]) = rw cons-append refl
ends_in_quote-append (String.◌∷◌ c (String.◌∷◌ d s)) =
    rw (cons-append, cons-append) (rw cons-append at (ends_in_quote-append (String.◌∷◌ d s)))

-- Any query with conditions is answered as that for the worker since the second message.
abbrev pub late : Time
late = unix (pos 1571700001)

abbrev pub late_points : List Point → List Point
late_points [] = []
late_points (p ∷ points) =
    let rest = late_points points in
    if p.0 == "worker" && leb_ℤ (nanos late) (nanos p.2) then p ∷ rest else rest

abbrev pub chosen : String → List Point → List Point
chosen q server = if ends_in_quote q then selected q server else late_points server

abbrev pub archive : Library
archive = record {
  Point = Point;
  Server = List Point;
  new_point = λ name tags fields t. given (name, message_field fields, t, get "hostname" tags);
  new_batch_points = λ database precision. given tt;
  write = λ server database points. (server ++ points, none);
  query = λ server q database. (server, ok "");
  query_as_chunk = λ server q database chunk_size.
      ok (response (record { error = ""; results = (map row (chosen q server) ∷ []) ∷ [] }) ∷ []);
}

select-eq : (a b : String) → (select a == select b) ≡ (a == b)
select-eq a b = elim (Bool-cases (select a == select b)) [
  | inl same ↦
      let e = (eq_iff (select a) (select b)).0 same in
      let a_b = append_cancel_left _ a b (append_cancel_right _ _ "\"" e) in
      same ∙ sym ((eq_iff a b).1 a_b)
  | inr apart ↦ ground (arith, eq_iff a b, eq_iff (select a) (select b), ap select {x = a} {y = b})
]

selected-named :
    (name : String) (points : List Point)
    → selected (select name) points ≡ named archive measurement name points
selected-named name [] = refl
selected-named name (p ∷ points) =
    rw (select-eq (measurement p) name, selected-named name points) refl

map-row-Messages : (points : List Point) → Messages (map row points) (map (λ p. p.1) points)
map-row-Messages [] = no_rows
map-row-Messages (p ∷ points) = a_row (map-row-Messages points)

-- The one response to a query, of the points that it selects.
pub answer-Messages :
    (points : List Point) → Messages (rows_of ((map row points ∷ []) ∷ [])) (map (λ p. p.1) points)
answer-Messages points =
    rw (append-nil (map row points), append-nil (map row points)) (map-row-Messages points)

pub chosen-named :
    (name : String) (points : List Point)
    → chosen (select name) points ≡ named archive measurement name points
chosen-named name points =
    rw (ends_in_quote-append ("select time,severity,message from \"" ⧺ name))
      (selected-named name points)

abbrev pub response_of : List Point → Chunk
response_of points = response (record { error = ""; results = (map row points ∷ []) ∷ [] })

pub a_failure : {e : Error} → ◌≡◌ {A = Option Error} none (some e) → ⊥
a_failure h = cc

abbrev storage : Storage archive
storage = record {
  stored = λ server. server;
  write_ok = λ server database points e. refl;
  write_failed = λ server database points e h. absurd (a_failure h);
}

pub point-eq : {p q : Point} → ok p ≡ ok q → (p.0 ≡ q.0) × (p.1 ≡ q.1) × (p.2 ≡ q.2) × (p.3 ≡ q.3)
point-eq {p} {q} e =
    let h : p ≡ q = ok_injective e in
    (ap (λ x. x.0) h, ap (λ x. x.1) h, ap (λ x. x.2) h, ap (λ x. x.3) h)

pub get-lookup :
    (tags : List (String × String)) (h : String)
    → lookup "hostname" tags ≡ some h
    → get "hostname" tags ≡ h
unfolding get
get-lookup tags h known = rw known refl

abbrev pub database : Database archive
database = record {
  storage = storage;
  measurement = measurement;
  text = λ p. p.1;
  time = λ p. p.2;
  host = λ p. p.3;
  new_point_known = λ name tags message t p e.
      let (by, called, at, on) = point-eq e in
      (sym by, sym called, sym at, λ h known. sym on ∙ get-lookup tags h known);
  answers = λ server database name plain ordered. (
    response_of (chosen (select name) server) ∷ [],
    map (λ p. p.1) (chosen (select name) server) ∷ [],
    refl,
    a_chunk (answer-Messages (chosen (select name) server)) no_chunks,
    append-nil (map (λ p. p.1) (chosen (select name) server))
        ∙ ap (map (λ p. p.1)) (chosen-named name server),
    omega arith,
  );
}

abbrev message : String → String → LogMessage
message app s = record {
  timestamp = unix (pos 1571700000);
  hostname = "node";
  priority = pos 30;
  facility = pos 3;
  severity = pos 6;
  app_name = app;
  proc_id = pos 0;
  message = s;
  rfc = rfc5424;
}

-- A second message a second later, and one of another application.
abbrev pub calls : List Call
calls =
    writes (message "worker" "one") zero_time
    ∷ receives tick
    ∷ writes (message "dockerd" "up") zero_time
    ∷ writes (record (message "worker" "two") { timestamp = unix (pos 1571700001) }) zero_time
    ∷ []

abbrev pub store : Store archive
store = record { cfg = influx; points = []; server = []; closed = false }

pub flushed : (flush archive (run archive calls store)).1 ≡ ok tt
unfolding run call write flush point_of on_event
flushed = refl

pub in_order :
    IsChronological
      (map (λ p. p.2) (named archive measurement "worker" (accepted archive calls store)))
unfolding accepted call write flush point_of on_event point_time ◌+ℤ◌ ◌*ℤ◌
in_order = (omega arith, (tt, tt))

-- The two messages of the worker.
two_logged : logged archive "worker" calls store ≡ "one" ∷ "two" ∷ []
unfolding call write flush point_of on_event
two_logged = refl

pub worker-IsPlain : IsPlain "worker"
worker-IsPlain = omega arith

abbrev pub log_route : Route
log_route = record { pattern = "/api/v1/logs/{log}"; method = "GET"; endpoint = log_file }

abbrev pub matches : List Route → Request → Option (Route × List (String × String))
matches known req = some (log_route, ("log", "worker") ∷ [])

abbrev pub router : Router
router = record { routes = routes; authenticator = some cfg }

pub token-known : HasToken keystone with_token context
unfolding auth_token get
token-known = record { given = λ e. cc; answered = refl }

pub admin_role : Memᴰ {A = String} "admin" context.roles
admin_role = Memᴰ.tail (Memᴰ.head refl)

pub listed : Memᴰ {A = String} "admin" cfg.admin_roles
listed = Memᴰ.head refl
