-- ===== src/Controllers/Tests.antt =====
-- The handlers at concrete requests, over a reader of two texts.
use mathlib.Core.List.{Memᴰ}
use coriolis_logger.Common.{
  ℕ, suc, ◌≡◌, refl, ◌↔◌, ◌⊎◌, arith, String, Bool, true, none, some, [], ◌∷◌, ◌⧺◌, pos, negsuc,
  word_mod, ◌-◌, ◌*◌, ok,
}
use coriolis_logger.Decimal.{itoa}
use coriolis_logger.Clock.{second}
use coriolis_logger.Config.{ApiServer}
use coriolis_logger.Influxdb.Query.{start_option}
use coriolis_logger.Config.Tests.{api_server}
use coriolis_logger.Http.{Request, get, Connection}
use coriolis_logger.Auth.{authenticate}
use coriolis_logger.Auth.Tests.{keystone, cfg, with_token}
use coriolis_logger.Controllers.{query_params, can_access, get_cors_checker, Library}
use coriolis_logger.Controllers.Download.{Disk}
use coriolis_logger.Controllers.Inputs.{get_cors_checker_iff}
use coriolis_logger.Controllers.Dates.{start_date-wraps}
use coriolis_logger.Controllers.Access.{IsAdmitted, authenticate-can_access_iff}

abbrev open_server : ApiServer
open_server = record api_server { cors_origins = "http://a" ∷ "http://b" ∷ [] }

get_cors_checker_iff_example :
    (check : Request → Bool) × (get_cors_checker open_server ≡ some check)
    × ((check with_token ≡ true) ↔ (
        (get "Origin" with_token.headers ≡ "")
        ⊎ (Memᴰ {A = String} "*" ("http://a" ∷ "http://b" ∷ [])
            ⊎ Memᴰ (get "Origin" with_token.headers) ("http://a" ∷ "http://b" ∷ []))))
get_cors_checker_iff_example =
    get_cors_checker_iff open_server "http://a" ("http://b" ∷ []) with_token refl

authenticate-can_access_iff_example :
    ((req' : Request) × (authenticate keystone cfg with_token ≡ ok req') × (can_access req' ≡ true))
    ↔ IsAdmitted keystone cfg with_token
authenticate-can_access_iff_example = authenticate-can_access_iff keystone cfg with_token

-- A connection and a disk that take everything; a file has the size that a count of its characters
-- gives.
abbrev net : Connection
net body s = (body ⧺ s, none)

abbrev size : String → ℕ
size String.[] = 0
size (String.◌∷◌ c s) = suc (size s)

abbrev disk : Disk
disk = record {
  temp_file = none;
  append = λ content s. none;
  size = λ content. ok (size content);
  seek = none;
}

abbrev pub lib : Library
lib = record {
  connection = net;
  disk = disk;
  printf = λ s. s;
  quote = λ s. s;
  marshal = λ logs. ok "[]";
  upgrade = λ check req w. (w, none);
}

-- A download since 5 December 2286.
abbrev since_2286 : Request
since_2286 = record with_token { query = ("start_date", itoa (pos 9999999999)) ∷ [] }

given_2286 : get "start_date" since_2286.query ≡ itoa (pos 9999999999)
unfolding get
given_2286 = refl

start_date-wraps_example :
    start_option (query_params since_2286)
    ≡ ("time >= " ⧺ itoa (negsuc (word_mod - 9999999999 * second - 1))) ∷ []
start_date-wraps_example =
    start_date-wraps since_2286 9999999999 given_2286 (omega arith) (omega arith)
