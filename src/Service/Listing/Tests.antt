-- ===== src/Service/Listing/Tests.antt =====
-- A server with two logs and a row without a name, and the listing of it.
use coriolis_logger.Common.{◌≡◌, refl, String, Option, none, some, false, List, [], ◌∷◌, ok}
use coriolis_logger.Config.Tests.{influx, api_server}
use coriolis_logger.Influxdb.{Store}
use coriolis_logger.Influxdb.Client.{Chunk, response, text}
use coriolis_logger.Influxdb.Listing.{none_left, one_more, blank, named, no_more, next, Listed}
use coriolis_logger.Influxdb.Tests.{library}
use coriolis_logger.Http.{Request, new_writer}
use coriolis_logger.Controllers.LogDownload.Tests.{lib}
use coriolis_logger.Auth.Tests.{keystone, cfg, with_token, context}
use coriolis_logger.Api.Routing.{Route, logs, serve}
use coriolis_logger.Service.Archive.Served.{over_store}
use coriolis_logger.Service.Archive.Tests.{router, token-known, admin_role, listed}
use coriolis_logger.Service.Listing.{serve-listed}

abbrev chunks : List Chunk
chunks =
    response (record {
      error = "";
      results = (((text "dockerd" ∷ []) ∷ [] ∷ (text "worker" ∷ []) ∷ []) ∷ []) ∷ [];
    })
    ∷ []

two_logs : Listed chunks ("dockerd" ∷ "worker" ∷ [])
two_logs =
    next refl
      (one_more (one_more (one_more named (one_more blank (one_more named none_left))) none_left)
        none_left)
      no_more

abbrev store : Store library
store = record { cfg = influx; points = []; server = []; closed = false }

abbrev list_route : Route
list_route = record { pattern = "/api/v1/logs"; method = "GET"; endpoint = logs }

abbrev matches : List Route → Request → Option (Route × List (String × String))
matches known req = some (list_route, [])

serve-listed_example :
    serve
      (over_store library lib keystone (λ e. "refused") matches (λ w. w) store)
      api_server
      0
      router
      with_token
      new_writer
    ≡ some (ok (record new_writer { status = some 200; body = "[]" }, none))
serve-listed_example =
    serve-listed library lib (λ body s. refl) keystone (λ e. "refused") matches (λ w. w) store
      router api_server cfg with_token list_route [] context "admin" 0 chunks
      ("dockerd" ∷ "worker" ∷ []) "[]" refl refl refl token-known admin_role listed refl two_logs
      refl
