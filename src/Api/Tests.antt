-- ===== src/Api/Tests.antt =====
-- A site with a route to a log, and the theorems on it.
use mathlib.Core.List.{Memᴰ}
use coriolis_logger.Common.{
  true, ◌≡◌, ◌≢◌, refl, String, none, some, List, [], ◌∷◌, eof, ok, err, panic,
}
use coriolis_logger.Config.Tests.{api_server}
use coriolis_logger.Http.{get, ResponseWriter, new_writer}
use coriolis_logger.Auth.{auth_token}
use coriolis_logger.Auth.Tests.{context, with_token, keystone, cfg, without_token}
use coriolis_logger.Controllers.Tests.{lib}
use coriolis_logger.Api.Routing.{log_file, Route, Router, Site, routes, handler_of, serve}
use coriolis_logger.Auth.Guarding.{HasToken}
use coriolis_logger.Controllers.{can_access}
use coriolis_logger.Api.Routing.Admission.{as_user, serve-admitted}
use coriolis_logger.Api.Routing.Access.{IsPermitted, serve-refused}

abbrev log_route : Route
log_route = record { pattern = "/api/v1/logs/{log}"; method = "GET"; endpoint = log_file }

-- Every request is for the log of the worker.
abbrev site : Site (List String)
site = record {
  library = lib;
  keystone = keystone;
  error_text = λ e. "refused";
  matches = λ rs req. some (log_route, ("log", "worker") ∷ []);
  not_found = λ w. w;
  listing = ok [];
  read_next = λ texts. (texts, err eof);
  result_reader = λ params. [];
}

abbrev router : Router
router = record { routes = routes; authenticator = some cfg }

sound : keystone (auth_token without_token) ≢ panic
unfolding auth_token get
sound = λ e. cc

no_token : ¬ IsPermitted keystone (some cfg) without_token
unfolding auth_token get
no_token = λ (context, has, role). has.given refl

serve-refused_example :
    (w : ResponseWriter) × (w.status ≡ some 403)
    × (serve site api_server 5 router without_token new_writer ≡ some (ok (w, none)))
serve-refused_example =
    serve-refused site api_server 5 router without_token log_route (("log", "worker") ∷ []) refl
      (λ e. cc) refl sound no_token

token-known : HasToken keystone with_token context
unfolding auth_token get
token-known = record { given = λ e. cc; answered = refl }

serve-admitted_example :
    (serve site api_server 5 router with_token new_writer
      ≡ handler_of site api_server 5 log_file
          (as_user cfg context (("log", "worker") ∷ []) with_token)
          new_writer)
    × (can_access (as_user cfg context (("log", "worker") ∷ []) with_token) ≡ true)
serve-admitted_example =
    serve-admitted site api_server 5 router cfg with_token new_writer log_route
      (("log", "worker") ∷ []) context "admin" refl refl token-known (Memᴰ.tail (Memᴰ.head refl))
      (Memᴰ.head refl)
