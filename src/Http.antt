-- ===== src/Http.antt =====
-- What the handlers see of net/http: a request, and the writer of its response.
-- The first call of WriteHeader, or of Write, fixes the status and the headers.
use coriolis_logger.Common.{
  ℕ, ◌≡◌, ◌⧺◌, ◌==◌, if◌then◌else◌, String, Bool, Option, none, some, List, [], ◌∷◌, ◌++◌, Error,
}
use coriolis_logger.Logging.{lookup}
use coriolis_logger.Clock.{Time}

-- auth/auth.go: what the context holds of an authenticated user.
pub record AuthDetails : Type 0 where
  pub user_id : String
  pub is_admin : Bool
  pub expires_at : Time

-- The first value of each header and query parameter, the variables of the route, and what stands in
-- the context under AuthDetailsKey.
pub record Request : Type 0 where
  pub headers : List (String × String)
  pub query : List (String × String)
  pub vars : List (String × String)
  pub auth_details : Option AuthDetails

abbrev or_empty : Option String → String
or_empty none = ""
or_empty (some s) = s

-- `Get` of headers and of a query, and indexing of the route's variables: "" if there is none.
unfoldable pub get : String → List (String × String) → String
unfolding lookup
get k m = or_empty (lookup k m)

pub record ResponseWriter : Type 0 where
  pub status : Option ℕ
  pub headers : List (String × String)
  pub body : String

abbrev pub new_writer : ResponseWriter
new_writer = record { status = none; headers = []; body = "" }

abbrev or_status : Option ℕ → ℕ → Option ℕ
or_status none n = some n
or_status (some m) n = some m

unfoldable pub write_header : ℕ → ResponseWriter → ResponseWriter
write_header n w = record w { status = or_status w.status n }

-- The headers without one of them.
unfoldable pub without : String → List (String × String) → List (String × String)
without k [] = []
without k ((l, v) ∷ headers) =
    let rest = without k headers in if l == k then rest else (l, v) ∷ rest

-- `w.Header().Set(k, v)`, which is too late once the status is fixed.
unfoldable pub set_header : String → String → ResponseWriter → ResponseWriter
unfolding without
set_header k v w = elim w.status [
  | none ↦ record w { headers = without k w.headers ++ (k, v) ∷ [] }
  | some n ↦ w
]

-- The connection: the body after a write to it, and the error of the write.
abbrev pub Connection : Type 0
Connection = String → String → String × Option Error

-- A connection that takes all that is written.
abbrev pub IsReliable : Connection → Type 0
IsReliable net = (body s : String) → net body s ≡ (body ⧺ s, none)

-- `w.Write(s)`
unfoldable pub write : Connection → String → ResponseWriter → ResponseWriter × Option Error
unfolding write_header
write net s w = let (body, e) = net w.body s in (record (write_header 200 w) { body = body }, e)

abbrev pub status_forbidden : ℕ
status_forbidden = 403

abbrev pub status_bad_request : ℕ
status_bad_request = 400

abbrev pub status_internal_server_error : ℕ
status_internal_server_error = 500
