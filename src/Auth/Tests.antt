-- ===== src/Auth/Tests.antt =====
-- A keystone that knows one token, and the theorems on it.
use coriolis_logger.Common.{none, [], ◌∷◌, ◌==◌, if◌then◌else◌, about, ok, err}
use coriolis_logger.Clock.{unix}
use coriolis_logger.Common.{pos}
use coriolis_logger.Config.{KeystoneAuth}
use coriolis_logger.Http.{Request}
use coriolis_logger.Auth.{Keystone, KeystoneContext}

abbrev pub context : KeystoneContext
context = record {
  user_id = "u1";
  roles = "member" ∷ "admin" ∷ [];
  expires_at = unix (pos 1571700000);
}

abbrev pub keystone : Keystone
keystone token = if token == "t1" then ok context else err (about "no such token" token)

abbrev pub cfg : KeystoneAuth
cfg = record { auth_uri = "http://keystone"; admin_roles = "admin" ∷ [] }

-- A request with a token in its header, and one with none.
abbrev pub with_token : Request
with_token = record {
  headers = ("X-Auth-Token", "t1") ∷ [];
  query = [];
  vars = ("log", "worker") ∷ [];
  auth_details = none;
}

abbrev pub without_token : Request
without_token = record with_token { headers = [] }
