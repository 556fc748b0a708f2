-- ===== src/Config/Tests.antt =====
-- A machine with a certificate and its key, and a configuration for it.
use coriolis_logger.Common.{
  ◌≡◌, refl, ◌↔◌, String, Bool, true, false, some, [], ◌∷◌, pos, ◌==◌, if◌then◌else◌, about, Result,
  ok, err,
}
use coriolis_logger.Config.{
  Platform, Config, ApiServer, InfluxDb, Syslog, keystone_validate, tls_validate,
  api_server_validate, url_is_valid, influx_db_validate, syslog_validate, config_validate,
}
use coriolis_logger.Config.Validity.{IsValid, config_validate_iff}

abbrev stat : String → Result Bool
stat path =
    if path == "/etc/logger.crt"
    then ok false
    else if path == "/etc/logger.key"
    then ok false
    else err (about "no such file" path)

abbrev pub platform : Config → Platform
platform c = record {
  Certificate = String;
  CertPool = String;
  stat = stat;
  load_key_pair = λ crt key. ok crt;
  read_file = λ path. err (about "no such file" path);
  cert_pool = λ pem. some pem;
  abs = λ path. ok path;
  dir = λ path. "/";
  is_ip = λ address. address == "127.0.0.1";
  parse_url = λ u. ok (record { scheme = "http"; host = "localhost:8086" });
  decode_file = λ path. ok c;
}

abbrev pub influx : InfluxDb
influx = record {
  url = "http://localhost:8086";
  username = "";
  password = "";
  database = "logs";
  verify_server = false;
  ca_cert = "";
  client_crt = "";
  client_key = "";
  write_interval = pos 1;
  log_retention_period = pos 3;
}

abbrev pub api_server : ApiServer
api_server = record {
  bind = "127.0.0.1";
  port = pos 9998;
  use_tls = true;
  auth_middleware = "keystone";
  tls_config = record { crt = "/etc/logger.crt"; key = "/etc/logger.key" };
  keystone_auth = some (record { auth_uri = "http://keystone"; admin_roles = "admin" ∷ [] });
  cors_origins = [];
}

abbrev pub syslog : Syslog
syslog = record {
  listener = "udp";
  address = "127.0.0.1:5144";
  format = "automatic";
  log_to_stdout = false;
  data_store = "influxdb";
  influx_db = some influx;
}

abbrev pub config : Config
config = record { api_server = api_server; syslog = syslog }

abbrev pub machine : Platform
machine = platform config

config_validate_iff_example : (config_validate machine config ≡ ok tt) ↔ IsValid machine config
config_validate_iff_example = config_validate_iff machine config

-- This configuration passes.
api_server_passes : api_server_validate machine api_server ≡ ok tt
unfolding api_server_validate tls_validate keystone_validate
api_server_passes = refl

pub config_passes : config_validate machine config ≡ ok tt
unfolding config_validate api_server_validate tls_validate keystone_validate syslog_validate
    influx_db_validate url_is_valid
config_passes = refl
