-- ===== src/Config.antt =====
-- config/config.go: the configuration and its validation.
-- What the checks ask of the machine (files, certificates, the parsers of addresses and of the toml
-- file) is the parameter `Platform`; the code asks it only for what stands in the fields here.
pub mod Validity
pub mod Tests
use coriolis_logger.Common.{
  ℕ, String, Bool, true, false, not, ◌&&◌, ◌||◌, Option, none, some, List, [], ◌∷◌, if◌then◌else◌,
  ℤ, pos, ltb_ℤ, eqb_ℤ, ◌==◌, ◌⧺◌, Error, plain, about, Result, ok, err, panic, ◌>>=◌, ◌>>◌, guard,
  wrap,
}

-- DatastoreType and ListenerType are strings; so are the names of the middlewares.
abbrev pub unix_dgram_listener : String
unix_dgram_listener = "unixgram"

abbrev pub tcp_listener : String
tcp_listener = "tcp"

abbrev pub udp_listener : String
udp_listener = "udp"

abbrev pub influxdb_datastore : String
influxdb_datastore = "influxdb"

abbrev pub stdout_datastore : String
stdout_datastore = "stdout"

abbrev pub authentication_keystone : String
authentication_keystone = "keystone"

abbrev pub authentication_none : String
authentication_none = "none"

abbrev pub default_log_retention_period : ℤ
default_log_retention_period = pos 3

pub record TlsConfig : Type 0 where
  pub crt : String
  pub key : String

pub record KeystoneAuth : Type 0 where
  pub auth_uri : String
  pub admin_roles : List String

pub record ApiServer : Type 0 where
  pub bind : String
  pub port : ℤ
  pub use_tls : Bool
  pub auth_middleware : String
  pub tls_config : TlsConfig
  pub keystone_auth : Option KeystoneAuth
  pub cors_origins : List String

pub record InfluxDb : Type 0 where
  pub url : String
  pub username : String
  pub password : String
  pub database : String
  pub verify_server : Bool
  pub ca_cert : String
  pub client_crt : String
  pub client_key : String
  pub write_interval : ℤ
  pub log_retention_period : ℤ

pub record Syslog : Type 0 where
  pub listener : String
  pub address : String
  pub format : String
  pub log_to_stdout : Bool
  pub data_store : String
  pub influx_db : Option InfluxDb

pub record Config : Type 0 where
  pub api_server : ApiServer
  pub syslog : Syslog

-- The formats of the syslog server's library.
pub data LogFormat : Type 0 where
  automatic rfc3164 rfc5424 rfc6587 : LogFormat

pub record Url : Type 0 where
  pub scheme : String
  pub host : String

pub record Platform : Type 1 where
  pub Certificate : Type 0
  pub CertPool : Type 0
  -- os.Stat: whether the file is a socket
  pub stat : String → Result Bool
  -- tls.LoadX509KeyPair
  pub load_key_pair : String → String → Result Certificate
  -- ioutil.ReadFile
  pub read_file : String → Result String
  -- x509: a new pool with the certificates of a PEM text
  pub cert_pool : String → Option CertPool
  -- filepath.Abs and filepath.Dir
  pub abs : String → Result String
  pub dir : String → String
  -- net.ParseIP: whether the text is an address
  pub is_ip : String → Bool
  -- url.Parse
  pub parse_url : String → Result Url
  -- toml.DecodeFile
  pub decode_file : String → Result Config

-- `s.LogFormat()`
unfoldable pub log_format : Syslog → Result LogFormat
log_format s =
    if s.format == "automatic"
    then ok automatic
    else if s.format == "rfc3164"
    then ok rfc3164
    else if s.format == "rfc5424"
    then ok rfc5424
    else if s.format == "rfc6587"
    then ok rfc6587
    else err (about "invalid log format" s.format)

unfoldable pub get_log_retention : InfluxDb → ℤ
get_log_retention i =
    if eqb_ℤ i.log_retention_period (pos 0)
    then default_log_retention_period
    else i.log_retention_period

-- `k.Validate()`
unfoldable pub keystone_validate : KeystoneAuth → Result (Unit {0})
keystone_validate k = guard (not (k.auth_uri == "")) (plain "missing keystone auth_uri")

module _ (p : Platform) where
  open p use {
    Certificate, CertPool, stat, load_key_pair, read_file, cert_pool, abs, dir, is_ip, parse_url,
    decode_file,
  }

  -- The fields that are set of a tls.Config: the authorities for the certificates of clients, a
  -- certificate, and whether clients have to have a valid one.
  pub record ClientTls : Type 0 where
    pub client_cas : Option CertPool
    pub certificate : Option Certificate
    pub verifies_clients : Bool

  -- `t.Validate()`
  unfoldable pub tls_validate : TlsConfig → Result (Unit {0})
  tls_validate t = do
    guard (not (t.crt == "" || t.key == "")) (plain "missing crt or key")
    _ ← wrap ("failed to access " ⧺ t.crt) (stat t.crt)
    _ ← wrap ("failed to access " ⧺ t.key) (stat t.key)
    _ ← wrap "loading X509 key pair" (load_key_pair t.crt t.key)
    ok tt

  auth_validate : ApiServer → Result (Unit {0})
  auth_validate a =
      if a.auth_middleware == authentication_keystone
      then elim a.keystone_auth [
        | none ↦ err (plain "keystone authentication enabled, but missing keystone config section")
        | some k ↦ wrap "validating keystone config" (keystone_validate k)
      ]
      else if a.auth_middleware == authentication_none
      then ok tt
      else err (plain "no authentication is enabled")

  -- `a.Validate()`
  unfoldable pub api_server_validate : ApiServer → Result (Unit {0})
  unfolding auth_validate
  api_server_validate a = do
    auth_validate a
    if a.use_tls then wrap "TLS validation failed" (tls_validate a.tls_config) else ok tt
    guard (not (ltb_ℤ (pos 65535) a.port || ltb_ℤ a.port (pos 1))) (plain "invalid port nr")
    guard (is_ip a.bind) (plain "invalid IP address")

  -- `i.IsValid()` of an InfluxURL
  unfoldable pub url_is_valid : String → Bool
  url_is_valid u = elim (parse_url u) [
    | ok url ↦ (url.scheme == "http" || url.scheme == "https") && not (url.host == "")
    | err e ↦ false
    | panic ↦ false
  ]

  -- `i.IsSSL()` of an InfluxURL
  unfoldable pub is_ssl : String → Bool
  is_ssl u = elim (parse_url u) [ ok url ↦ url.scheme == "https" | _ ↦ false ]

  -- The certificates of `i.CACert`, if it is given.
  roots_of : String → Result (Option CertPool)
  roots_of ca_cert =
      if ca_cert == ""
      then ok none
      else (read_file ca_cert >>= λ pem. elim (cert_pool pem) [
        | none ↦ err (plain "failed to parse CA cert")
        | some roots ↦ ok (some roots)
      ])

  -- `i.TLSConfig()`, with nil for `none`.
  unfoldable pub tls_config : InfluxDb → Result (Option ClientTls)
  unfolding roots_of
  tls_config i =
      if i.ca_cert == "" && i.client_crt == "" && i.client_key == ""
      then ok none
      else (roots_of i.ca_cert >>= λ roots.
          (if not (i.client_key == "") && not (i.client_crt == "")
            then (load_key_pair i.client_crt i.client_key >>= λ pair. ok (some pair))
            else ok none)
          >>= λ pair. ok (
              some (record {
                client_cas = roots;
                certificate = pair;
                verifies_clients = i.verify_server;
              })))

  -- `i.Validate()` of an InfluxDB
  unfoldable pub influx_db_validate : InfluxDb → Result (Unit {0})
  influx_db_validate i = do
    guard (url_is_valid i.url) (about "invalid InfluxDB URL" i.url)
    guard (not (i.database == "")) (plain "invalid database name")

  store_validate : Syslog → Result (Unit {0})
  store_validate s =
      if s.data_store == influxdb_datastore
      then elim s.influx_db [
        | none ↦ err (plain "no influxdb config found")
        | some i ↦ wrap "validating influxdb" (influx_db_validate i)
      ]
      else if s.data_store == stdout_datastore
      then ok tt
      else err (about "invalid datastore type" s.data_store)

  -- A file that is there already has to be a socket.
  socket_or_absent : String → Result (Unit {0})
  socket_or_absent path = elim (stat path) [
    | ok is_socket ↦
        guard is_socket (about "cannot use as address. File already exists and is not socket" path)
    | err e ↦ ok tt
    | panic ↦ ok tt
  ]

  address_validate : String → Result (Unit {0})
  unfolding socket_or_absent
  address_validate address = do
    path ← wrap "getting dirname" (abs address)
    _ ← wrap "fetching info about dirname" (stat (dir path))
    socket_or_absent address

  listener_validate : Syslog → Result (Unit {0})
  unfolding address_validate
  listener_validate s =
      if s.listener == unix_dgram_listener
      then address_validate s.address
      else if s.listener == tcp_listener || s.listener == udp_listener
      then ok tt
      else err (about "invalid listener type" s.listener)

  -- `s.Validate()`
  unfoldable pub syslog_validate : Syslog → Result (Unit {0})
  unfolding store_validate listener_validate
  syslog_validate s = do store_validate s; listener_validate s

  -- `c.Validate()`
  unfoldable pub config_validate : Config → Result (Unit {0})
  config_validate c = do api_server_validate c.api_server; syslog_validate c.syslog

  unfoldable pub new_config : String → Result Config
  new_config path = do config ← decode_file path; config_validate config; ok config
