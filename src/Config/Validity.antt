-- ===== src/Config/Validity.antt =====
-- config/config.go: which configurations pass, said without the code.
use coriolis_logger.Common.{
  String, true, false, some, ◌≡◌, ◌≢◌, refl, ◌↔◌, ◌⊎◌, inl, inr, arith, pos, ◌≤ℤ◌, ◌==◌, eq_iff,
  is_ok, ok_of_is_ok, ok, Option-cases, Bool-cases,
}
use coriolis_logger.Config.{
  Platform, TlsConfig, KeystoneAuth, ApiServer, InfluxDb, Syslog, Config, Url, keystone_validate,
  tls_validate, auth_validate, api_server_validate, url_is_valid, influx_db_validate,
  store_validate, address_validate, listener_validate, syslog_validate, config_validate,
}

-- The authentication is chosen, and keystone has its address.
abbrev pub AuthIsValid : ApiServer → Type 0
AuthIsValid a =
    ((a.auth_middleware ≡ "keystone")
      × ((k : KeystoneAuth) × (a.keystone_auth ≡ some k) × (k.auth_uri ≢ "")))
    ⊎ (a.auth_middleware ≡ "none")

module _ (p : Platform) where
  open p use {stat, load_key_pair, abs, dir, is_ip, parse_url}

  pub record TlsIsValid (t : TlsConfig) : Type 0 where
    pub crt : t.crt ≢ ""
    pub key : t.key ≢ ""
    pub crt_there : is_ok (stat t.crt) ≡ true
    pub key_there : is_ok (stat t.key) ≡ true
    pub pair : is_ok (load_key_pair t.crt t.key) ≡ true

  pub record ApiServerIsValid (a : ApiServer) : Type 0 where
    pub auth : AuthIsValid a
    pub tls : a.use_tls ≡ true → TlsIsValid a.tls_config
    pub port_low : pos 1 ≤ℤ a.port
    pub port_high : a.port ≤ℤ pos 65535
    pub bind : is_ip a.bind ≡ true

  pub record InfluxDbIsValid (i : InfluxDb) : Type 0 where
    pub url :
        (u : Url) × (parse_url i.url ≡ ok u)
        × ((u.scheme ≡ "http") ⊎ (u.scheme ≡ "https"))
        × (u.host ≢ "")
    pub database : i.database ≢ ""

  abbrev pub StoreIsValid : Syslog → Type 0
  StoreIsValid s =
      ((s.data_store ≡ "influxdb") × ((i : InfluxDb) × (s.influx_db ≡ some i) × InfluxDbIsValid i))
      ⊎ (s.data_store ≡ "stdout")

  -- The socket's folder is there, and what stands at its address is no other file.
  abbrev pub AddressIsValid : String → Type 0
  AddressIsValid address =
      (path : String) × (abs address ≡ ok path)
      × (is_ok (stat (dir path)) ≡ true)
      × (stat address ≢ ok false)

  abbrev pub ListenerIsValid : Syslog → Type 0
  ListenerIsValid s =
      ((s.listener ≡ "unixgram") × AddressIsValid s.address)
      ⊎ (s.listener ≡ "tcp")
      ⊎ (s.listener ≡ "udp")

  pub record IsValid (c : Config) : Type 0 where
    pub api_server : ApiServerIsValid c.api_server
    pub store : StoreIsValid c.syslog
    pub listener : ListenerIsValid c.syslog

  pub tls_validate_iff : (t : TlsConfig) → (tls_validate p t ≡ ok tt) ↔ TlsIsValid t
  unfolding tls_validate
  tls_validate_iff t = ground (arith, eq_iff t.crt "", eq_iff t.key "")

  auth_validate_sound : (a : ApiServer) → auth_validate p a ≡ ok tt → AuthIsValid a
  unfolding auth_validate keystone_validate
  auth_validate_sound a h = elim (Bool-cases (a.auth_middleware == "keystone")) [
    | inr other ↦
        inr (ground (arith, eq_iff a.auth_middleware "keystone", eq_iff a.auth_middleware "none"))
    | inl keystone ↦ elim (Option-cases a.keystone_auth) [
      | inl missing ↦ ground arith
      | inr (k, e) ↦ inl (
        (eq_iff a.auth_middleware "keystone").0 keystone,
        (k, e, ground (arith, eq_iff k.auth_uri "")),
      )
    ]
  ]

  auth_validate_complete : (a : ApiServer) → AuthIsValid a → auth_validate p a ≡ ok tt
  unfolding auth_validate keystone_validate
  auth_validate_complete a (inl (e, (k, f, g))) =
      ground (arith, eq_iff k.auth_uri "", eq_iff a.auth_middleware "keystone")
  auth_validate_complete a (inr e) = rw e refl

  pub api_server_validate_sound :
      (a : ApiServer) → api_server_validate p a ≡ ok tt → ApiServerIsValid a
  unfolding api_server_validate
  api_server_validate_sound a h =
      ground (arith, auth_validate_sound a, tls_validate_iff a.tls_config)

  api_server_validate_complete :
      (a : ApiServer) → ApiServerIsValid a → api_server_validate p a ≡ ok tt
  unfolding api_server_validate
  api_server_validate_complete a v =
      ground (arith, auth_validate_complete a v.auth, (tls_validate_iff a.tls_config).1)

  influx_db_validate_sound : (i : InfluxDb) → influx_db_validate p i ≡ ok tt → InfluxDbIsValid i
  unfolding influx_db_validate url_is_valid
  influx_db_validate_sound i h =
      let (u, parsed) = ok_of_is_ok (parse_url i.url) (ground arith) in
      record {
        url = (
          u,
          parsed,
          ground (arith, parsed, eq_iff u.scheme "http", eq_iff u.scheme "https"),
          ground (arith, parsed, eq_iff u.host ""),
        );
        database = ground (arith, eq_iff i.database "");
      }

  pub influx_db_validate_complete :
      (i : InfluxDb) → InfluxDbIsValid i → influx_db_validate p i ≡ ok tt
  unfolding influx_db_validate url_is_valid
  influx_db_validate_complete i v =
      let (u, parsed, scheme, host) = v.url in
      ground (
        arith,
        parsed,
        host,
        scheme,
        v.database,
        eq_iff u.scheme "http",
        eq_iff u.scheme "https",
        eq_iff u.host "",
        eq_iff i.database "",
      )

  store_validate_sound : (s : Syslog) → store_validate p s ≡ ok tt → StoreIsValid s
  unfolding store_validate
  store_validate_sound s h = elim (Bool-cases (s.data_store == "influxdb")) [
    | inr other ↦ inr (ground (arith, eq_iff s.data_store "influxdb", eq_iff s.data_store "stdout"))
    | inl influx ↦ elim (Option-cases s.influx_db) [
      | inl missing ↦ ground arith
      | inr (i, e) ↦ inl (
        (eq_iff s.data_store "influxdb").0 influx,
        (i, e, influx_db_validate_sound i (ground arith)),
      )
    ]
  ]

  store_validate_complete : (s : Syslog) → StoreIsValid s → store_validate p s ≡ ok tt
  unfolding store_validate
  store_validate_complete s (inl (e, (i, f, v))) =
      ground (arith, influx_db_validate_complete i v, eq_iff s.data_store "influxdb")
  store_validate_complete s (inr e) = rw e refl

  address_validate_sound :
      (address : String) → address_validate p address ≡ ok tt → AddressIsValid address
  unfolding address_validate
  address_validate_sound address h =
      let (path, found) = ok_of_is_ok (abs address) (ground arith) in
      (path, found, ground (arith, found), ground (arith, found))

  address_validate_complete :
      (address : String) → AddressIsValid address → address_validate p address ≡ ok tt
  unfolding address_validate
  address_validate_complete address (path, found, parent, free) =
      ground (arith, found, parent, free)

  listener_validate_sound : (s : Syslog) → listener_validate p s ≡ ok tt → ListenerIsValid s
  unfolding listener_validate
  listener_validate_sound s h = ground (
    arith,
    address_validate_sound s.address,
    eq_iff s.listener "unixgram",
    eq_iff s.listener "tcp",
    eq_iff s.listener "udp",
  )

  listener_validate_complete : (s : Syslog) → ListenerIsValid s → listener_validate p s ≡ ok tt
  unfolding listener_validate
  listener_validate_complete s (inl (e, v)) = rw e (address_validate_complete s.address v)
  listener_validate_complete s (inr (inl e)) = rw e refl
  listener_validate_complete s (inr (inr e)) = rw e refl

  pub syslog_validate_sound :
      (s : Syslog) → syslog_validate p s ≡ ok tt → StoreIsValid s × ListenerIsValid s
  unfolding syslog_validate
  syslog_validate_sound s h =
      (store_validate_sound s (ground arith), listener_validate_sound s (ground arith))

  -- A configuration passes Validate exactly when its API server, its store and its listener are
  -- valid in the sense of IsValid, which says so without the code.
  pub config_validate_iff : (c : Config) → (config_validate p c ≡ ok tt) ↔ IsValid c
  unfolding config_validate syslog_validate
  config_validate_iff c = (
    λ h. record {
      api_server = api_server_validate_sound c.api_server (ground arith);
      store = store_validate_sound c.syslog (ground arith);
      listener = listener_validate_sound c.syslog (ground arith);
    },
    λ v. ground (
      arith,
      api_server_validate_complete c.api_server v.api_server,
      store_validate_complete c.syslog v.store,
      listener_validate_complete c.syslog v.listener,
    ),
  )
