-- ===== src/Datastore/Choice.antt =====
-- What a validated configuration gets from GetDatastore.
use coriolis_logger.Common.{
  ◌≡◌, refl, sym, ◌∙◌, subst, some_inj, inl, inr, Option, some, [], false, plain, Result, ok, err,
  wrap, wrap-eq-ok, >>=-eq-ok, ok_injective, Bool-cases, Option-cases, ◌==◌, eq_iff,
}
use coriolis_logger.Config.{
  influxdb_datastore, Platform, ClientTls, InfluxDb, Syslog, tls_config, influx_db_validate,
  syslog_validate,
}
use coriolis_logger.Config.Validity.{syslog_validate_sound, influx_db_validate_complete}
use coriolis_logger.Influxdb.Client.{Library}
use coriolis_logger.Influxdb.{Store}
use coriolis_logger.Datastore.{connect, new_influx_db_datastore, get_datastore}

influx_db_valid :
    (p : Platform) (cfg : Syslog) (i : InfluxDb)
    → syslog_validate p cfg ≡ ok tt
    → cfg.data_store ≡ "influxdb"
    → cfg.influx_db ≡ some i
    → influx_db_validate p i ≡ ok tt
influx_db_valid p cfg i valid chosen section = elim ((syslog_validate_sound p cfg valid).0) [
  | inl (same, (j, there, v)) ↦
      subst (λ x. influx_db_validate p x ≡ ok tt) (some_inj (sym there ∙ section))
        (influx_db_validate_complete p j v)
  | inr stdout ↦ cc
]

-- A syslog section that passes Validate and has the store influxdb gets the store of its influx
-- section, open and with an empty buffer, if the TLS files can be read and the client is made.
pub get_datastore_influx_db :
    (p : Platform) (lib : Library) (client : InfluxDb → Option (ClientTls p) → Result lib.Server)
    (cfg : Syslog) (i : InfluxDb) (tls : Option (ClientTls p)) (server : lib.Server)
    → syslog_validate p cfg ≡ ok tt
    → cfg.data_store ≡ "influxdb"
    → cfg.influx_db ≡ some i
    → tls_config p i ≡ ok tls
    → client i tls ≡ ok server
    → get_datastore p lib client cfg
      ≡ ok (record { cfg = i; points = []; server = server; closed = false })
unfolding get_datastore new_influx_db_datastore
get_datastore_influx_db p lib client cfg i tls server valid chosen section files made =
    rw
      (
        valid,
        chosen,
        section,
        influx_db_valid p cfg i valid chosen section,
        files,
        made,
        get_datastore,
        new_influx_db_datastore,
      )
      refl

-- A syslog section that passes Validate with the store stdout is refused by GetDatastore, whatever
-- the client does.
get_datastore_stdout :
    (p : Platform) (lib : Library) (client : InfluxDb → Option (ClientTls p) → Result lib.Server)
    (cfg : Syslog)
    → syslog_validate p cfg ≡ ok tt
    → cfg.data_store ≡ "stdout"
    → get_datastore p lib client cfg ≡ err (plain "invalid datastore type")
unfolding get_datastore
get_datastore_stdout p lib client cfg valid chosen = rw (valid, chosen, get_datastore) refl

-- The datastore that is given is a store of the influx section.
pub record IsMade (p : Platform) (lib : Library)
    (client : InfluxDb → Option (ClientTls p) → Result lib.Server) (cfg : Syslog)
    (store : Store lib) : Type 0 where
  pub section : InfluxDb
  pub tls : Option (ClientTls p)
  pub server : lib.Server
  pub chosen : cfg.data_store ≡ "influxdb"
  pub there : cfg.influx_db ≡ some section
  pub tls_files : tls_config p section ≡ ok tls
  pub connected : client section tls ≡ ok server
  pub fresh : store ≡ record { cfg = section; points = []; server = server; closed = false }

module _ (p : Platform) (lib : Library)
    (client : InfluxDb → Option (ClientTls p) → Result lib.Server) (cfg : Syslog)
    (store : Store lib) where
  new_influx_db_datastore-IsMade :
      (i : InfluxDb)
      → cfg.data_store ≡ "influxdb"
      → cfg.influx_db ≡ some i
      → new_influx_db_datastore p lib client i ≡ ok store
      → IsMade p lib client cfg store
  unfolding new_influx_db_datastore connect
  new_influx_db_datastore-IsMade i chosen there e =
      let (valid, v, rest) =
        >>=-eq-ok (wrap "validating influx config" (influx_db_validate p i)) _ e in
      let (server, connects, made) =
        >>=-eq-ok (wrap "connecting to influxdb" (connect p lib client i)) _ rest in
      let (tls, files, made_client) =
        >>=-eq-ok (wrap "getting TLS config for influx client" (tls_config p i)) _
          (wrap-eq-ok "connecting to influxdb" (connect p lib client i) server connects) in
      record {
        section = i;
        tls = tls;
        server = server;
        chosen = chosen;
        there = there;
        tls_files = wrap-eq-ok _ (tls_config p i) tls files;
        connected = wrap-eq-ok _ (client i tls) server made_client;
        fresh = sym (ok_injective made);
      }

  pub get_datastore-IsMade :
      get_datastore p lib client cfg ≡ ok store → IsMade p lib client cfg store
  unfolding get_datastore
  get_datastore-IsMade e =
      let (valid, v, rest) =
        >>=-eq-ok (wrap "validating syslog config" (syslog_validate p cfg)) _ e in
      elim (Bool-cases (cfg.data_store == influxdb_datastore)) [
        | inl chosen ↦ elim (Option-cases cfg.influx_db) [
          | inl missing ↦ let impossible = rw (chosen, missing) at rest in cc
          | inr (i, there) ↦
              new_influx_db_datastore-IsMade i ((eq_iff cfg.data_store influxdb_datastore).0 chosen)
                there (rw (chosen, there) at rest)
        ]
        | inr other ↦ let impossible = rw other at rest in cc
      ]
