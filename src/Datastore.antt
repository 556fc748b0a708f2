-- ===== src/Datastore.antt =====
-- datastore/datastore.go, and the construction of the store in datastore/influxdb/influxdb.go.
-- `client` stands for NewHTTPClient of the influxdb1-client library.
pub mod Choice
use coriolis_logger.Common.{
  String, Bool, Option, none, some, List, [], if◌then◌else◌, ◌==◌, Error, plain, Result, ok, err,
  panic, ◌>>=◌, ◌>>◌, wrap, false,
}
use coriolis_logger.Config.{
  Platform, ClientTls, InfluxDb, Syslog, influxdb_datastore, tls_config, influx_db_validate,
  syslog_validate,
}
use coriolis_logger.Influxdb.{Store}
use coriolis_logger.Influxdb.Client.{Library}

module _ (p : Platform) (lib : Library)
    (client : InfluxDb → Option (ClientTls p) → Result lib.Server) where
  -- `connect`
  connect : InfluxDb → Result lib.Server
  connect cfg = do
    tls ← wrap "getting TLS config for influx client" (tls_config p cfg)
    wrap "getting influx connection" (client cfg tls)

  -- `NewInfluxDBDatastore`
  unfoldable pub new_influx_db_datastore : InfluxDb → Result (Store lib)
  unfolding connect
  new_influx_db_datastore cfg = do
    wrap "validating influx config" (influx_db_validate p cfg)
    server ← wrap "connecting to influxdb" (connect cfg)
    ok (record { cfg = cfg; points = []; server = server; closed = false })

  -- `GetDatastore`
  unfoldable pub get_datastore : Syslog → Result (Store lib)
  get_datastore cfg =
      wrap "validating syslog config" (syslog_validate p cfg)
      >> (if cfg.data_store == influxdb_datastore
          then elim cfg.influx_db [
            | none ↦ err (plain "invalid influxdb datastore config")
            | some i ↦ new_influx_db_datastore i
          ]
          else err (plain "invalid datastore type"))
