-- ===== src/Lib.antt =====
-- Coriolis logger: a syslog server that keeps log messages in InfluxDB, sends them to websocket
-- clients as they come, and serves them over HTTP to the admins of a keystone.
--
-- A parsed message is a map of fields, which logging/syslog.go turns into a LogMessage. The
-- aggregate writer of logging/logging.go hands it to the datastore, which buffers it for InfluxDB, and
-- to the websocket hub, which sends it to the clients that want it. The handlers of
-- apiserver/controllers read the logs back, behind the authenticator of apiserver/auth.
--
-- Files and sources, where an operation is a function of the name in snake case:
--   Config, Config/Validity: config/config.go; `x_validate` is the Validate of type x
--   Params: params/params.go
--   Logging, Logging/Fields, Logging/Conversion: logging/syslog.go
--   Logging/Aggregate, Logging/Aggregate/Delivery: logging/logging.go
--   Influxdb, Influxdb/Buffer, Conservation, Rotation, Loop, Stopping: datastore/influxdb/influxdb.go; a method
--     that changes the store gives the new store beside its result
--   Influxdb/Calls: the calls and events that the mutex of the store puts in a sequence
--   Influxdb/Client: the influxdb1-client library, a parameter
--   Influxdb/Query, Influxdb/Reader and their children: prepareQuery and ReadNext of the same source
--   Websocket, Websocket/Filter: writers/websocket/client.go and payload.go
--   Websocket/Hub and its children: writers/websocket/websocket.go; clients are pointers into a heap,
--     and a run of the hub is a sequence of turns of its goroutines and those of its clients;
--     Watching and its children follow a client that stays while others come and go
--   Auth, Auth/Token, Auth/Guarding: apiserver/auth
--   Websocket/Connection and its children: the two goroutines of a client of writers/websocket/client.go,
--     over a parameter for the connection; Stream joins them to the hub
--   SyslogWorker and its children: syslog/syslog.go
--   Datastore, Datastore/Choice: datastore/datastore.go, and the construction of the InfluxDB store
--   Controllers, Controllers/Inputs, Access: apiserver/controllers/controllers.go
--   Controllers/Download, Controllers/Transfer: the two downloads of the same source
--   Controllers/LogDownload, Termination: the download over the reader of the store
--   Controllers/Dates: the dates of a request beyond the range of UnixNano
--   Controllers/Broken and its child Handler: the download of a log whose reading fails
--   Controllers/Session and its children: the client that WSHandler makes, at the hub
--   Api: apiserver/apiserver.go
--   Api/Routing and its children: apiserver/routers/routers.go, and what a request meets there
--   Service: the writers of cmd/coriolis-logger/main.go, with writers/stdout/stdout.go
--   Service/Pipeline, Startup, Shutdown: the way of a message, the steps of main, and its end
--   Service/Startup/Sound: what has gone well when main serves
--   Service/Archive and its children: from Write of the store to a download over the routes, with
--     dates or without
--   Service/Journey and its child Received: from the parsed messages to that download
--   Influxdb/Listing, Service/Listing: List, and the listing of the logs over the routes
--   Worker, Service/Stopping: worker/worker.go, and Stop of the three workers
--   Service/Ending and its children: the waits at the end of main, as a step relation over the loops
--     of the syslog worker and the store
--   Service/Interleaving: the goroutines of the process on what they share, as a step relation, and
--     in its child Watched the way of the messages to a client among all that
--   Http, Clock, Decimal: what the code uses of net/http, time and strconv
--   Common: shared types; integers are two-sided with the wrap of an int64 written out
--
-- Errors are values with Go's wrapping; a panic is a result of its own. A formatted error holds the
-- text that it quotes. Log lines are left out.
--
-- Bounds: a print of a decimal takes at most 20 digits, which an unsigned 64-bit number does not
-- exceed. The loops of a download take fuel, one unit for each text; a reader of n texts is read to its
-- end with more than n units. All other recursion is structural.
--
-- Main starts its services on a machine, a record of what it finds there; an outcome of its start names
-- the services that run. The goroutines of a connection act on the hub by the turns of its clients.
--
-- The clock at which the store takes a message is a function of the message, any one in the theorems.
--
-- Not modelled: the registration of signals and the levels of the log; the permissions of the syslog
-- socket; the constants of the facilities, and Query of the datastore, which no code uses; the log lines.
pub mod Common
pub mod Decimal
pub mod Clock
pub mod Logging
pub mod Config
pub mod Params
pub mod Influxdb
pub mod Websocket
pub mod Http
pub mod Auth
pub mod Controllers
pub mod SyslogWorker
pub mod Worker
pub mod Datastore
pub mod Service
pub mod Api
