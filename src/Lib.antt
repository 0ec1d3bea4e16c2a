-- ===== src/Lib.antt =====
-- pigo's REST server, its pipelines with their peers and replication, and its HTTP middleware, as pure
-- functions and as steps, and what holds of them.
--
-- pkg/rest turns a request into one SQL statement with bind parameters, runs it and answers with its
-- rows. A request's query parameters are parsed (parseQueryParams), every filter among them is
-- parsed to a tree (parseFilter) and rendered (toSQL) when the statement is built, and the Prefer
-- header decides what comes back. The files follow the source:
--
--   Base            shared: tests, lists and integers over native numbers, byte strings, UTF-8, JSON
--   Pgx/Schema      pkg/pgx/schema/schema.go: columns and tables as they are cached
--   Pgx/Cache       pkg/pgx/schema/schema.go: the loading of the tables, their reload and the watch
--                   channel, and the waits before a reconnection; proofs in Loaded, Watched, Backoff
--   Pgx/OpenApi     pkg/pgx/schema/openapi.go: schemas and parameters here, the operations of a table
--                   in Operations, the document in Document; proofs in References
--   Pgx/Crud        pkg/pgx/crud.go; proofs in Numbered
--   Pgx/Role        pkg/pgx/role/role.go; proofs in Passwords
--   Pgx/Pool        pkg/pgx/pool.go; sequences of calls in Active
--   Rest/Error      errors of pkg/rest as values, and computations that may fail
--   Rest/Args       argList and findColumn of pkg/rest/filter.go
--   Rest/Arrays     pgArrayLiteral of pkg/rest/filter.go, pkg/rest/util.go
--   Rest/Filter     pkg/rest/filter.go: the data here, filterParser in Parser, Names and Parse
--                   (group is parse_group and parse_members, condition is parse_condition), toSQL,
--                   conditionSQL and buildWhereClause in Sql
--   Rest/Order      pkg/rest/order_by.go, and buildOrderByClause of pkg/rest/query.go
--   Rest/Headers    pkg/rest/http_headers.go
--   Rest/Query      pkg/rest/query.go: parseQueryParams and the four builders
--   Rest/Server     pkg/rest/server.go: handleRequest, its handlers and executeQuery
--   Rest/Rpc        pkg/rest/rpc.go: a function's parameters here, the SQL call in Call, and the
--                   handlers in Handler; Arguments holds proofs
--   Rest/Examples   tests and concrete instances
--
-- pkg/pipeline takes change events from sources, transforms them and hands them to sinks.
-- cmd/pigo/pipeline.go starts a goroutine for each source, which sends each event through every
-- subscribed pipeline into a channel for each sink, and goroutines that empty the channels:
--
--   Pipeline/Cdc        pkg/pipeline/cdc/cdc.go: events and their builders
--   Pipeline/Transform  pkg/pipeline/transform: results and parameters here, one file each for
--                       filter.go, extract.go and replace.go, and transform.go in Chain; proofs in
--                       Sequence, Local, Rows and Tables
--   Pipeline/Manager    manager.go, pipeline.go and peer.go of pkg/pipeline; proofs in Init
--   Pipeline/Process    pkg/pipeline/process.go: an event on its way to the channels; Channels and
--                       Order hold proofs, Workers the goroutines of a sink as steps with a proof
--   Pipeline/Setup      cmd/pigo/pipeline.go: setupPipeline and what it calls, and the fan-out;
--                       proofs in Workers and Sources
--   Pipeline/Examples   tests and concrete instances
--
-- pkg/pglogrepl turns PostgreSQL's logical replication into change events, and pkg/pipeline/peer has
-- the connectors that take events from elsewhere and hand them on:
--
--   Replication/Config       pkg/pglogrepl/pglogrepl.go: the configuration, its defaults and its check
--   Replication/Publication  the publication of stream.go; proofs in Tables
--   Replication/Setup        Stream, setupReplication and ensureSlot of stream.go
--   Replication/Messages     the handlers of process_v2.go, util.go and codec.go; proofs in Rows
--   Replication/Stream       streamEvents of stream.go and processV2; proofs in Progress
--   Peer/Mqtt                pkg/pipeline/peer/mqtt: transform.go in Topics, peer.go in Subscribe;
--                            proofs in Filters and RoundTrip
--   Peer/Nats                pkg/pipeline/peer/nats/peer.go; proofs in Deliveries
--   Peer/Webhook             pkg/pipeline/peer/http/peer.go
--   Peer/Postgres            Pub of pkg/pipeline/peer/pg/peer.go; proofs in Replicated, which are
--                            about replicated changes
--   Replication/Examples, Peer/Examples, Pgx/Examples  tests and concrete instances
--
-- pkg/httputil routes requests through middleware:
--
--   Http/Router         pkg/httputil/router.go; proofs in Chains
--   Http/Cache          pkg/httputil/middleware/cache.go; sequences of calls in Trace
--   Http/Middleware     cors.go and basic_auth.go of pkg/httputil/middleware; proofs in Cors and
--                       Credentials
--   Http/Role           pkg/httputil/postgres.go, and authz.go and postgres.go of
--                       pkg/httputil/middleware; proofs in Chosen
--   Http/Jq             pkg/util/jq.go, and WithOIDCAuthz, which looks up a role with it
--   Http/Client         pkg/httputil/client.go
--   Http/Examples       tests and concrete instances
--
-- The other files hold proofs. Under Rest/Filter: Post, Reads, ReadsField, Valid, Operations and
-- Tree lead to Total; Binding, Params, Spelled, Spelling, Places, Where, Known and Quoting are about the
-- rendering. Spelled reads a tree without numbers for parameters, and Spelling leads to Places.
--
-- A string is the list of its bytes, as in Go. Names of fields and functions are the source's in
-- snake case; a method on the parser is a function from the parser, which holds the text that is left
-- and the position, to a result with the parser behind it, or an error. What Go leaves to the order
-- of a map is a list of pairs. An int is 64 bits wide: where it can wrap around, wrap64 says so.
--
-- What is not of this repository is a parameter. `Unicode` holds letters, lower case, the trimming
-- of spaces and number scanning where a text is not ASCII; for ASCII they are written out. `Env` holds
-- pgx.Identifier.Sanitize and json.Marshal. `Database` holds the pool and PostgreSQL: whether there
-- is a connection with the role, a count, and the rows of a statement.
--
-- `Patterns` holds regexp and filepath.Match, `Decoders` mapstructure, `World` whether a connector
-- connects and a configuration can be encoded, `MuxRules` net/http's multiplexer, `Conversions` the
-- conversions of strconv, fmt and encoding/json, `Backend` what a function call meets, `Session` the
-- environment and PostgreSQL's answer to SET, and `Driver` the opening of a pool. For replication,
-- `Environment` holds the parsing of messages and `TypeMap` the codecs of pgtype, `Database` of
-- Publication the results of a statement, and a `Turn` what the connection and the clock answer.
-- `Library` holds regexp and ParseFloat, `Subscription` and the arguments of Peer/Nats the JSON that is
-- decoded, and `Catalog` the rows of the queries for tables, columns and keys.
--
-- Copies of an event share the array of its schema's fields: a heap holds the arrays, and a
-- transformation is a function of the event and the heap. Sends to channels are the source's own
-- select with a default. Goroutines are steps: an event arrives in a channel, is received, is
-- transformed and published in one step, or a goroutine stops, in any order. Time is a number that each call is given.
--
-- Loops are by recursion on the text. The nested parsers of logic trees run on fuel, one for each
-- call and more than the text has bytes; the error out_of_fuel marks where it ends and is no error of
-- the program. Lists of an operand run on the length of the text that is left.
--
-- Not modelled: the wiring of net/http, the text of error messages, logs and metrics, the connections
-- to brokers and databases, the peers for Kafka, gRPC, ClickHouse and debugging, shutdown, the
-- checks of OIDC tokens, and configuration.
pub mod Base
pub mod Rest
pub mod Pgx
pub mod Pipeline
pub mod Http
pub mod Replication
pub mod Peer
