-- ===== src/Lib.antt =====
-- Verification of the core of docker-migrate, a tool that moves containers, images, volumes and
-- networks from one Docker host to another.
--
-- A master keeps a registry of the workers that have joined it and orchestrates migrations between
-- two of them; it tells the workers what to do by commands on their streams, learns of progress by
-- their messages, and relays data between workers that cannot reach each other (internal/master). A
-- worker keeps a connection to its master and carries out a migration as its source or its target
-- (internal/worker). Two hosts can also pair with a code, and send volumes to each other in chunks with
-- checksums and checkpoints (internal/peer). A local engine audits a migration, runs a strategy and
-- rolls back (internal/migration); the web interface hears of it through a hub (internal/server).
--
-- Which file models which part:
--
-- - Prelude: names and lemmas that the other files share. Prelude/Dict is a Go map with string keys,
--   an association list in which `Distinct` says that no key occurs twice; the order of the entries
--   stands for the unspecified order of a Go range. Prelude/Decimal is the verb %d of fmt, and
--   Prelude/Lists the operations on lists over the native numbers.
-- - Proto: the messages of proto/migrate.proto that the control plane reads and writes, and
--   Proto/Transfers those that carry data.
-- - Master/Registry: internal/master/registry.go. `Registry` is the map of workers; `register`,
--   `unregister`, `get`, `get_by_auth_token`, `list_online`, `update_heartbeat`, `update_inventory`,
--   `set_stream`, `send_command`, `cleanup_stale` and `is_online` are the methods of these names.
--   Its abstract view, in Registry/Laws, is one independent cell for each worker ID.
-- - Master/Orchestrator: internal/master/orchestrator.go. The goroutine that StartMigration starts is a
--   `Task` with a stage; `advance` is its next step, from one lock or send to the next, and
--   `execute_migration` the whole of it with nothing in between. Sends go through the registry's
--   `send_command`; what a stream's Send returns is the argument `send`.
-- - Master/Server: internal/master/grpc_server.go and master.go. `register_worker`, `receive` (one round
--   of WorkerStream) and `report_resources` are the handlers over the registry and the orchestrator,
--   and `serve` is any sequence of what comes in.
-- - Master/Proxy: internal/master/proxy.go. Channels are a store, to which handlers keep places; Channels
--   has `open_proxy_channel`, Relaying the two relay loops, one round for each message, and Sessions the
--   steps of handlers, relays and cancellations in any order.
-- - Master/Api: internal/master/api_migrations.go, the HTTP handlers over the orchestrator.
-- - Migration/PathMap: internal/migration/pathmap.go, with the types of container.go. ApplyMapping works
--   on the backing array of its slice, and its index panics are values.
-- - Migration/Rollback: internal/migration/rollback.go. The calls that a rollback makes on containers are
--   a list of actions.
-- - Migration/Job and Migration/Engine: internal/migration/engine.go. The goroutine of a job is a `Task`
--   of two stages, the audit and the execution, and `pause_migration`, `resume_migration` and
--   `cancel_migration` may come between them. The job's context is its field `cancelled`.
-- - Migration/Audit: internal/migration/audit.go, all the checks and their accumulation.
-- - Migration/Cold and Migration/Warm: ExecuteMigration of the two strategies of
--   internal/migration/strategy.go. What the migrators return is an argument, and for the engine a function
--   of whether the job's context is done when its execution begins; a run is its error and what it did.
-- - Migration/Volume: internal/migration/volume.go, whose chunks are zeros so far.
-- - Peer/Chunks: ChunkReader and ChunkWriter of internal/peer/transfer.go.
-- - Peer/Transfer: TransferManager of the same file; the directory of checkpoints is a map.
-- - Peer/Volume: SendVolume and TransferVolume of internal/peer/grpc.go, the two ends of one stream, in
--   lockstep, over the chunks and the transfer manager.
-- - Peer/RateLimit and Peer/Pairing: internal/peer/pairing.go. The limit on attempts sees only its map of
--   trackers; pairing uses it, as AcceptPairing does.
-- - Worker/Connector: internal/worker/connector.go. `connect_with_retry` takes the results of its attempts
--   as a list; the goroutines that it starts are a list of loops, and Connector/Running has their rounds.
-- - Worker/Executor: internal/worker/executor.go. `execute_as_source` is the list of messages that it
--   sends; Executor/Acks is the target's loop through the proxy.
-- - Worker/TransferClient: internal/worker/transfer_client.go, the client of the proxy.
-- - Server/Hub and Server/LogStream: internal/server/websocket.go. The hub's clients are places of their
--   channels in a store; `step` is one event, and a blocked loop is a state.
--
-- How the parts interact: Orchestrator, Server, Proxy and Api use Registry's and Orchestrator's operations
-- and the theorems about them (`get-run`, `send_command_lem`, `get_by_auth_token_lem`,
-- `start_migration_lem`); Connector/Enrolled puts a worker's connection together with the master's
-- `join_lem`, Executor/Handshake the executor's handshakes with the proxy, and
-- TransferClient/Acknowledged a client, the two loops on one channel and the target's rounds. Volume uses
-- `read_chunk_lem`, `write_chunk_iff` and the ends of a transfer; Pairing uses the limiter; Engine uses
-- the audit, the strategies and the rollback.
--
-- State is passed explicitly, errors are values, and a call that holds its lock from beginning to end
-- is one step. The clock is the argument `now`, in nanoseconds, of each operation that reads it;
-- `t.Add(-d)` is written with the `+` on the other side, since `-` on the natural numbers stops at 0.
-- Random tokens, codes and keys are arguments of the operations that draw them.
--
-- Bounds and fuel. SendVolume's loop runs on fuel: a chunk that is not final has at least one byte, as
-- no chunk size is below 256 KB, so fuel above the number of bytes that are left is enough. The loop over
-- Docker's log frames has the length of its bytes as fuel, since every round takes some. The other
-- loops are recursions on lists or on the number of rounds left. Offsets, sizes and counts are int64
-- or int in the code; they stay below the number of bytes of a volume, of attempts or of workers, and
-- are natural numbers here. The backoff of a worker's retries is an int64 in two's complement, as its
-- doubling can wrap. Floats and negative numbers are only copied.
--
-- Code outside the repository is a parameter: xxhash64 is `checksum`, the digest in a transfer's ID is
-- `digest`, an io.Writer is `accept`, a gRPC stream's Send is `send`, and SHA-256, X25519, X.509 and
-- HKDF are the record `Crypto`, of which `IsSound` states what the code relies on.
--
-- Not modelled: logging and metrics; the calls of the Docker client and what only wraps them
-- (internal/docker, internal/migration/image.go and network.go, internal/worker/inventory.go); the
-- detection of conflicts, which is a stub, and the dry run (internal/migration); the HTTP handlers of
-- internal/server/api.go and internal/master/api_workers.go; discovery, certificates on disk and
-- configuration files, which are I/O; cancelled contexts and broken streams in SendVolume; and the random
-- generation of a pairing code.
pub mod Prelude
pub mod Proto
pub mod Master
pub mod Migration
pub mod Peer
pub mod Server
pub mod Worker
