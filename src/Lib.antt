-- ===== src/Lib.antt =====
-- xprotocol: a verification library for the protocol, its clients, its server and its pools.
--
-- The program is a request/response protocol over Unix sockets and TCP (src/wire.rs, src/protocol.rs),
-- with a server (src/server.rs) that counts its requests (src/metrics.rs), clients (src/client.rs),
-- pools of clients behind a circuit breaker (src/pool.rs, src/circuit_breaker.rs), authentication and
-- rate limits (src/auth.rs), streams (src/streaming.rs), sessions (src/session.rs), webhooks
-- (src/webhook.rs), a registry of services (src/discovery.rs), and a gRPC transport (src/grpc.rs).
--
-- Modules and what they model
--   Prelude    numbers, tests, lists, words of 64 bits, decimal texts; Prelude.Dict is `HashMap`
--   Error      src/error.rs: ProtocolError, Result, and the conversions that `?` applies
--   Action     state with `?`: what an action changed before it failed stays changed
--   Wire       src/wire.rs: read_message and write_message, over AsyncRead and AsyncWrite
--              (Wire/Transport.antt), which are interfaces to tokio with its documented laws;
--              Wire/Memory.antt fills them with streams in memory
--   Breaker    src/circuit_breaker.rs: CircuitBreaker; `poll` is `state`, which may open the half-open
--              state
--   Window     the sliding window of both rate limiters; Auth.Limiter is RateLimiter of src/auth.rs
--   Auth       src/auth.rs: the three authenticators, AuthContext, AuthMiddleware
--   Session    src/session.rs: Session and SessionManager
--   Protocol   src/protocol.rs: the bodies of requests and responses
--   Streaming  src/streaming.rs: StreamMode and both forms of handle_streaming
--   Metrics    src/metrics.rs: Histogram, ServiceMetrics, ConnectionTracker; Metrics.Snapshots is percentiles
--              and AlertManager::check, Metrics.Alerts the rest of AlertManager,
--              Metrics.Percentiles a history of requests with its snapshot
--   Server     src/server.rs: Server/Connection.antt is handle_connection_with_config, turn by turn,
--              on the writer of Wire and the counters of Metrics, with the limiter of Auth;
--              Server/Running.antt is run, run_with_config and the accept loop with its tasks, as a
--              history of events on what they share
--   Utils      src/utils.rs: DeadLetterQueue, the RateLimiter that all clients share, MessageQueue
--              (Utils.Queue), counters and flags (Utils.Counters), the loop of acquire
--              (Utils.Waiting) and RetryConfig (Utils.Retrying)
--   Client     src/client.rs: ConnectionStats (Client.Stats), ReliableUdsClient (Client.Reliable,
--              with `call` in Call.antt, what it does on its stream in Exchanging.antt, and `reconnect`
--              in Redial.antt) and UdsClient (Client.Uds), which
--              stands on Wire; Client/Uds/Remote.antt puts it together with Server, and
--              Client/Uds/Network.antt puts a network between the two, over which a whole connection
--              runs: the handshake, and any number of calls one after another
--   Pool       src/pool.rs: ProductionPool; Pool/Production/System.antt lets any number of calls and
--              `close` interleave, Sequential.antt is one call by itself, Outage.antt and
--              Recovery.antt one caller's calls on a server that is out, and comes back. Pool.Connections is
--              UdsConnectionPool; Pool.Clients is UdsClientPool and TopicBasedPool, over the interface
--              SharedClient that Client.Uds fills. Pool.InTurn is one call after
--              another on a pool
--   Tcp        src/tcp.rs: a connection of TcpServer, with the Handler of Server, its accept loops
--              (Tcp.Accepting) and TcpClient
--   Webhook    src/webhook.rs: events, retry policies, WebhookSender::send and WebhookService::notify
--   Discovery  src/discovery.rs: ServiceDiscovery over pingora's balancers, and the health checker
--   Grpc       src/grpc.rs: the wrapped handler, the client, the TLS configuration; Grpc.Setup is how both
--              are set up
--   Config     src/config.rs: the configuration file; Schema is src/schema.rs; Handlers is the defaults
--              of src/handler.rs
--   Runtime    src/runtime.rs: which runtime runs a future, over tokio's builder; a panic is an outcome
--   Shutdown   src/shutdown.rs: the race that ends a server
--   Tls        src/tls.rs: over native_tls; SocketFile is src/socket.rs, over tempfile
--
-- How the code is written down
--   Time is a number of milliseconds, and an argument: `now` is what the clock gives when the code
--   reads it, and a theorem says where it needs times in order. Random ids are arguments too. JSON is
--   serde_json's: its functions are parameters of the server and the client (the record Json).
--   Atomic counters are words of 64 bits that wrap around (`% 2 ^ 64`); usize is 64 bits wide.
--   Where tasks run at once, a step is what happens between two awaits or under one lock. A mutex of
--   tokio that is held makes a task wait, also when the task holds it itself; `waits` is that outcome.
--   Loops recur on their input, `reconnect` on the number of attempts. Five loops run on fuel: `collect`
--   of a stream, for which one turn more than there are bytes on the stream is enough; `attempts` of a
--   webhook, which is given one turn more than there are retries, and never uses them up; and `turns` of
--   the TCP server, which is the loop cut off after so many turns; `acquire` of the shared limiter, for
--   which as many tries are enough as it takes until the window has passed; and `cancelled` of a token,
--   for which one poll more than those that come before the token is cancelled is enough.
--
-- Not modelled
--   Sockets, the file system, native_tls, tokio and pingora themselves, and floating-point arithmetic,
--   which are parameters; signals; the code that prost and tonic generate (src/xprotocol.v1.rs); log
--   lines; the buffers between a client and its socket, which hold nothing from one message to the next
--   while a peer sends one at a time. The batches of the pools are `join_all` of calls that run at once:
--   those of ProductionPool are calls of Pool/Production/System.antt; of those of UdsClientPool and
--   TopicBasedPool only one request by itself is modelled (Pool/Clients/Batches.antt). The counter
--   ACTIVE_CONNECTIONS is that of one server in the process, whose tasks do not panic: after a panic it is
--   never counted down.
pub mod Prelude
pub mod Error
pub mod Action
pub mod Wire
pub mod Breaker
pub mod Window
pub mod Auth
pub mod Session
pub mod Client
pub mod Pool
pub mod Config
pub mod Discovery
pub mod Grpc
pub mod Handlers
pub mod Metrics
pub mod Protocol
pub mod Runtime
pub mod Schema
pub mod Server
pub mod Shutdown
pub mod SocketFile
pub mod Streaming
pub mod Tcp
pub mod Tls
pub mod Utils
pub mod Webhook
