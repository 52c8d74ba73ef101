-- ===== src/Lib.antt =====
-- PacketPony, a proxy for TCP and UDP with allowlists, rate limits and metrics.
--
-- The parts and how they interact. A listener hands each TCP connection and each UDP packet to its
-- proxy. The proxy asks the allowlist for the address of the client, and then the rate limit manager,
-- which asks the attempt limiter, its counter of all connections and the connection limiter. What the
-- proxy forwards it first asks the bandwidth limiter. The UDP proxy keeps a session for each client in
-- the session manager, which sweeps idle ones. Both proxies call a logger and metrics. The main program
-- makes all of these from the configuration, starts the listeners, and stops them at a signal.
--
-- Which file models which part.
--   Config                internal/config/config.go, the types
--   Config/Load           internal/config/config.go: LoadConfig from the parsed YAML on, as load_config
--   Config/Bandwidth      internal/config/config.go: ParseBandwidth, as parse_bandwidth
--   Config/Validate       internal/config/validate.go: every Validate, and the helpers beside it
--   Config/Roundtrip, Config/Exact  ParseBandwidth on printed numbers, and which numbers a float64 holds
--   Acl                   internal/acl/allowlist.go: new_allowlist, parse_cidr_or_ip, is_allowed
--   Ratelimit/Attempts    internal/ratelimit/attempt_limiter.go: record_attempt, cleanup, close
--   Ratelimit/Connections internal/ratelimit/connection_limiter.go: allow, release, cleanup, close
--   Ratelimit/Bandwidth   internal/ratelimit/bandwidth_limiter.go: allow, is_over_limit, cleanup, close
--   Ratelimit/Bandwidth/Throttle  the same file: what throttle admits, over any calls
--   Ratelimit/Manager     internal/ratelimit/limiter.go: every method of RateLimitManager
--   Ratelimit/Manager/Closing  the same file: which limiters are closed, and Close
--   Ratelimit/Manager/Places   the same file: the places that the counter stands for
--   Ratelimit/Manager/Interleaving  the same file: the atomic steps on the counter of connections
--   Session               internal/session/udp_session.go: the methods of SessionManager and Session
--   Ratelimit/Loops, Session/Loop   cleanupLoop of the limiters and of the session manager
--   Session/Obtain        GetOrCreate, field by field
--   Session/History       the calls of a session manager in any order
--   Proxy/Tcp             internal/proxy/tcp_proxy.go: HandleConnection as open_connection, relay and
--                         finish, copyWithStats as copy_with_stats
--   Proxy/Tcp/Closing     connections and the limiters that Close closed
--   Proxy/Udp             internal/proxy/udp_proxy.go: handle_packet, reader_step, cleanup_session
--   Proxy/Udp/History     packets, rounds of the readers and sweeps in any order
--   Proxy/Udp/Sweep       internal/session/udp_session.go, cleanup and Close, on the books of a proxy
--   Listener              internal/listener/tcp.go, udp.go and manager.go: the constructors, start and
--                         stop of a listener, the tracked connections, NewManager as new_manager
--   Listener/Lifecycle    internal/listener/manager.go: Start, Stop and GracefulShutdown, with the waits
--                         of Stop
--   Listener/Stopped      what these three leave of the listeners
--   Listener/Traffic      what comes to the listeners between their start and their stop
--   Listener/Accept       internal/listener/tcp.go: acceptLoop, its handlers and Stop, as a step relation
--   Listener/Tracked, Listener/Drain  what a listener tracks, and how it ends after Stop
--   Listener/Read         internal/listener/udp.go: readLoop, as begin_read and receive, with the sweeps
--                         and Stop
--   Listener/Served       a UDP listener from its construction on
--   Listener/Connected    a TCP listener from its construction on
--   Logging               internal/logging/logger.go: the event type and the values of fields
--   Logging/Entry         what package json makes of an event and of a message
--   Logging/Syslog        internal/logging/syslog.go: the connection, the severities and the texts
--   Logging/Json          internal/logging/jsonlog.go: the methods of JSONLogger
--   Logging/Stdout        internal/logging/stdout.go: the methods of StdoutLogger
--   Logging/Multi         internal/logging/logger.go: NewMultiLogger as new_multi_logger, the methods of
--                         MultiLogger; Logging/Opened and Logging/Messages say what they come to
--   Metrics               internal/metrics/prometheus.go: NewProxyMetrics, StartMetricsServer and the
--                         health check; Metrics/Registry and Metrics/Routes say what they come to
--   Main                  cmd/packetpony/main.go: main, in four parts; Main/Runs and Main/Serves say how
--                         it ends
-- Base has the names that all of them share, with maps, integers and texts. Net is what the program
-- uses of Go's package net: its parsers and printers are a parameter, since the theorems hold for any.
--
-- How state is modelled. A limiter, a session manager and a proxy are records, and an operation
-- gives the record after it. Go maps are association lists. Sessions are shared objects, so the map
-- holds handles of a heap. The calls of the logger and of the metrics are a trace of effects. Time
-- is a number of nanoseconds, an argument of each operation, which reads the clock once. Counters
-- of type int64 are kept modulo 2^64, and are signed where they are compared or logged; a float64 is a
-- number scaled by 2^1100. The manager's count of connections, `int` and the durations of the
-- configuration, with their doubles and sums with a time, are integers without a bound. `none` is a
-- panic or an error, as each file says.
-- What sockets do is an argument of the step that uses them. All loops are over lists, the endless
-- ones one round at a time or over the list of what comes; only the digits of a number are taken on
-- fuel, which is the number itself.
--
-- What is not modelled. An operation is one step, although some take their locks one after another:
-- the race between a look-up in a limiter's map and its sweep is left out. So are the deadlines of
-- sockets, the text of an error in a message, the decoding of the YAML and the bytes of a JSON text,
-- and the messages that the listeners and their manager log of their own start and stop. Where Start
-- fails, its call of Stop is taken without the waits, since nothing has come yet. The
-- Prometheus client is a library: its registry is a parameter, and what is documented of it a hypothesis
-- where it is needed; what it exports is not modelled.
pub mod Base
pub mod Net
pub mod Acl
pub mod Session
pub mod Config
pub mod Ratelimit
pub mod Logging
pub mod Proxy
pub mod Listener
pub mod Metrics
pub mod Main
