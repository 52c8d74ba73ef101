-- ===== src/Proxy.antt =====
-- internal/proxy: what a proxy does to its logger and its metrics, as a trace of effects.
pub mod Gauge
pub mod Udp
pub mod Tcp
mod UdpTests
mod Tests
use packetpony.Base.{
  ℕ, Bool, true, false, List, [], ◌∷◌, ◌++◌, Option, some, none, not, ◌&&◌, if◌then◌else◌, ite, ◌/◌,
}
use packetpony.Base.Int.{ℤ, pos}
use packetpony.Base.Text.{Text, Text-discrete, text}
use packetpony.Logging.{ConnectionEvent}
use packetpony.Net.{Net}
use packetpony.Ratelimit.Bandwidth.{log_only}

-- The labels of the metrics.
pub data Status : Type 0 where
  accepted acl_denied rate_limited : Status

pub data Reason : Type 0 where
  connection_limit bandwidth_limit : Reason

pub data Failure : Type 0 where
  invalid_target target_connect session_create target_write target_read client_write : Failure

pub data Direction : Type 0 where
  sent received : Direction

-- The messages of the proxies.
pub data Message : Type 0 where
  denied_by_acl denied_by_rate_limit bandwidth_exceeded bandwidth_dropped : Message
  failed_with : Failure → Message

-- A call of the logger or of a metric.
pub data Effect : Type 0 where
  log_info log_warning log_error : Message → Effect
  log_connection : ConnectionEvent → Effect
  connections_total : Status → Effect
  connections_active_inc connections_active_dec : Effect
  rate_limit_drop : Reason → Effect
  acl_drop : Effect
  error_total : Failure → Effect
  bytes_transferred : Direction → ℕ → Effect
  packets_transferred : Direction → Effect
  connection_duration : ℕ → Effect

-- What both proxies log of a bandwidth check: `over` is the answer of `IsBandwidthOverLimit`.
abbrev pub bandwidth_logs : Bool → Text → Bool → List Effect
bandwidth_logs over action allowed =
    if over
    then ite (Text-discrete action log_only) (log_warning bandwidth_exceeded ∷ [])
        (if not allowed then log_info bandwidth_dropped ∷ [] else [])
    else []

-- `int64(duration / time.Millisecond)`.
abbrev pub milliseconds : ℕ → ℕ
milliseconds ns = ns / 1_000_000

-- `parsePort`.
unfoldable pub parse_port : Net → Text → ℤ
parse_port net port_str = elim (net.split_host_port (text ":" ++ port_str)) [
  | none ↦ pos 0
  | some (_, port) ↦ net.scan_int port
]

-- `targetHost, targetPort, _ := net.SplitHostPort(…)`: on an error both are empty.
abbrev pub target_of : Net → Text → Text × Text
target_of net address = elim (net.split_host_port address) [ none ↦ ([], []) | some hp ↦ hp ]
