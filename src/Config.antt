-- ===== src/Config.antt =====
-- internal/config: the types of config.go. `int`, `int64` and `time.Duration` are integers, since a
-- file may hold negative ones; a pointer that may be nil is an `Option`.
pub mod Bandwidth
pub mod Validate
pub mod Accepted
pub mod Load
pub mod Loaded
pub mod Exact
pub mod Roundtrip
pub mod Sample
mod Tests
use packetpony.Base.{Bool, List, Option}
use packetpony.Base.Int.{ℤ}
use packetpony.Base.Text.{Text}

pub record ServerConfig : Type 0 where
  pub name : Text

pub record StdoutConfig : Type 0 where
  pub enabled : Bool
  pub use_json : Bool

pub record SyslogConfig : Type 0 where
  pub enabled : Bool
  pub network : Text
  pub address : Text
  pub tag : Text
  pub priority : Text

pub record JsonLogConfig : Type 0 where
  pub enabled : Bool
  pub path : Text

pub record LoggingConfig : Type 0 where
  pub syslog : SyslogConfig
  pub json_log : JsonLogConfig
  pub stdout : StdoutConfig

pub record PrometheusConfig : Type 0 where
  pub enabled : Bool
  pub listen_address : Text
  pub path : Text

pub record MetricsConfig : Type 0 where
  pub prometheus : PrometheusConfig

pub record RateLimitConfig : Type 0 where
  pub max_connections_per_ip : ℤ
  pub connections_window : ℤ
  pub max_connection_attempts_per_ip : ℤ
  pub attempts_window : ℤ
  pub max_bandwidth_per_ip : Text
  pub bandwidth_window : ℤ
  pub max_total_connections : ℤ
  pub action : Text
  pub throttle_minimum_bandwidth : Text
  pub max_bandwidth_bytes : ℤ  -- the parsed `max_bandwidth_per_ip`
  pub throttle_minimum_bytes : ℤ  -- the parsed `throttle_minimum_bandwidth`

pub record TcpConfig : Type 0 where
  pub read_timeout : ℤ
  pub write_timeout : ℤ
  pub idle_timeout : ℤ

pub record UdpLoggingConfig : Type 0 where
  pub log_session_start : Bool
  pub log_session_close : Bool
  pub periodic_log_interval : ℤ
  pub periodic_log_bytes : Text
  pub min_log_duration : ℤ
  pub min_log_bytes : Text
  pub periodic_log_bytes_value : ℤ  -- the parsed `periodic_log_bytes`
  pub min_log_bytes_value : ℤ  -- the parsed `min_log_bytes`

pub record UdpConfig : Type 0 where
  pub session_timeout : ℤ
  pub buffer_size : ℤ
  pub logging : Option UdpLoggingConfig

pub record ListenerConfig : Type 0 where
  pub name : Text
  pub protocol : Text
  pub listen_address : Text
  pub target_address : Text
  pub allowlist : List Text
  pub rate_limits : RateLimitConfig
  pub tcp : Option TcpConfig
  pub udp : Option UdpConfig

pub record Config : Type 0 where
  pub server : ServerConfig
  pub logging : LoggingConfig
  pub metrics : MetricsConfig
  pub listeners : List ListenerConfig
