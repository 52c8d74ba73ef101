-- ===== src/Config/Load.antt =====
-- internal/config/config.go, LoadConfig, from the configuration that the YAML parser gives. `none` is an
-- error: some bandwidth does not parse.
use packetpony.Base.{◌*◌, true, List, [], ◌∷◌, Option, some, none, ite, ◌>>=◌}
use packetpony.Base.Int.{ℤ, pos}
use packetpony.Base.Text.{Text, Text-discrete, text}
use packetpony.Config.{Config, ListenerConfig, RateLimitConfig, UdpConfig, UdpLoggingConfig}
use packetpony.Config.Bandwidth.{parse_bandwidth}

-- A text that is not empty is parsed; an empty one leaves the value.
unfoldable pub parsed : Text → ℤ → Option ℤ
parsed s old = ite (Text-discrete s []) (some old) (parse_bandwidth s)

unfoldable pub load_rate_limits : RateLimitConfig → Option RateLimitConfig
load_rate_limits r = do
  bytes ← parsed r.max_bandwidth_per_ip r.max_bandwidth_bytes
  minimum ← parsed r.throttle_minimum_bandwidth r.throttle_minimum_bytes
  some (record r { max_bandwidth_bytes = bytes; throttle_minimum_bytes = minimum })

abbrev pub default_logging : UdpLoggingConfig
default_logging = record {
  log_session_start = true;
  log_session_close = true;
  periodic_log_interval = pos (5 * 60_000_000_000);
  periodic_log_bytes = text "100MB";
  min_log_duration = pos 0;
  min_log_bytes = [];
  periodic_log_bytes_value = pos 0;
  min_log_bytes_value = pos 0;
}

abbrev pub or_default : Option UdpLoggingConfig → UdpLoggingConfig
or_default none = default_logging
or_default (some l) = l

-- The minimum `"0"` is not parsed either.
unfoldable pub load_logging : UdpLoggingConfig → Option UdpLoggingConfig
load_logging l = do
  period ← parsed l.periodic_log_bytes l.periodic_log_bytes_value
  minimum ←
      ite (Text-discrete l.min_log_bytes (text "0")) (some l.min_log_bytes_value)
        (parsed l.min_log_bytes l.min_log_bytes_value)
  some (record l { periodic_log_bytes_value = period; min_log_bytes_value = minimum })

unfoldable pub load_udp : Option UdpConfig → Option (Option UdpConfig)
load_udp none = some none
load_udp (some u) = do
  l ← load_logging (or_default u.logging)
  some (some (record u { logging = some l }))

-- The body of the loop of `LoadConfig`.
unfoldable pub load_listener : ListenerConfig → Option ListenerConfig
load_listener l = do
  r ← load_rate_limits l.rate_limits
  u ← load_udp l.udp
  some (record l { rate_limits = r; udp = u })

unfoldable pub load_listeners : List ListenerConfig → Option (List ListenerConfig)
load_listeners [] = some []
load_listeners (l ∷ ls) =
    let rest = load_listeners ls in do l' ← load_listener l; ls' ← rest; some (l' ∷ ls')

unfoldable pub load_config : Config → Option Config
load_config c = do ls ← load_listeners c.listeners; some (record c { listeners = ls })
