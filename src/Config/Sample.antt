-- ===== src/Config/Sample.antt =====
-- A configuration that is accepted, and what loading makes of it.
use packetpony.Base.{◌≡◌, refl, true, false, [], ◌∷◌, some, none}
use packetpony.Base.Int.{pos}
use packetpony.Base.Text.{Text-discrete, text, trim_space, contains_char, to_lower}
use packetpony.Net.Sample.{sample_net, split_colon}
use packetpony.Config.{Config, ListenerConfig, RateLimitConfig, UdpLoggingConfig}
use packetpony.Config.Bandwidth.{parse_bandwidth, span_digits, width}
use packetpony.Config.Validate.{
  ◌then◌, fails, within, validate, validate_listeners, validate_listener, validate_entries,
  validate_cidr_or_ip, validate_address, validate_protocol, validate_udp, validate_rate_limits,
  validate_logging, validate_metrics,
}
use packetpony.Config.Load.{
  parsed, load_rate_limits, load_logging, load_udp, load_listener, load_listeners, load_config,
  default_logging,
}

abbrev pub limits : RateLimitConfig
limits = record {
  max_connections_per_ip = pos 2;
  connections_window = pos 60;
  max_connection_attempts_per_ip = pos 5;
  attempts_window = pos 60;
  max_bandwidth_per_ip = text "10MB";
  bandwidth_window = pos 0;
  max_total_connections = pos 100;
  action = text "log_only";
  throttle_minimum_bandwidth = [];
  max_bandwidth_bytes = pos 0;
  throttle_minimum_bytes = pos 0;
}

abbrev pub dns : ListenerConfig
dns = record {
  name = text "dns";
  protocol = text "udp";
  listen_address = text ":53";
  target_address = text "10.0.0.9:53";
  allowlist = text "10.0.0.0/8" ∷ text " 10.0.0.7" ∷ [];
  rate_limits = limits;
  tcp = none;
  udp = some (record { session_timeout = pos 30; buffer_size = pos 4096; logging = none });
}

abbrev pub config : Config
config = record {
  server = record { name = text "gate" };
  logging = record {
    syslog = record { enabled = false; network = []; address = []; tag = []; priority = [] };
    json_log = record { enabled = false; path = [] };
    stdout = record { enabled = true; use_json = false };
  };
  metrics = record { prometheus = record { enabled = false; listen_address = []; path = [] } };
  listeners = dns ∷ [];
}

pub accepted : validate sample_net config ≡ none
unfolding ◌then◌ fails within validate validate_listeners validate_listener validate_entries
    validate_cidr_or_ip validate_address validate_protocol validate_udp validate_rate_limits
    validate_logging validate_metrics parse_bandwidth split_colon trim_space contains_char to_lower
    Text-discrete span_digits
accepted = refl

abbrev pub loaded_logging : UdpLoggingConfig
loaded_logging = record default_logging { periodic_log_bytes_value = pos 104_857_600 }

abbrev pub loaded_dns : ListenerConfig
loaded_dns = record dns {
  rate_limits = record limits { max_bandwidth_bytes = pos 10_485_760 };
  udp =
      some (record {
        session_timeout = pos 30;
        buffer_size = pos 4096;
        logging = some loaded_logging;
      });
}

abbrev pub loaded : Config
loaded = record config { listeners = loaded_dns ∷ [] }

pub accepted_dns : validate_listener sample_net loaded_dns ≡ none
unfolding ◌then◌ fails within validate_listener validate_entries validate_cidr_or_ip
    validate_address validate_protocol validate_udp validate_rate_limits parse_bandwidth split_colon
    trim_space contains_char to_lower Text-discrete span_digits width
accepted_dns = refl

pub accepted_loaded : validate sample_net loaded ≡ none
unfolding ◌then◌ fails within validate validate_listeners validate_listener validate_entries
    validate_cidr_or_ip validate_address validate_protocol validate_udp validate_rate_limits
    validate_logging validate_metrics parse_bandwidth split_colon trim_space contains_char to_lower
    Text-discrete span_digits width
accepted_loaded = refl

pub loads : load_config config ≡ some loaded
unfolding load_config load_listeners load_listener load_udp load_logging load_rate_limits parsed
    parse_bandwidth trim_space Text-discrete span_digits width
loads = refl

-- A listener for TCP.
abbrev pub web : ListenerConfig
web = record loaded_dns { protocol = text "tcp"; udp = none }

pub accepted_web : validate_listener sample_net web ≡ none
unfolding ◌then◌ fails within validate_listener validate_entries validate_cidr_or_ip
    validate_address validate_protocol validate_udp validate_rate_limits parse_bandwidth split_colon
    trim_space contains_char to_lower Text-discrete span_digits width
accepted_web = refl
