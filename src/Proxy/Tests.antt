-- ===== src/Proxy/Tests.antt =====
-- The proxies on concrete packets and connections.
use packetpony.Base.{ℕ, ◌≤◌, ◌≡◌, refl, inr, true, List, [], ◌∷◌, Option, some, none, arith, length}
use packetpony.Base.Int.{pos}
use packetpony.Base.Text.{text}
use packetpony.Config.{ListenerConfig, RateLimitConfig, UdpConfig, UdpLoggingConfig}
use packetpony.Net.{Addr}
use packetpony.Net.Sample.{home, ten, sample_net}
use packetpony.Acl.{Allowlist}
use packetpony.Ratelimit.Manager.{RateLimitManager}
use packetpony.Ratelimit.Manager.Places.{Holds}
use packetpony.Proxy.{sent, received}
use packetpony.Proxy.Tcp.{TcpProxy, Chunk, ended, copy_with_stats}
use packetpony.Proxy.Tcp.Books
use packetpony.Proxy.Tcp.Serve.{Event, arrive, round, serve, serve-Balanced}
use packetpony.Proxy.Tcp.Copy.{Counts, copy_with_stats-Counts, copy_with_stats_complete, at_end}

abbrev rate_limits : RateLimitConfig
rate_limits = record {
  max_connections_per_ip = pos 0;
  connections_window = pos 0;
  max_connection_attempts_per_ip = pos 0;
  attempts_window = pos 0;
  max_bandwidth_per_ip = [];
  bandwidth_window = pos 0;
  max_total_connections = pos 1;
  action = [];
  throttle_minimum_bandwidth = [];
  max_bandwidth_bytes = pos 0;
  throttle_minimum_bytes = pos 0;
}

-- At most one connection, `n` of them open.
abbrev pub limiter : ℕ → RateLimitManager
limiter n = record {
  conn_limiter = none;
  attempt_limiter = none;
  bandwidth_limiter = none;
  total_conns = pos n;
  max_total_conns = pos 1;
  action = [];
}

pub limiter-Holds : (n : ℕ) → n ≤ 1 → Holds (limiter n) n
limiter-Holds n h = record { limited = omega arith; counted = refl; bounded = inr h }

abbrev pub logging : UdpLoggingConfig
logging = record {
  log_session_start = true;
  log_session_close = true;
  periodic_log_interval = pos 300;
  periodic_log_bytes = [];
  min_log_duration = pos 0;
  min_log_bytes = [];
  periodic_log_bytes_value = pos 0;
  min_log_bytes_value = pos 0;
}

abbrev pub listener : Option UdpConfig → ListenerConfig
listener udp = record {
  name = text "dns";
  protocol = text "udp";
  listen_address = text ":53";
  target_address = text "10.0.0.9:53";
  allowlist = text "10.0.0.0/8" ∷ [];
  rate_limits = rate_limits;
  tcp = none;
  udp = udp;
}

abbrev pub configured : ListenerConfig
configured =
    listener
      (some (record { session_timeout = pos 30; buffer_size = pos 4096; logging = some logging }))

abbrev pub office : Allowlist
office = record { rules = ten ∷ [] }

abbrev pub client : Addr
client = record { ip = home; port = 5353 }

abbrev tcp_proxy : TcpProxy
tcp_proxy = record { config = configured; limiter = limiter 0; allowlist = office; trace = [] }

tcp_proxy-Balanced : Books.Balanced tcp_proxy 0
tcp_proxy-Balanced = record { places = limiter-Holds 0 (omega arith); gauge = refl }

abbrev events : List Event
events =
    arrive client none 100
    ∷ arrive client none 101
    ∷ round 0 sent at_end 102
    ∷ round 0 received at_end 103
    ∷ arrive client none 104
    ∷ []

serve-Balanced_example :
    Books.Balanced
      (serve sample_net (tcp_proxy, []) events).0
      (length (serve sample_net (tcp_proxy, []) events).1)
serve-Balanced_example = serve-Balanced sample_net events tcp_proxy [] tcp_proxy-Balanced

abbrev full : Chunk
full = record { read = 700; read_error = none; wrote = 700; write_error = none }

copy_with_stats-Counts_example :
    Counts 1400 0 0
      (copy_with_stats tcp_proxy (text "10.0.0.7") 0 0 ((full, 100) ∷ (full, 101) ∷ []))
copy_with_stats-Counts_example =
    copy_with_stats-Counts ((full, 100) ∷ (full, 101) ∷ []) tcp_proxy (text "10.0.0.7") 0 0
      (omega arith) (omega arith) (omega arith, (omega arith, tt))

copy_with_stats_complete_example :
    (q : TcpProxy) × (copy_with_stats tcp_proxy
        (text "10.0.0.7")
        0
        0
        ((full, 100) ∷ (at_end, 101) ∷ [])
      ≡ (q, 700, 700, ended none))
copy_with_stats_complete_example =
    copy_with_stats_complete ((full, 100) ∷ []) tcp_proxy (text "10.0.0.7") 0 0 101 (omega arith)
      (omega arith) refl (refl, refl, refl, tt)
