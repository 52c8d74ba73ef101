-- ===== src/Metrics.antt =====
-- internal/metrics/prometheus.go. The registry of the Prometheus client is a parameter, with what is
-- documented of `MustRegister` as hypotheses where they are needed; `none` is a panic. Package http
-- compares patterns in a normal form, which is a parameter too.
pub mod Registry
pub mod Routes
mod Tests
use packetpony.Base.{
  ℕ, Bool, true, false, ◌&&◌, ◌||◌, List, [], ◌∷◌, Option, some, none, not, if◌then◌else◌, ◌>>=◌,
  leb, ◌==◌,
}
use packetpony.Base.Text.{Text, Text-discrete, text}
use packetpony.Base.Map.{lookup, insert}
use packetpony.Config.{PrometheusConfig}

-- The vectors of the program. The buckets of the histogram are those of `ExponentialBuckets`, whose first
-- argument is in thousandths.
pub data Kind : Type 0 where
  counter gauge : Kind
  histogram : ℕ → ℕ → ℕ → Kind

pub record Collector : Type 0 where
  pub kind : Kind
  pub name : Text
  pub help : Text
  pub labels : List Text

pub record ProxyMetrics : Type 0 where
  pub connections_total : Collector
  pub connections_active : Collector
  pub bytes_transferred : Collector
  pub packets_transferred : Collector
  pub connection_duration : Collector
  pub rate_limit_drops : Collector
  pub acl_drops : Collector
  pub errors : Collector

-- The literal of `NewProxyMetrics`.
unfoldable pub proxy_metrics : ProxyMetrics
proxy_metrics = record {
  connections_total = record {
    kind = counter;
    name = text "packetpony_connections_total";
    help = text "Total number of connections";
    labels = text "listener" ∷ text "protocol" ∷ text "status" ∷ [];
  };
  connections_active = record {
    kind = gauge;
    name = text "packetpony_connections_active";
    help = text "Number of active connections";
    labels = text "listener" ∷ text "protocol" ∷ [];
  };
  bytes_transferred = record {
    kind = counter;
    name = text "packetpony_bytes_transferred_total";
    help = text "Total bytes transferred";
    labels = text "listener" ∷ text "direction" ∷ [];
  };
  packets_transferred = record {
    kind = counter;
    name = text "packetpony_packets_transferred_total";
    help = text "Total packets transferred (UDP only)";
    labels = text "listener" ∷ text "direction" ∷ [];
  };
  connection_duration = record {
    kind = histogram 1 2 15;
    name = text "packetpony_connection_duration_seconds";
    help = text "Connection duration in seconds";
    labels = text "listener" ∷ text "protocol" ∷ [];
  };
  rate_limit_drops = record {
    kind = counter;
    name = text "packetpony_rate_limit_drops_total";
    help = text "Total connections dropped due to rate limiting";
    labels = text "listener" ∷ text "reason" ∷ [];
  };
  acl_drops = record {
    kind = counter;
    name = text "packetpony_acl_drops_total";
    help = text "Total connections dropped due to ACL";
    labels = text "listener" ∷ [];
  };
  errors = record {
    kind = counter;
    name = text "packetpony_errors_total";
    help = text "Total errors encountered";
    labels = text "listener" ∷ text "type" ∷ [];
  };
}

-- The collectors, in the order in which they are registered.
abbrev pub collectors : ProxyMetrics → List Collector
collectors m =
    m.connections_total ∷ m.connections_active ∷ m.bytes_transferred ∷ m.packets_transferred
    ∷ m.connection_duration ∷ m.rate_limit_drops ∷ m.acl_drops ∷ m.errors ∷ []

module _ {R : Type 0} (register : Collector → R → Option R) where
  -- The calls of `MustRegister`.
  unfoldable pub must_register : List Collector → R → Option R
  must_register [] r = some r
  must_register (c ∷ cs) r = do r' ← register c r; must_register cs r'

  -- `NewProxyMetrics`.
  unfoldable pub new_proxy_metrics : R → Option (R × ProxyMetrics)
  unfolding must_register
  new_proxy_metrics r = do r' ← must_register (collectors proxy_metrics) r; some (r', proxy_metrics)

-- What answers a request.
pub data Handler : Type 0 where
  prometheus_handler health_handler : Handler

-- An answer of `healthHandler`.
pub record Response : Type 0 where
  pub content_type : Text
  pub status : ℕ
  pub body : Text

unfoldable pub healthy : Response
healthy = record {
  content_type = text "application/json";
  status = 200;
  body = text "{\"status\":\"healthy\",\"service\":\"packetpony\"}";
}

-- The default `ServeMux`, by the normal forms of its patterns, and the address that is served.
pub record Server : Type 0 where
  pub mux : List (Text × Handler)
  pub listen_address : Option Text

module _ (normal : Text → Option Text) where
  -- `http.Handle`: a pattern that is not well-formed or that is there already is a panic.
  unfoldable pub handle : Text → Handler → List (Text × Handler) → Option (List (Text × Handler))
  handle pattern h mux = do
    p ← normal pattern
    elim (lookup Text-discrete p mux) [ some _ ↦ none | none ↦ some (insert Text-discrete p h mux) ]

  -- `StartMetricsServer`. It never returns an error: that of `ListenAndServe` is only printed.
  unfoldable pub start_metrics_server : PrometheusConfig → Server → Option Server
  start_metrics_server cfg s = if not cfg.enabled then some s else (do
    m₁ ← handle cfg.path prometheus_handler s.mux
    m₂ ← handle (text "/health") health_handler m₁
    m₃ ← handle (text "/healthz") health_handler m₂
    m₄ ← handle (text "/ready") health_handler m₃
    some (record { mux = m₄; listen_address = some cfg.listen_address }))
