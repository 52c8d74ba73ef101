-- ===== src/Metrics/Tests.antt =====
-- A registry and patterns for the tests: a registry is the list of its names, and a pattern is its own
-- normal form.
use packetpony.Base.{◌≡◌, refl, true, false, List, [], ◌∷◌, Option, some, none, All, if◌then◌else◌}
use packetpony.Base.Text.{Text, Text-discrete, text}
use packetpony.Metrics
use packetpony.Base.Map.{lookup, insert}
use packetpony.Config.{PrometheusConfig}
use packetpony.Config.Validate.{has, validate_prometheus, fails, ◌then◌}
use packetpony.Metrics.{
  Collector, Server, prometheus_handler, health_handler, proxy_metrics, collectors,
  new_proxy_metrics, start_metrics_server,
}
use packetpony.Metrics.Registry.{is_well_formed, new_proxy_metrics_once}
use packetpony.Metrics.Routes.{Answers, no_server, start_metrics_server-routes}

register : Collector → List Text → Option (List Text)
register c names =
    if has c.name names then none else (if is_well_formed c then some (c.name ∷ names) else none)

register_new :
    (c : Collector) (names : List Text)
    → is_well_formed c ≡ true
    → has c.name names ≡ false
    → (r : List Text) × (register c names ≡ some r) × (r ≡ c.name ∷ names)
unfolding register
register_new c names w h = (c.name ∷ names, rw h (rw w refl), refl)

register_again :
    (c : Collector) (names : List Text) → has c.name names ≡ true → register c names ≡ none
unfolding register
register_again c names h = rw h refl

go_collector :
    All
      (λ (c : Collector). has c.name (text "go_goroutines" ∷ []) ≡ false)
      (collectors proxy_metrics)
unfolding proxy_metrics Text-discrete
go_collector = (refl, (refl, (refl, (refl, (refl, (refl, (refl, (refl, tt))))))))

new_proxy_metrics_once_example :
    (r : List Text) × (new_proxy_metrics register (text "go_goroutines" ∷ [])
      ≡ some (r, proxy_metrics))
    × All (λ (c : Collector). has c.name r ≡ true) (collectors proxy_metrics)
    × (new_proxy_metrics register r ≡ none)
new_proxy_metrics_once_example =
    new_proxy_metrics_once register (λ names. names) register_new register_again
      (text "go_goroutines" ∷ []) go_collector

abbrev served : PrometheusConfig
served = record { enabled = true; listen_address = text ":9090"; path = text "/metrics" }

start_metrics_server-routes_example : Answers (λ p. some p) served (some (text "/metrics"))
start_metrics_server-routes_example =
    start_metrics_server-routes (λ p. some p) served (refl, refl, refl) refl

-- The checks of a configuration accept a path that makes the server panic.
collision :
    (validate_prometheus (record served { path = text "/health" }) ≡ none)
    × (start_metrics_server (λ p. some p) (record served { path = text "/health" }) no_server
        ≡ none)
unfolding validate_prometheus fails ◌then◌ start_metrics_server Metrics.handle lookup insert
    Text-discrete
collision = (refl, refl)
