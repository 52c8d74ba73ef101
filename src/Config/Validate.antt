-- ===== src/Config/Validate.antt =====
-- internal/config/validate.go. `none` is a nil error; an error names the field, and what encloses it.
use packetpony.Base.{
  ℕ, ◌+◌, Bool, true, false, not, ◌&&◌, ◌||◌, List, [], ◌∷◌, Option, some, none, ite, if◌then◌else◌,
  length, ◌==◌,
}
use packetpony.Base.Int.{pos, ltb_ℤ}
use packetpony.Base.Text.{Text, Text-discrete, text, trim_space, contains_char, to_lower}
use packetpony.Net.{Net}
use packetpony.Config.{
  Config, LoggingConfig, SyslogConfig, JsonLogConfig, MetricsConfig, PrometheusConfig,
  ListenerConfig, RateLimitConfig, TcpConfig, UdpConfig,
}
use packetpony.Config.Bandwidth.{parse_bandwidth}

pub data Fault : Type 0 where
  is_required is_invalid is_negative is_not_positive is_too_large : Text → Fault
  no_logging_method no_listener path_without_slash : Fault
  duplicate_name duplicate_address : Text → Fault
  in_section : Text → Fault → Fault
  in_listener : ℕ → Text → Fault → Fault
  in_entry : ℕ → Fault → Fault

-- `if err := …; err != nil { return err }`, and then the rest.
infixr 20 ◌then◌
unfoldable pub ◌then◌ : Option Fault → Option Fault → Option Fault
none then rest = rest
some e then rest = some e

-- `if b { return e }`.
unfoldable pub fails : Bool → Fault → Option Fault
fails true e = some e
fails false e = none

unfoldable pub within : (Fault → Fault) → Option Fault → Option Fault
within f none = none
within f (some e) = some (f e)

abbrev pub is_text : Text → Text → Bool
is_text s t = ite (Text-discrete s t) true false

abbrev pub is_empty : Text → Bool
is_empty s = is_text s []

abbrev pub starts_with_slash : Text → Bool
starts_with_slash [] = false
starts_with_slash (c ∷ s) = c == b'/'

unfoldable pub validate_syslog : SyslogConfig → Option Fault
validate_syslog s =
    fails
      (not (is_empty s.network)
        && not (is_text s.network (text "udp"))
        && not (is_text s.network (text "tcp"))
        && not (is_text s.network (text "unix")))
      (is_invalid (text "network"))
    then fails (is_empty s.address) (is_required (text "address"))
    then fails
        (let p = to_lower s.priority in
          not (is_empty s.priority)
          && not (
              is_text p (text "debug")
              || is_text p (text "info")
              || is_text p (text "warning")
              || is_text p (text "error")))
        (is_invalid (text "priority"))

unfoldable pub validate_json_log : JsonLogConfig → Option Fault
validate_json_log j = fails (is_empty j.path) (is_required (text "path"))

unfoldable pub validate_logging : LoggingConfig → Option Fault
validate_logging l =
    (if l.syslog.enabled
      then within (in_section (text "syslog")) (validate_syslog l.syslog)
      else none)
    then (if l.json_log.enabled
        then within (in_section (text "jsonlog")) (validate_json_log l.json_log)
        else none)
    then fails (not l.syslog.enabled && not l.json_log.enabled && not l.stdout.enabled)
        no_logging_method

unfoldable pub validate_prometheus : PrometheusConfig → Option Fault
validate_prometheus p =
    fails (is_empty p.listen_address) (is_required (text "listen_address"))
    then fails (is_empty p.path) (is_required (text "path"))
    then fails (not (starts_with_slash p.path)) path_without_slash

unfoldable pub validate_metrics : MetricsConfig → Option Fault
validate_metrics m =
    if m.prometheus.enabled
    then within (in_section (text "prometheus")) (validate_prometheus m.prometheus)
    else none

unfoldable pub validate_rate_limits : RateLimitConfig → Option Fault
validate_rate_limits r =
    fails (ltb_ℤ r.max_connections_per_ip (pos 0)) (is_negative (text "max_connections_per_ip"))
    then fails (ltb_ℤ r.connections_window (pos 0)) (is_negative (text "connections_window"))
    then fails (ltb_ℤ r.max_connection_attempts_per_ip (pos 0))
        (is_negative (text "max_connection_attempts_per_ip"))
    then fails (ltb_ℤ r.attempts_window (pos 0)) (is_negative (text "attempts_window"))
    then fails (not (is_empty r.max_bandwidth_per_ip) && is_unparsed r.max_bandwidth_per_ip)
        (is_invalid (text "max_bandwidth_per_ip"))
    then fails (ltb_ℤ r.bandwidth_window (pos 0)) (is_negative (text "bandwidth_window"))
    then fails (ltb_ℤ r.max_total_connections (pos 0)) (is_negative (text "max_total_connections"))
    then fails
        (not (is_empty r.action)
          && not (
              is_text action (text "drop")
              || is_text action (text "throttle")
              || is_text action (text "log_only")))
        (is_invalid (text "action"))
    then (if is_text action (text "throttle")
        then (fails (is_empty r.throttle_minimum_bandwidth) (is_required (text "throttle_minimum"))
            then fails (is_unparsed r.throttle_minimum_bandwidth)
                (is_invalid (text "throttle_minimum")))
        else none)
  where
    action : Text
    action = to_lower r.action

    is_unparsed : Text → Bool
    is_unparsed s = elim (parse_bandwidth s) [ none ↦ true | some n ↦ false ]

unfoldable pub validate_tcp : TcpConfig → Option Fault
validate_tcp t =
    fails (ltb_ℤ t.read_timeout (pos 0)) (is_negative (text "read_timeout"))
    then fails (ltb_ℤ t.write_timeout (pos 0)) (is_negative (text "write_timeout"))
    then fails (ltb_ℤ t.idle_timeout (pos 0)) (is_negative (text "idle_timeout"))

unfoldable pub validate_udp : UdpConfig → Option Fault
validate_udp u =
    fails (not (ltb_ℤ (pos 0) u.session_timeout)) (is_not_positive (text "session_timeout"))
    then fails (not (ltb_ℤ (pos 0) u.buffer_size)) (is_not_positive (text "buffer_size"))
    then fails (ltb_ℤ (pos 65_536) u.buffer_size) (is_too_large (text "buffer_size"))

unfoldable pub validate_protocol : Text → Option Fault
validate_protocol protocol =
    let p = to_lower protocol in
    fails (not (is_text p (text "tcp")) && not (is_text p (text "udp")))
      (is_invalid (text "protocol"))

-- `m[s]` of a map to `bool`, as the list of its keys.
abbrev pub has : Text → List Text → Bool
has s [] = false
has s (t ∷ ts) = is_text t s || has s ts

module _ (net : Net) where
  -- The test of the host is not one: a host that is no address and not empty is taken for a name.
  unfoldable pub validate_address : Text → Option Fault
  validate_address addr = elim (net.split_host_port addr) [
    | none ↦ some (is_invalid (text "address"))
    | some (host, port) ↦ fails (is_empty port) (is_required (text "port"))
  ]

  unfoldable pub validate_cidr_or_ip : Text → Option Fault
  validate_cidr_or_ip s =
      let t = trim_space s in
      if is_empty t
      then some (is_required (text "CIDR or IP"))
      else (if contains_char t b'/'
          then (elim (net.parse_cidr t) [ none ↦ some (is_invalid (text "CIDR")) | some n ↦ none ])
          else (elim (net.parse_ip t) [
            | none ↦ some (is_invalid (text "IP address"))
            | some ip ↦ none
          ]))

  -- The loop over the allowlist, from its entry `i` on.
  unfoldable pub validate_entries : ℕ → List Text → Option Fault
  validate_entries i [] = none
  validate_entries i (e ∷ es) =
      let rest = validate_entries (i + 1) es in
      within (in_entry i) (validate_cidr_or_ip e) then rest

  unfoldable pub validate_listener : ListenerConfig → Option Fault
  validate_listener l =
      fails (is_empty l.name) (is_required (text "name"))
      then validate_protocol l.protocol
      then fails (is_empty l.listen_address) (is_required (text "listen_address"))
      then within (in_section (text "listen_address")) (validate_address l.listen_address)
      then fails (is_empty l.target_address) (is_required (text "target_address"))
      then within (in_section (text "target_address")) (validate_address l.target_address)
      then within (in_section (text "allowlist")) (validate_entries 0 l.allowlist)
      then within (in_section (text "rate_limits")) (validate_rate_limits l.rate_limits)
      then section (is_text l.protocol (text "tcp")) (text "tcp") validate_tcp l.tcp
      then section (is_text l.protocol (text "udp")) (text "udp") validate_udp l.udp
    where
      section : {A : Type 0} → Bool → Text → (A → Option Fault) → Option A → Option Fault
      section applies name f none = none
      section applies name f (some c) = if applies then within (in_section name) (f c) else none

  -- The loop over the listeners, with the names and addresses that it has seen.
  unfoldable pub validate_listeners : ℕ → List Text → List Text → List ListenerConfig → Option Fault
  validate_listeners i names addrs [] = none
  validate_listeners i names addrs (l ∷ ls) =
      let rest = validate_listeners (i + 1) (l.name ∷ names) (l.listen_address ∷ addrs) ls in
      within (in_listener i l.name) (validate_listener l)
      then fails (has l.name names) (duplicate_name l.name)
      then fails (has l.listen_address addrs) (duplicate_address l.listen_address)
      then rest

  -- `Config.Validate`.
  unfoldable pub validate : Config → Option Fault
  unfolding validate_listeners
  validate c =
      fails (is_empty c.server.name) (is_required (text "server.name"))
      then within (in_section (text "logging config")) (validate_logging c.logging)
      then within (in_section (text "metrics config")) (validate_metrics c.metrics)
      then fails (length c.listeners == 0) no_listener
      then validate_listeners 0 [] [] c.listeners
