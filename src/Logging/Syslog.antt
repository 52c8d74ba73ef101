-- ===== src/Logging/Syslog.antt =====
-- internal/logging/syslog.go: the connection, the severities and the texts. The verb `%q` of package fmt
-- is a parameter.
use packetpony.Base.{
  Bool, true, false, not, List, [], ◌∷◌, ◌++◌, ite, if◌then◌else◌, Option, some, none, length, ◌==◌,
  ◌||◌, map,
}
use packetpony.Base.Text.{Text, Text-discrete, text, to_lower}
use packetpony.Base.Show.{show, show_ℤ}
use packetpony.Config.{SyslogConfig}
use packetpony.Logging.{ConnectionEvent, Fields, Value, print_value}

-- `syslog.Priority`, as far as it is used.
pub data Severity : Type 0 where
  debug info warning err : Severity

-- `parseSyslogPriority`.
unfoldable pub parse_syslog_priority : Text → Severity
parse_syslog_priority priority =
    let p = to_lower priority in
    ite (Text-discrete p (text "debug")) debug (
      ite (Text-discrete p (text "info")) info (
        ite (Text-discrete p (text "warning")) warning
          (ite (Text-discrete p (text "error")) err info)))

abbrev pub is_text : Text → Text → Bool
is_text s t = ite (Text-discrete s t) true false

-- The severity with which `LogConnection` writes.
unfoldable pub severity_of : ConnectionEvent → Severity
severity_of event =
    if is_text event.event_type (text "open")
    then info
    else (if is_text event.event_type (text "close")
        then (if is_text event.error [] then info else warning)
        else info)

-- `strings.Join(parts, " ")`.
unfoldable pub join : List Text → Text
join [] = []
join (p ∷ []) = p
join (p ∷ q ∷ ps) = p ++ text " " ++ join (q ∷ ps)

abbrev pub when : Bool → List Text → List Text
when true ps = ps
when false ps = []

-- The parts of `formatConnectionEvent`.
unfoldable pub event_parts : (Text → Text) → ConnectionEvent → List Text
event_parts quote event =
    let is_close = is_text event.event_type (text "close") in
    (text "listener=" ++ event.listener_name)
    ∷ (text "proto=" ++ event.protocol)
    ∷ (text "event=" ++ event.event_type)
    ∷ (text "src=" ++ event.source_ip ++ text ":" ++ show event.source_port)
    ∷ (text "dst=" ++ event.target_ip ++ text ":" ++ show_ℤ event.target_port)
    ∷ when is_close (
        (text "duration=" ++ show event.duration ++ text "ms")
          ∷ (text "bytes_sent=" ++ show_ℤ event.bytes_sent)
          ∷ (text "bytes_recv=" ++ show_ℤ event.bytes_received)
          ∷ when (is_text event.protocol (text "udp")) (
              (text "pkts_sent=" ++ show_ℤ event.packets_sent)
              ∷ (text "pkts_recv=" ++ show_ℤ event.packets_received)
              ∷ [])
        ++ when (not (is_text event.error [])) ((text "error=" ++ quote event.error) ∷ []))

-- `formatConnectionEvent`.
unfoldable pub format_connection_event : (Text → Text) → ConnectionEvent → Text
format_connection_event quote event = join (event_parts quote event)

-- What `syslog.New` and `syslog.Dial` connect to.
pub data Peer : Type 0 where
  local : Peer
  remote : Text → Text → Peer

-- `SyslogLogger`, with the peer of its writer.
pub record SyslogLogger : Type 0 where
  pub peer : Peer
  pub tag : Text
  pub priority : Severity

abbrev pub peer_of : SyslogConfig → Peer
peer_of cfg =
    if is_text cfg.network [] || is_text cfg.network (text "unix")
    then local
    else remote cfg.network cfg.address

abbrev pub syslogger_of : SyslogConfig → SyslogLogger
syslogger_of cfg = record {
  peer = peer_of cfg;
  tag = cfg.tag;
  priority = parse_syslog_priority cfg.priority;
}

-- `NewSyslogLogger`, of whether the peer can be reached.
unfoldable pub new_syslog_logger : SyslogConfig → Bool → Option SyslogLogger
new_syslog_logger cfg opens = if opens then some (syslogger_of cfg) else none

-- `LogConnection`: the severity and the text of a line.
unfoldable pub log_connection : (Text → Text) → ConnectionEvent → Severity × Text
log_connection quote event = (severity_of event, format_connection_event quote event)

abbrev pub format_field : Text × Value → Text
format_field (key, value) = key ++ text "=" ++ print_value value

-- `formatMessage`.
unfoldable pub format_message : Text → Fields → Text
format_message msg fields = if length fields == 0 then msg else join (msg ∷ map format_field fields)

unfoldable pub log_error : Text → Fields → Severity × Text
log_error msg fields = (err, format_message msg fields)

unfoldable pub log_info : Text → Fields → Severity × Text
log_info msg fields = (info, format_message msg fields)

unfoldable pub log_warning : Text → Fields → Severity × Text
log_warning msg fields = (warning, format_message msg fields)
