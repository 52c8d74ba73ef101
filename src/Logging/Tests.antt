-- ===== src/Logging/Tests.antt =====
-- The loggers on concrete events and configurations.
use packetpony.Base.{
  ◌∷◌, ◌≡◌, ◌≢◌, refl, ◌⊎◌, true, false, not, ◌&&◌, ◌||◌, List, [], ◌++◌, some, none,
}
use packetpony.Base.Int.{pos}
use packetpony.Base.Text.{Text-discrete, text, to_lower}
use packetpony.Base.Show.{show, show_ℤ, digits_of}
use packetpony.Config.{LoggingConfig}
use packetpony.Config.Validate.{validate_logging, validate_syslog, ◌then◌, fails, within}
use packetpony.Logging.{ConnectionEvent}
use packetpony.Logging.Syslog.{warning, severity_of, event_parts, join, format_connection_event}
use packetpony.Logging.Multi.{Backend, Host, new_multi_logger, log_error, log_info, log_warning}
use packetpony.Logging.Opened.{enabled_backends, new_multi_logger-validate_logging}
use packetpony.Logging.Messages.{lines_of, log-new_multi_logger}
use packetpony.Logging.{Fields, str, num}
use packetpony.Logging.Entry.{
  is_before, json_text, json_of, log_entry, field_or, lookup-log_entry, event_members, read_event,
  read_event-event_members,
}
use packetpony.Logging.Stdout.{stdout, stderr, new_stdout_logger, log_connection_text}
use packetpony.Logging.Syslog.{err, info, new_syslog_logger}
use packetpony.Logging.Json.{new_json_logger}
use packetpony.Base.Map.{lookup, insert, Distinct}
use packetpony.Base.{◌∷◌, ite}

abbrev closed : ConnectionEvent
closed = record {
  timestamp = 100;
  listener_name = text "dns";
  protocol = text "udp";
  source_ip = text "10.0.0.7";
  source_port = 5353;
  target_ip = text "10.0.0.9";
  target_port = pos 53;
  event_type = text "close";
  bytes_sent = pos 60;
  bytes_received = pos 1200;
  packets_sent = pos 1;
  packets_received = pos 10;
  duration = 250;
  error = text "x";
}

formatted :
    (format_connection_event (λ t. text "'" ++ t ++ text "'") closed
      ≡ text
          "listener=dns proto=udp event=close src=10.0.0.7:5353 dst=10.0.0.9:53 duration=250ms bytes_sent=60 bytes_recv=1200 pkts_sent=1 pkts_recv=10 error='x'")
    × (severity_of closed ≡ warning)
unfolding format_connection_event severity_of event_parts join show show_ℤ digits_of Text-discrete
formatted = (refl, refl)

abbrev console : LoggingConfig
console = record {
  syslog = record {
    enabled = true;
    network = [];
    address = text "log";
    tag = [];
    priority = text "INFO";
  };
  json_log = record { enabled = false; path = [] };
  stdout = record { enabled = true; use_json = false };
}

valid : validate_logging console ≡ none
unfolding validate_logging validate_syslog ◌then◌ fails within to_lower Text-discrete
valid = refl

new_multi_logger-validate_logging_example :
    ((true && not false || false && not true) ≡ true) × (new_multi_logger console false true ≡ none)
    ⊎ ((true && not false || false && not true) ≡ false)
      × (new_multi_logger console false true ≡ some (enabled_backends console))
      × (enabled_backends console ≢ [])
new_multi_logger-validate_logging_example =
    new_multi_logger-validate_logging console false true valid

read_event-event_members_example : read_event (event_members closed) ≡ closed
read_event-event_members_example = read_event-event_members closed

-- A field that hides the level.
abbrev fields : Fields
fields = (text "level", str (text "high")) ∷ (text "count", num (pos 2)) ∷ []

fields-Distinct : Distinct Text-discrete fields
unfolding lookup Text-discrete
fields-Distinct = (refl, (refl, tt))

lookup-log_entry_example :
    lookup Text-discrete (text "level") (log_entry (text "info") (text "ready") fields)
    ≡ field_or (lookup Text-discrete (text "level") fields) (
        ite (Text-discrete (text "level") (text "level")) (some (json_text (text "info"))) (
          ite
            (Text-discrete (text "message") (text "level"))
            (some (json_text (text "ready")))
            none))
lookup-log_entry_example =
    lookup-log_entry (text "info") (text "ready") fields (text "level") fields-Distinct

entry :
    log_entry (text "info") (text "ready") fields
    ≡ (text "count", json_of (num (pos 2)))
      ∷ (text "level", json_text (text "high"))
      ∷ (text "message", json_text (text "ready"))
      ∷ []
unfolding log_entry is_before insert Text-discrete
entry = refl

abbrev host : Host
host = record { quote = λ t. text "'" ++ t ++ text "'"; date = λ t. text "now"; file_writes = true }

abbrev both : LoggingConfig
both = record console { json_log = record { enabled = true; path = text "log.json" } }

opened : (backends : List Backend) × (new_multi_logger both true true ≡ some backends)
unfolding new_multi_logger new_syslog_logger new_json_logger new_stdout_logger
opened = (_, refl)

log-new_multi_logger_example :
    (log_error host opened.0 (text "ready") fields
      ≡ lines_of both (text "ready") fields err (text "error") stderr (text "ERROR"))
    × (log_warning host opened.0 (text "ready") fields
        ≡ lines_of both (text "ready") fields warning (text "warning") stderr (text "WARNING"))
    × (log_info host opened.0 (text "ready") fields
        ≡ lines_of both (text "ready") fields info (text "info") stdout (text "INFO"))
log-new_multi_logger_example =
    log-new_multi_logger both true true host opened.0 (text "ready") fields opened.1 refl

printed :
    log_connection_text host.date host.quote closed
    ≡ text
        "[now] Connection closed: listener=dns protocol=udp src=10.0.0.7:5353 dst=10.0.0.9:53 duration=250ms bytes_sent=60 bytes_recv=1200 pkts_sent=1 pkts_recv=10 error='x'"
unfolding log_connection_text show show_ℤ digits_of Text-discrete
printed = refl
