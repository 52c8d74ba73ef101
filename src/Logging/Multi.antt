-- ===== src/Logging/Multi.antt =====
-- internal/logging/logger.go: the logger that hands all calls on. Whether a backend opens, can be
-- written and closes is an argument.
use packetpony.Base.{
  ℕ, Bool, true, false, List, [], ◌∷◌, ◌++◌, Option, some, none, length, ◌==◌, if◌then◌else◌, ◌>>=◌,
  map,
}
use packetpony.Base.Text.{Text}
use packetpony.Config.{LoggingConfig}
use packetpony.Logging.{ConnectionEvent, Fields}
use packetpony.Logging.Syslog
use packetpony.Logging.Syslog.{Severity, SyslogLogger, new_syslog_logger, syslogger_of}
use packetpony.Logging.Json
use packetpony.Logging.Json.{JsonLogger, Record, new_json_logger}
use packetpony.Logging.Stdout
use packetpony.Logging.Stdout.{StdoutLogger, Stream, Line, new_stdout_logger}

-- A backend that is open.
pub data Backend : Type 0 where
  syslog : SyslogLogger → Backend
  json_log : JsonLogger → Backend
  console : StdoutLogger → Backend

-- `if enabled { b, err := …; if err != nil { return err }; loggers = append(loggers, b) }`.
unfoldable pub add_backend : Bool → Option Backend → List Backend → Option (List Backend)
add_backend false opened loggers = some loggers
add_backend true none loggers = none
add_backend true (some b) loggers = some (loggers ++ b ∷ [])

-- `NewMultiLogger`; `none` is an error.
unfoldable pub new_multi_logger : LoggingConfig → Bool → Bool → Option (List Backend)
unfolding add_backend
new_multi_logger cfg syslog_opens json_opens = do
  a ←
      add_backend cfg.syslog.enabled
        (do l ← new_syslog_logger cfg.syslog syslog_opens; some (syslog l)) []
  b ←
      add_backend cfg.json_log.enabled
        (do l ← new_json_logger cfg.json_log.path json_opens; some (json_log l)) a
  c ← add_backend cfg.stdout.enabled (some (console (new_stdout_logger cfg.stdout.use_json))) b
  if length c == 0 then none else some c

-- The verb `%q`, the layout of times, and whether the file of the JSON logger can be written.
pub record Host : Type 0 where
  pub quote : Text → Text
  pub date : ℕ → Text
  pub file_writes : Bool

-- A line that a backend writes.
pub data Output : Type 0 where
  to_syslog : Severity × Text → Output
  to_file : Record → Output
  to_console : Stream × Line → Output

module _ (h : Host) where
  abbrev pub connection_to : ConnectionEvent → Backend → Output
  connection_to e (syslog l) = to_syslog (Syslog.log_connection h.quote e)
  connection_to e (json_log l) = to_file (Json.log_connection h.file_writes e)
  connection_to e (console l) = to_console (Stdout.log_connection h.date h.quote l e)

  abbrev pub error_to : Text → Fields → Backend → Output
  error_to msg fields (syslog l) = to_syslog (Syslog.log_error msg fields)
  error_to msg fields (json_log l) = to_file (Json.log_error h.file_writes msg fields)
  error_to msg fields (console l) = to_console (Stdout.log_error l msg fields)

  abbrev pub info_to : Text → Fields → Backend → Output
  info_to msg fields (syslog l) = to_syslog (Syslog.log_info msg fields)
  info_to msg fields (json_log l) = to_file (Json.log_info h.file_writes msg fields)
  info_to msg fields (console l) = to_console (Stdout.log_info l msg fields)

  abbrev pub warning_to : Text → Fields → Backend → Output
  warning_to msg fields (syslog l) = to_syslog (Syslog.log_warning msg fields)
  warning_to msg fields (json_log l) = to_file (Json.log_warning h.file_writes msg fields)
  warning_to msg fields (console l) = to_console (Stdout.log_warning l msg fields)

  unfoldable pub log_connection : List Backend → ConnectionEvent → List Output
  log_connection loggers e = map (connection_to e) loggers

  unfoldable pub log_error : List Backend → Text → Fields → List Output
  log_error loggers msg fields = map (error_to msg fields) loggers

  unfoldable pub log_info : List Backend → Text → Fields → List Output
  log_info loggers msg fields = map (info_to msg fields) loggers

  unfoldable pub log_warning : List Backend → Text → Fields → List Output
  log_warning loggers msg fields = map (warning_to msg fields) loggers

-- The loop of `Close`, of what the backends answer, from the error that it has: every backend is
-- closed, and the last error is returned.
unfoldable pub close_from : Option Text → (Backend → Option Text) → List Backend → Option Text
close_from last_err closes [] = last_err
close_from last_err closes (b ∷ bs) = elim (closes b) [
  | some e ↦ close_from (some e) closes bs
  | none ↦ close_from last_err closes bs
]

unfoldable pub close : (Backend → Option Text) → List Backend → Option Text
unfolding close_from
close closes loggers = close_from none closes loggers
