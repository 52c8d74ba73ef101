-- ===== src/Logging/Messages.antt =====
-- internal/logging: what the logger that a configuration gives writes for a message.
use packetpony.Base.{◌≡◌, refl, ◌∙◌, Bool, List, [], ◌∷◌, ◌++◌, some, if◌then◌else◌, true}
use packetpony.Base.Text.{Text, text}
use packetpony.Config.{LoggingConfig}
use packetpony.Logging.{Fields}
use packetpony.Logging.Entry.{log_entry}
use packetpony.Logging.Syslog.{Severity, err, info, warning, format_message}
use packetpony.Logging.Syslog
use packetpony.Logging.Json.{written}
use packetpony.Logging.Json
use packetpony.Logging.Stdout.{Stream, stdout, stderr}
use packetpony.Logging.Stdout
use packetpony.Logging.Opened.{map-new_multi_logger}
use packetpony.Logging.Multi.{
  Host, Backend, Output, to_syslog, to_file, to_console, new_multi_logger, log_error, log_info,
  log_warning, error_to, info_to, warning_to,
}

-- The lines of a message: one for each section that is enabled.
abbrev pub lines_of : LoggingConfig → Text → Fields → Severity → Text → Stream → Text → List Output
lines_of cfg msg fields severity level stream printed_level =
    (if cfg.syslog.enabled then to_syslog (severity, format_message msg fields) ∷ [] else [])
    ++ ((if cfg.json_log.enabled then to_file (written (log_entry level msg fields)) ∷ [] else [])
        ++ (if cfg.stdout.enabled
            then to_console (
              stream,
              Stdout.log_message (record { use_json = cfg.stdout.use_json }) printed_level msg
                  fields,
            )
              ∷ []
            else []))

-- The logger that `NewMultiLogger` gives, while its file can be written, writes a message once for
-- each section that is enabled and nowhere else: an error to syslog as `err`, to the file at the level
-- `error` and to stderr as `ERROR`; a warning as `warning`, at `warning`, and to stderr as `WARNING`;
-- an information as `info`, at `info`, and to stdout as `INFO`.
pub log-new_multi_logger :
    (cfg : LoggingConfig) (syslog_opens json_opens : Bool) (h : Host) (backends : List Backend)
    (msg : Text) (fields : Fields)
    → new_multi_logger cfg syslog_opens json_opens ≡ some backends
    → h.file_writes ≡ true
    → (log_error h backends msg fields
        ≡ lines_of cfg msg fields err (text "error") stderr (text "ERROR"))
      × (log_warning h backends msg fields
          ≡ lines_of cfg msg fields warning (text "warning") stderr (text "WARNING"))
      × (log_info h backends msg fields
          ≡ lines_of cfg msg fields info (text "info") stdout (text "INFO"))
unfolding log_error log_info log_warning Syslog.log_error Syslog.log_info Syslog.log_warning
    Json.log_error Json.log_info Json.log_warning Stdout.log_error Stdout.log_info
    Stdout.log_warning
log-new_multi_logger cfg so jo h backends msg fields e w = (
  map-new_multi_logger (error_to h msg fields) cfg so jo backends e ∙ rw w refl,
  map-new_multi_logger (warning_to h msg fields) cfg so jo backends e ∙ rw w refl,
  map-new_multi_logger (info_to h msg fields) cfg so jo backends e ∙ rw w refl,
)
