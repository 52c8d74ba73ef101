-- ===== src/Logging/Json.antt =====
-- internal/logging/jsonlog.go: the logger that appends JSON objects to a file.
use packetpony.Base.{Bool, Option, some, none, if◌then◌else◌}
use packetpony.Base.Text.{Text, text}
use packetpony.Logging.{ConnectionEvent, Fields}
use packetpony.Logging.Entry.{Entry, event_members, log_entry}

-- `JSONLogger`: the file to which its encoder writes.
pub record JsonLogger : Type 0 where
  pub path : Text

-- A line of the file, or the complaint on stderr where the line could not be written; the error in the
-- complaint is left out.
pub data Record : Type 0 where
  written : Entry → Record
  complaint : Text → Record

-- `NewJSONLogger`, of whether the file opens.
unfoldable pub new_json_logger : Text → Bool → Option JsonLogger
new_json_logger path opens = if opens then some (record { path = path }) else none

-- `LogConnection`, of whether the file can be written.
unfoldable pub log_connection : Bool → ConnectionEvent → Record
log_connection writes event =
    if writes
    then written (event_members event)
    else complaint (text "Failed to write connection event to JSON log: ")

unfoldable pub log_message : Bool → Text → Text → Fields → Record
log_message writes level msg fields =
    if writes
    then written (log_entry level msg fields)
    else complaint (text "Failed to write log message to JSON log: ")

unfoldable pub log_error : Bool → Text → Fields → Record
unfolding log_message
log_error writes msg fields = log_message writes (text "error") msg fields

unfoldable pub log_info : Bool → Text → Fields → Record
unfolding log_message
log_info writes msg fields = log_message writes (text "info") msg fields

unfoldable pub log_warning : Bool → Text → Fields → Record
unfolding log_message
log_warning writes msg fields = log_message writes (text "warning") msg fields
