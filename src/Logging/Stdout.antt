-- ===== src/Logging/Stdout.antt =====
-- internal/logging/stdout.go: the logger that writes to stdout and stderr. The verb `%q` of package fmt
-- and the layout of a time are parameters.
use packetpony.Base.{Bool, true, false, [], ◌∷◌, ◌++◌, ite, if◌then◌else◌, length, ◌==◌, ℕ}
use packetpony.Base.Text.{Text, Text-discrete, text}
use packetpony.Base.Show.{show, show_ℤ}
use packetpony.Logging.{ConnectionEvent, Fields, print_value}
use packetpony.Logging.Entry.{Entry, event_members, log_entry}

-- `StdoutLogger`.
pub record StdoutLogger : Type 0 where
  pub use_json : Bool

pub data Stream : Type 0 where
  stdout stderr : Stream

pub data Line : Type 0 where
  plain : Text → Line
  object : Entry → Line

-- `NewStdoutLogger`.
unfoldable pub new_stdout_logger : Bool → StdoutLogger
new_stdout_logger use_json = record { use_json = use_json }

abbrev pub is_text : Text → Text → Bool
is_text s t = ite (Text-discrete s t) true false

module _ (date : ℕ → Text) (quote : Text → Text) where
  -- What both forms of the text of an event have between their start and their end.
  abbrev pub endpoints : ConnectionEvent → Text
  endpoints e =
      text " listener="
      ++ (e.listener_name
          ++ (text " protocol="
              ++ (e.protocol
                  ++ (text " src="
                      ++ (e.source_ip
                          ++ (text ":"
                              ++ (show e.source_port
                                  ++ (text " dst="
                                      ++ (e.target_ip ++ (text ":" ++ show_ℤ e.target_port))))))))))

  -- `logConnectionText`.
  unfoldable pub log_connection_text : ConnectionEvent → Text
  log_connection_text e =
      let opened = text "[" ++ (date e.timestamp ++ (text "] Connection opened:" ++ endpoints e)) in
      let closed =
        text "["
        ++ (date e.timestamp
            ++ (text "] Connection closed:"
                ++ (endpoints e
                    ++ (text " duration="
                        ++ (show e.duration
                            ++ (text "ms bytes_sent="
                                ++ (show_ℤ e.bytes_sent
                                    ++ (text " bytes_recv=" ++ show_ℤ e.bytes_received)))))))) in
      let packets =
        if is_text e.protocol (text "udp")
        then text " pkts_sent="
          ++ (show_ℤ e.packets_sent ++ (text " pkts_recv=" ++ show_ℤ e.packets_received))
        else [] in
      let error = if is_text e.error [] then [] else text " error=" ++ quote e.error in
      if is_text e.event_type (text "open") then opened else closed ++ (packets ++ error)

  -- `LogConnection`.
  unfoldable pub log_connection : StdoutLogger → ConnectionEvent → Stream × Line
  log_connection l event =
      if l.use_json
      then (stdout, object (event_members event))
      else (stdout, plain (log_connection_text event))

-- The loop of `logMessage` over the fields.
unfoldable pub print_fields : Fields → Text
print_fields [] = []
print_fields ((key, value) ∷ fields) =
    key ++ (text "=" ++ (print_value value ++ (text " " ++ print_fields fields)))

unfoldable pub log_message : StdoutLogger → Text → Text → Fields → Line
unfolding print_fields
log_message l level msg fields =
    let formatted = text "[" ++ (level ++ (text "] " ++ msg)) in
    if l.use_json
    then object (log_entry level msg fields)
    else plain
        (if length fields == 0 then formatted else formatted ++ (text " " ++ print_fields fields))

unfoldable pub log_error : StdoutLogger → Text → Fields → Stream × Line
unfolding log_message
log_error l msg fields = (stderr, log_message l (text "ERROR") msg fields)

unfoldable pub log_info : StdoutLogger → Text → Fields → Stream × Line
unfolding log_message
log_info l msg fields = (stdout, log_message l (text "INFO") msg fields)

unfoldable pub log_warning : StdoutLogger → Text → Fields → Stream × Line
unfolding log_message
log_warning l msg fields = (stderr, log_message l (text "WARNING") msg fields)
