-- ===== src/Logging.antt =====
-- internal/logging: the events that the proxies log (logger.go), and the loggers.
pub mod Entry
pub mod Syslog
pub mod Json
pub mod Stdout
pub mod Multi
pub mod Opened
pub mod Messages
mod Tests
use packetpony.Base.{ℕ, List}
use packetpony.Base.Int.{ℤ}
use packetpony.Base.Text.{Text}
use packetpony.Base.Show.{show_ℤ}

pub record ConnectionEvent : Type 0 where
  pub timestamp : ℕ
  pub listener_name : Text
  pub protocol : Text
  pub source_ip : Text
  pub source_port : ℕ
  pub target_ip : Text
  pub target_port : ℤ
  pub event_type : Text
  pub bytes_sent : ℤ
  pub bytes_received : ℤ
  pub packets_sent : ℤ
  pub packets_received : ℤ
  pub duration : ℕ  -- milliseconds
  pub error : Text

-- A value of `fields`, as the program gives them: a text or an `int`.
pub data Value : Type 0 where
  str : Text → Value
  num : ℤ → Value

-- `map[string]interface{}`, in the order in which Go ranges over it; nil is the empty list.
abbrev pub Fields : Type 0
Fields = List (Text × Value)

-- The verb `%v` of package fmt.
unfoldable pub print_value : Value → Text
print_value (str s) = s
print_value (num n) = show_ℤ n
