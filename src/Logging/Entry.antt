-- ===== src/Logging/Entry.antt =====
-- internal/logging/logger.go and jsonlog.go: what package json makes of an event, by the tags of its
-- fields, and of a message. A JSON object is the list of its members, in the order of its text.
use packetpony.Base.{
  ℕ, zero, suc, ◌≡◌, refl, Bool, true, false, List, [], ◌∷◌, ◌++◌, Option, some, none, ite, ltb,
  ◌==◌, arith, if◌then◌else◌, subst, String,
}
use packetpony.Base.Int.{ℤ, pos, negsuc, pos_part}
use packetpony.Base.Text.{Text, Text-discrete, text}
use packetpony.Base.Map.{lookup, insert, lookup-insert, Distinct}
use packetpony.Logging.{ConnectionEvent, Value, Fields, str, num}

-- A time is written in RFC 3339, to the nanosecond.
pub data Json : Type 0 where
  json_text : Text → Json
  json_number : ℤ → Json
  json_time : ℕ → Json

abbrev pub Entry : Type 0
Entry = List (Text × Json)

abbrev pub json_of : Value → Json
json_of (str s) = json_text s
json_of (num n) = json_number n

-- A member with the option `omitempty`, of an integer and of a text.
unfoldable pub number_unless_zero : Text → ℤ → Entry
number_unless_zero name (pos zero) = []
number_unless_zero name (pos (suc n)) = (name, json_number (pos (suc n))) ∷ []
number_unless_zero name (negsuc n) = (name, json_number (negsuc n)) ∷ []

unfoldable pub text_unless_empty : Text → Text → Entry
text_unless_empty name [] = []
text_unless_empty name (c ∷ s) = (name, json_text (c ∷ s)) ∷ []

-- `Encode(event)`.
unfoldable pub event_members : ConnectionEvent → Entry
event_members e =
    (text "timestamp", json_time e.timestamp)
    ∷ (text "listener_name", json_text e.listener_name)
    ∷ (text "protocol", json_text e.protocol)
    ∷ (text "source_ip", json_text e.source_ip)
    ∷ (text "source_port", json_number (pos e.source_port))
    ∷ (text "target_ip", json_text e.target_ip)
    ∷ (text "target_port", json_number e.target_port)
    ∷ (text "event_type", json_text e.event_type)
    ∷ (text "bytes_sent", json_number e.bytes_sent)
    ∷ (text "bytes_received", json_number e.bytes_received)
    ∷ (number_unless_zero (text "packets_sent") e.packets_sent
        ++ (number_unless_zero (text "packets_received") e.packets_received
            ++ ((text "duration_ms", json_number (pos e.duration))
                ∷ text_unless_empty (text "error") e.error)))

-- Keys are in the order of their bytes.
unfoldable pub is_before : Text → Text → Bool
is_before [] [] = false
is_before [] (d ∷ t) = true
is_before (c ∷ s) [] = false
is_before (c ∷ s) (d ∷ t) = if ltb c d then true else (if c == d then is_before s t else false)

unfoldable pub place : Text → Json → Entry → Entry
place k v [] = (k, v) ∷ []
place k v ((j, w) ∷ m) =
    let rest = place k v m in if is_before j k then (j, w) ∷ rest else (k, v) ∷ (j, w) ∷ m

-- The members of a Go map, as package json writes them.
unfoldable pub sort_keys : Entry → Entry
sort_keys [] = []
sort_keys ((k, v) ∷ m) = place k v (sort_keys m)

-- `for key, value := range fields { logEntry[key] = value }`.
unfoldable pub merge : Fields → Entry → Entry
merge [] entry = entry
merge ((k, v) ∷ fields) entry = merge fields (insert Text-discrete k (json_of v) entry)

-- `logEntry`, and its encoding.
unfoldable pub log_entry : Text → Text → Fields → Entry
unfolding merge sort_keys place
log_entry level msg fields =
    sort_keys
      (merge fields ((text "level", json_text level) ∷ (text "message", json_text msg) ∷ []))

-- A text is not before itself.
is_before_irrefl : (s : Text) → is_before s s ≡ false
unfolding is_before
is_before_irrefl [] = refl
is_before_irrefl (c ∷ s) = ground (arith, is_before_irrefl s)

differs : (j k : Text) → is_before j k ≡ true → (j ≡ k) → ⊥
differs j k h e = cc (is_before_irrefl k, subst (λ (x : Text). is_before x k ≡ true) e h)

lookup-place :
    (j k : Text) (v : Json) (m : Entry)
    → lookup Text-discrete j (place k v m)
      ≡ ite (Text-discrete k j) (some v) (lookup Text-discrete j m)
unfolding lookup place
lookup-place j k v [] = refl
lookup-place j k v ((i, w) ∷ m) = ground (arith, lookup-place j k v m, differs i k)

lookup-sort_keys :
    (j : Text) (m : Entry) → lookup Text-discrete j (sort_keys m) ≡ lookup Text-discrete j m
unfolding lookup sort_keys
lookup-sort_keys j [] = refl
lookup-sort_keys j ((k, v) ∷ m) =
    ground (arith, lookup-place j k v (sort_keys m), lookup-sort_keys j m)

-- The value of a field, or else what the entry had.
abbrev pub field_or : Option Value → Option Json → Option Json
field_or none rest = rest
field_or (some v) rest = some (json_of v)

lookup-merge :
    (j : Text) (fields : Fields) (entry : Entry)
    → Distinct Text-discrete fields
    → lookup Text-discrete j (merge fields entry)
      ≡ field_or (lookup Text-discrete j fields) (lookup Text-discrete j entry)
unfolding lookup merge
lookup-merge j [] entry d = refl
lookup-merge j ((k, v) ∷ fields) entry d = ground (
  arith,
  lookup-merge j fields (insert Text-discrete k (json_of v) entry) d.1,
  lookup-insert Text-discrete k j (json_of v) entry,
)

-- In the object that is written for a message, each key stands for the value of the field with that
-- key where there is one, even for `level` and `message`; without such a field `level` stands for the
-- level, `message` for the message, and no other key stands for anything.
pub lookup-log_entry :
    (level msg : Text) (fields : Fields) (key : Text)
    → Distinct Text-discrete fields
    → lookup Text-discrete key (log_entry level msg fields)
      ≡ field_or (lookup Text-discrete key fields) (
          ite
            (Text-discrete (text "level") key)
            (some (json_text level))
            (ite (Text-discrete (text "message") key) (some (json_text msg)) none))
unfolding log_entry lookup
lookup-log_entry level msg fields key d = ground (
  arith,
  lookup-sort_keys key
      (merge fields ((text "level", json_text level) ∷ (text "message", json_text msg) ∷ [])),
  lookup-merge key fields ((text "level", json_text level) ∷ (text "message", json_text msg) ∷ [])
      d,
)

-- What package json reads back into a field: the zero value where the member is not there.
abbrev pub text_at : Option Json → Text
text_at (some (json_text s)) = s
text_at _ = []

abbrev pub integer_at : Option Json → ℤ
integer_at (some (json_number n)) = n
integer_at _ = pos 0

abbrev pub time_at : Option Json → ℕ
time_at (some (json_time t)) = t
time_at _ = 0

pub read_event : Entry → ConnectionEvent
read_event m = record {
  timestamp = time_at (member "timestamp");
  listener_name = text_at (member "listener_name");
  protocol = text_at (member "protocol");
  source_ip = text_at (member "source_ip");
  source_port = pos_part (integer_at (member "source_port"));
  target_ip = text_at (member "target_ip");
  target_port = integer_at (member "target_port");
  event_type = text_at (member "event_type");
  bytes_sent = integer_at (member "bytes_sent");
  bytes_received = integer_at (member "bytes_received");
  packets_sent = integer_at (member "packets_sent");
  packets_received = integer_at (member "packets_received");
  duration = pos_part (integer_at (member "duration_ms"));
  error = text_at (member "error");
}
  where
    member : String → Option Json
    member name = lookup Text-discrete (text name) m

-- The event that is read back from the object written for an event is that event: no field is lost,
-- although counts of packets and an error are left out where they are zero or empty.
pub read_event-event_members : (e : ConnectionEvent) → read_event (event_members e) ≡ e
unfolding read_event event_members number_unless_zero text_unless_empty lookup Text-discrete
read_event-event_members e = by_cases e.packets_sent e.packets_received e.error
  where
    by_cases :
        (sent received : ℤ) (error : Text)
        → let e' = record e { packets_sent = sent; packets_received = received; error = error } in
          read_event (event_members e') ≡ e'
    by_cases (pos zero) (pos zero) [] = refl
    by_cases (pos zero) (pos zero) (c ∷ s) = refl
    by_cases (pos zero) (pos (suc k)) [] = refl
    by_cases (pos zero) (pos (suc k)) (c ∷ s) = refl
    by_cases (pos zero) (negsuc k) [] = refl
    by_cases (pos zero) (negsuc k) (c ∷ s) = refl
    by_cases (pos (suc n)) (pos zero) [] = refl
    by_cases (pos (suc n)) (pos zero) (c ∷ s) = refl
    by_cases (pos (suc n)) (pos (suc k)) [] = refl
    by_cases (pos (suc n)) (pos (suc k)) (c ∷ s) = refl
    by_cases (pos (suc n)) (negsuc k) [] = refl
    by_cases (pos (suc n)) (negsuc k) (c ∷ s) = refl
    by_cases (negsuc n) (pos zero) [] = refl
    by_cases (negsuc n) (pos zero) (c ∷ s) = refl
    by_cases (negsuc n) (pos (suc k)) [] = refl
    by_cases (negsuc n) (pos (suc k)) (c ∷ s) = refl
    by_cases (negsuc n) (negsuc k) [] = refl
    by_cases (negsuc n) (negsuc k) (c ∷ s) = refl
