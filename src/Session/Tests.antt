-- ===== src/Session/Tests.antt =====
-- The session manager on concrete packets.
use packetpony.Base.{ℕ, ◌≡◌, refl, true, false, [], ◌∷◌, some, none, get_elem?}
use packetpony.Base.Text.{Text, Text-discrete, text}
use packetpony.Base.Map.{lookup}
use packetpony.Net.{Addr}
use packetpony.Net.Sample.{home}
use packetpony.Session.{Session, Store, connected, get_or_create, remove, cleanup}
use packetpony.Session.Live.{AllLive}
use packetpony.Session.{new_session}
use packetpony.Session.History.{
  Operation, obtain, bytes_sent, look_up, tick, drop, apply, run, run-new_session_manager,
}
use packetpony.Session.{
  new_session_manager, find_session, create_session, get, sweep, end_all, update_activity,
  add_bytes_sent, modify,
}
use packetpony.Base.{List}
use packetpony.Base.Map.{insert, delete}
use packetpony.Session.Expiry.{cleanup_lem}
use packetpony.Session.Obtain.{Gives, get_or_create-Gives}

abbrev client : Addr
client = record { ip = home; port = 5353 }

abbrev key : Text
key = text "10.0.0.7:5353"

abbrev first : Session
first = record {
  id = key;
  source_addr = client;
  conn_open = true;
  last_activity = 100;
  bytes_sent = 0;
  bytes_received = 0;
  packets_sent = 0;
  packets_received = 0;
  created_at = 100;
  last_periodic_log = 100;
  last_periodic_log_bytes = 0;
  cancelled = false;
}

-- A manager with one session, and a timeout of 30.
abbrev store : Store
store = record { sessions = (key, 0) ∷ []; timeout = 30; stopped = false; heap = first ∷ [] }

get_or_create-Gives_example :
    Gives store key client connected 120 (get_or_create store key client connected 120)
get_or_create-Gives_example = get_or_create-Gives store key client connected 120

cleanup_example :
    (lookup Text-discrete key (cleanup store 200).sessions ≡ none)
    × (get_elem? (cleanup store 200).heap 0
        ≡ some (record first { cancelled = true; conn_open = false }))
unfolding lookup Text-discrete
cleanup_example = cleanup_lem store 200 key 0 first refl refl

abbrev calls : List (Operation × ℕ)
calls =
    (obtain key client connected, 100)
    ∷ (bytes_sent 0 60, 100)
    ∷ (obtain (text "other") client connected, 110)
    ∷ (look_up key, 120)
    ∷ (tick, 145)
    ∷ (drop key, 150)
    ∷ []

run-new_session_manager_example :
    AllLive (run (new_session_manager 30) calls)
    × ((j k : Text) (h : ℕ)
        → lookup Text-discrete j (run (new_session_manager 30) calls).sessions ≡ some h
        → lookup Text-discrete k (run (new_session_manager 30) calls).sessions ≡ some h
        → j ≡ k)
run-new_session_manager_example = run-new_session_manager 30 calls

-- After the first four calls the second session is idle for 35 at the tick.
swept : (run (new_session_manager 30) calls).sessions ≡ []
unfolding run apply new_session_manager get_or_create find_session create_session get remove cleanup
    sweep end_all update_activity add_bytes_sent modify lookup insert delete Text-discrete
    new_session
swept = refl
