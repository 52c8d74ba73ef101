-- ===== src/Session.antt =====
-- internal/session/udp_session.go. Sessions are shared objects: the map and the readers hold handles
-- of a heap. `TargetConn` belongs to its session alone, so its state is a field. The time of a call is
-- its argument `now`; `int64` counters wrap at 2^64.
pub mod Heap
pub mod Live
pub mod Expiry
pub mod Obtain
pub mod History
pub mod Loop
mod Tests
use packetpony.Base.{
  ℕ, zero, suc, ◌+◌, ◌-◌, ◌%◌, ◌^◌, Bool, true, false, ◌&&◌, List, [], ◌∷◌, ◌++◌, Option, some,
  none, ltb, leb, if◌then◌else◌, length, get_elem?, map,
}
use packetpony.Base.Int.{ℤ, pos_part, pos, ltb_ℤ}
use packetpony.Base.Text.{Text, Text-discrete}
use packetpony.Base.Map.{lookup, insert, delete}
use packetpony.Net.{Addr}

pub record Session : Type 0 where
  pub id : Text
  pub source_addr : Addr
  pub conn_open : Bool  -- `TargetConn` is not closed
  pub last_activity : ℕ
  pub bytes_sent : ℕ
  pub bytes_received : ℕ
  pub packets_sent : ℕ
  pub packets_received : ℕ
  pub created_at : ℕ
  pub last_periodic_log : ℕ
  pub last_periodic_log_bytes : ℕ
  pub cancelled : Bool  -- `ctx` is done

-- `SessionManager`, with the heap of all sessions that were ever made.
pub record Store : Type 0 where
  pub sessions : List (Text × ℕ)
  pub timeout : ℕ
  pub stopped : Bool  -- `stopCleanup` is closed
  pub heap : List Session

unfoldable pub new_session_manager : ℕ → Store
new_session_manager timeout = record {
  sessions = [];
  timeout = timeout;
  stopped = false;
  heap = [];
}

-- A change of the object behind a handle.
unfoldable pub modify : ℕ → (Session → Session) → List Session → List Session
modify h f [] = []
modify zero f (s ∷ heap) = f s ∷ heap
modify (suc h) f (s ∷ heap) = s ∷ modify h f heap

abbrev pub on_session : (Session → Session) → Store → ℕ → Store
on_session f st h = record st { heap = modify h f st.heap }

abbrev pub touch : ℕ → Session → Session
touch now s = record s { last_activity = now }

abbrev pub cancel : Session → Session
cancel s = record s { cancelled = true }

abbrev pub close_conn : Session → Session
close_conn s = record s { conn_open = false }

unfoldable pub update_activity : ℕ → Store → ℕ → Store
update_activity now = on_session (touch now)

-- What `net.DialTimeout` and the conversion to `*net.UDPConn` give.
pub data Dial : Type 0 where
  connected refused other_kind : Dial

-- The session, whether it is new, or the error.
pub data Obtained : Type 0 where
  found created : ℕ → Obtained
  failed : Obtained

unfoldable pub new_session : Text → Addr → ℕ → Session
new_session key src_addr now = record {
  id = key;
  source_addr = src_addr;
  conn_open = true;
  last_activity = now;
  bytes_sent = 0;
  bytes_received = 0;
  packets_sent = 0;
  packets_received = 0;
  created_at = now;
  last_periodic_log = now;
  last_periodic_log_bytes = 0;
  cancelled = false;
}

-- The part of `GetOrCreate` under the read lock.
unfoldable pub find_session : Store → Text → ℕ → Option (Store × ℕ)
find_session st key now = elim (lookup Text-discrete key st.sessions) [
  | none ↦ none
  | some h ↦ some (update_activity now st h, h)
]

-- The part of `GetOrCreate` under the write lock, which looks again first.
unfoldable pub create_session : Store → Text → Addr → Dial → ℕ → Store × Obtained
create_session st key src_addr dial now = elim (lookup Text-discrete key st.sessions) [
  | some h ↦ (update_activity now st h, found h)
  | none ↦ elim dial [
    | refused ↦ (st, failed)
    | other_kind ↦ (st, failed)
    | connected ↦ (
      record st {
        sessions = insert Text-discrete key (length st.heap) st.sessions;
        heap = st.heap ++ new_session key src_addr now ∷ [];
      },
      created (length st.heap),
    )
  ]
]

unfoldable pub get_or_create : Store → Text → Addr → Dial → ℕ → Store × Obtained
get_or_create st key src_addr dial now = elim (find_session st key now) [
  | some (st', h) ↦ (st', found h)
  | none ↦ create_session st key src_addr dial now
]

unfoldable pub get : Store → Text → ℕ → Store × Option ℕ
get st key now = elim (lookup Text-discrete key st.sessions) [
  | none ↦ (st, none)
  | some h ↦ (update_activity now st h, some h)
]

unfoldable pub remove : Store → Text → Store × Option ℕ
remove st id = elim (lookup Text-discrete id st.sessions) [
  | none ↦ (st, none)
  | some h ↦ (
    record st { sessions = delete Text-discrete id st.sessions; heap = modify h cancel st.heap },
    some h,
  )
]

-- What `cleanup` and `Close` do to a session.
abbrev pub end_session : Session → Session
end_session s = close_conn (cancel s)

-- `now.Sub(lastActivity) > timeout`.
abbrev pub is_expired : ℕ → ℕ → Option Session → Bool
is_expired timeout now none = false
is_expired timeout now (some s) = ltb (s.last_activity + timeout) now

-- The loop of `cleanup`: the map that is left, and the handles of the sessions that end.
unfoldable pub sweep : ℕ → ℕ → List Session → List (Text × ℕ) → List (Text × ℕ) × List ℕ
sweep timeout now heap [] = ([], [])
sweep timeout now heap ((key, h) ∷ m) =
    let (rest, ended) = sweep timeout now heap m in
    if is_expired timeout now (get_elem? heap h)
    then (delete Text-discrete key rest, h ∷ ended)
    else ((key, h) ∷ rest, ended)

unfoldable pub end_all : List ℕ → List Session → List Session
end_all [] heap = heap
end_all (h ∷ hs) heap = modify h end_session (end_all hs heap)

unfoldable pub cleanup : Store → ℕ → Store
cleanup st now =
    let (rest, ended) = sweep st.timeout now st.heap st.sessions in
    record st { sessions = rest; heap = end_all ended st.heap }

-- `none` is the panic of a second `close` of the channel.
unfoldable pub close : Store → Option Store
close st =
    if st.stopped
    then none
    else some (record st {
      sessions = [];
      stopped = true;
      heap = end_all (map (λ e. e.1) st.sessions) st.heap;
    })

-- `atomic.AddInt64`.
abbrev pub add64 : ℕ → ℕ → ℕ
add64 a n = (a + n) % 2 ^ 64

unfoldable pub add_bytes_sent : ℕ → Store → ℕ → Store
add_bytes_sent n = on_session (λ s. record s { bytes_sent = add64 s.bytes_sent n })

unfoldable pub add_bytes_received : ℕ → Store → ℕ → Store
add_bytes_received n = on_session (λ s. record s { bytes_received = add64 s.bytes_received n })

unfoldable pub add_packets_sent : ℕ → Store → ℕ → Store
add_packets_sent n = on_session (λ s. record s { packets_sent = add64 s.packets_sent n })

unfoldable pub add_packets_received : ℕ → Store → ℕ → Store
add_packets_received n =
    on_session (λ s. record s { packets_received = add64 s.packets_received n })

-- `BytesSent + BytesReceived`.
abbrev pub total_bytes : Session → ℕ
total_bytes s = add64 s.bytes_sent s.bytes_received

-- `n >= limit` and `n < limit` of `int64` values, for a limit above 0; from 2^63 on `n` is negative.
abbrev pub reaches : ℕ → ℕ → Bool
reaches n limit = ltb n (2 ^ 63) && leb limit n

unfoldable pub should_log_periodic : Session → ℕ → ℤ → ℤ → Bool
should_log_periodic s now interval_duration interval_bytes =
    if ltb_ℤ (pos 0) interval_duration && leb (s.last_periodic_log + pos_part interval_duration) now
    then true
    else ltb_ℤ (pos 0) interval_bytes
      && reaches ((total_bytes s + 2 ^ 64 - s.last_periodic_log_bytes) % 2 ^ 64)
          (pos_part interval_bytes)

unfoldable pub update_periodic_log : ℕ → Store → ℕ → Store
update_periodic_log now =
    on_session (λ s. record s { last_periodic_log = now; last_periodic_log_bytes = total_bytes s })
