-- ===== src/Listener/Tests.antt =====
-- Listeners made of a sample configuration.
use packetpony.Base.{Bool, ◌==◌, ◌≤◌, ◌⊎◌}
use packetpony.Session.{connected, refused}
use packetpony.Proxy.Udp.{wrote, write_error, read_bytes}
use packetpony.Listener.{stop_tcp, close_all_connections}
use packetpony.Listener.Accept.{
  Running, Steps, accepts, tracks, stops, done, next, started, start_handler,
}
use packetpony.Listener.Tracked.{Steps-tracked}
use packetpony.Listener.{track_connection}
use packetpony.Session.Heap.{is_in}
use packetpony.Listener.Read.{Event, begins, receives, reader, sweeps, stops, datagram, failed}
use packetpony.Base.{ℕ, ◌≡◌, refl, true, false, List, [], ◌∷◌, some, none, get_elem?, length}
use packetpony.Base.Int
use packetpony.Base.Text.{Text, Text-discrete, text}
use packetpony.Base.Map.{lookup}
use packetpony.Net.Sample.{home, sample_net}
use packetpony.Config.Sample.{config, dns, accepted}
use packetpony.Ratelimit.Manager
use packetpony.Ratelimit.Manager.{RateLimitManager}
use packetpony.Session.{Session}
use packetpony.Listener.{TcpListener, UdpListener, Listener, new_manager, stop_udp}
use packetpony.Listener.Lifecycle.{Bind, start_all}
use packetpony.Listener.Stopped.{Started}
use packetpony.Listener.Made.{AllReady, new_manager-validate}
use packetpony.Listener.Stop.{stop_udp_lem}

new_manager-validate_example :
    (m : List (Text × Listener)) × (new_manager sample_net config ≡ some m)
    × (length m ≡ 1)
    × AllReady m
    × ((outcome : Text → Bind) → Started (start_all outcome m))
new_manager-validate_example = new_manager-validate sample_net config accepted

abbrev limiter : RateLimitManager
limiter = record {
  conn_limiter = none;
  attempt_limiter = none;
  bandwidth_limiter = none;
  total_conns = Int.pos 1;
  max_total_conns = Int.pos 1;
  action = [];
}

abbrev key : Text
key = text "10.0.0.7:5353"

abbrev session : Session
session = record {
  id = key;
  source_addr = record { ip = home; port = 5353 };
  conn_open = true;
  last_activity = 100;
  bytes_sent = 60;
  bytes_received = 0;
  packets_sent = 1;
  packets_received = 0;
  created_at = 100;
  last_periodic_log = 100;
  last_periodic_log_bytes = 0;
  cancelled = false;
}

abbrev running : UdpListener
running = record {
  proxy = record {
    config = dns;
    limiter = limiter;
    allowlist = record { rules = [] };
    store = record { sessions = (key, 0) ∷ []; timeout = 30; stopped = false; heap = session ∷ [] };
    trace = [];
    readers = 0 ∷ [];
  };
  listening = true;
  cancelled = false;
}

stop_udp_example :
    (l : UdpListener) × (stop_udp running ≡ some l)
    × (l.listening ≡ false)
    × (l.cancelled ≡ true)
    × ((k : Text) (h : ℕ) (s : Session)
        → lookup Text-discrete k running.proxy.store.sessions ≡ some h
        → get_elem? running.proxy.store.heap h ≡ some s
        → (lookup Text-discrete k l.proxy.store.sessions ≡ none)
          × (get_elem? l.proxy.store.heap h
              ≡ some (record s { cancelled = true; conn_open = false })))
    × (stop_udp l ≡ none)
unfolding Manager.close
stop_udp_example = stop_udp_lem running limiter refl refl

abbrev tracking : TcpListener
tracking = record {
  proxy = record { config = dns; limiter = limiter; allowlist = record { rules = [] }; trace = [] };
  listening = true;
  cancelled = false;
  active_conns = 3 ∷ 4 ∷ [];
}

abbrev idle : TcpListener
idle = record tracking { active_conns = [] }

abbrev closed_idle : TcpListener
closed_idle = record idle { listening = false; cancelled = true }

-- The target of the fourth connection stays silent.
abbrev silent : ℕ → Bool
silent conn = conn == 4

-- A connection is served, `Accept` gives a second one, `Stop` comes, and then the loop tracks it.
raced : (t : Running) × Steps silent 5 (started idle) t
unfolding stop_tcp close_all_connections Manager.close track_connection start_handler
raced = (
  _,
  next 4 _ _ _ (accepts (started idle) 3 refl refl refl) (
      next 3 _ _ _ (tracks _ 3 refl refl) (
        next 2 _ _ _ (accepts _ 4 refl refl refl) (
          next 1 _ _ _ (stops _ closed_idle (3 ∷ []) refl refl)
            (next 0 _ _ _ (tracks _ 4 refl refl) (done _))))),
)

Steps-tracked_example :
    (raced.0.listener.cancelled ≡ false → raced.0.listener.active_conns ≡ raced.0.handlers)
    × (raced.0.listener.cancelled ≡ true
        → (raced.0.listener.listening ≡ false)
          × (length raced.0.listener.active_conns ≤ 1)
          × ((c : ℕ)
              → is_in c raced.0.handlers ≡ true
              → (is_in c raced.0.closed ≡ true) ⊎ (is_in c raced.0.listener.active_conns ≡ true)))
Steps-tracked_example = Steps-tracked silent 5 idle raced.0 raced.1 refl refl

abbrev stopped : Running
stopped = record (started closed_idle) { pending = some 4; handlers = 3 ∷ [] }

abbrev events : List Event
events =
    begins
    ∷ receives (datagram 60 (record { ip = home; port = 5353 })) 100 connected (wrote 60)
    ∷ begins
    ∷ reader 0 (read_bytes 1200 true) 110
    ∷ receives failed 120 refused write_error
    ∷ sweeps 100_000_000_000_000
    ∷ reader 0 (read_bytes 10 true) 100_000_000_000_001
    ∷ begins
    ∷ stops
    ∷ receives failed 100_000_000_000_002 refused write_error
    ∷ []
