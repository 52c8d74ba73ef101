-- ===== src/Proxy/UdpTests.antt =====
-- The UDP proxy on concrete packets.
use packetpony.Proxy.{connections_active_inc}
use packetpony.Base.{◌≡◌, refl, true, false, [], ◌∷◌, ◌++◌, some, none, arith, get_elem?}
use packetpony.Base.Int.{◌+ℤ◌}
use packetpony.Base.Text.{Text, Text-discrete}
use packetpony.Base.Map.{lookup}
use packetpony.Net.Sample.{home, sample_net}
use packetpony.Acl.{is_allowed, matches_any, contains}
use packetpony.Ratelimit.Manager
use packetpony.Ratelimit.Manager.{RateLimitManager}
use packetpony.Session
use packetpony.Session.{Session, Store, connected, cancel, new_session}
use packetpony.Proxy.Udp.{UdpProxy, handle_packet, reader_step, cleanup_session, wrote, read_bytes}
use packetpony.Proxy.Udp.Balance.{Balanced, Yields}
use packetpony.Proxy.Udp.Invariant.{handle_packet-Yields}
use packetpony.Proxy.Udp.Readers.{reader_step-Yields}
use packetpony.Proxy.Udp.Leaks.{
  cleanup_session-swept, handle_packet-refused, handle_packet-unconfigured,
}
use packetpony.Proxy.Tests.{limiter, limiter-Holds, logging, listener, configured, office, client}

-- The UDP proxy before its first packet.
abbrev idle : UdpProxy
idle = record {
  config = configured;
  limiter = limiter 0;
  allowlist = office;
  store = record { sessions = []; timeout = 30; stopped = false; heap = [] };
  trace = [];
  readers = [];
}

idle-Balanced : Balanced 0 idle
unfolding lookup
idle-Balanced = record {
  distinct = tt;
  live = λ key h e. absurd (ground arith);
  places = limiter-Holds 0 (omega arith);
  gauge = refl;
}

handle_packet-Yields_example :
    Yields 0 (handle_packet sample_net idle 60 client 100 connected (wrote 60))
handle_packet-Yields_example =
    handle_packet-Yields sample_net idle 60 client 100 connected (wrote 60) logging refl
      idle-Balanced

abbrev key : Text
key = home ++ 5353 ∷ []

abbrev session : Session
session = record {
  id = key;
  source_addr = client;
  conn_open = true;
  last_activity = 100;
  bytes_sent = 60;
  bytes_received = 0;
  packets_sent = 1;
  packets_received = 0;
  created_at = 100;
  last_periodic_log = 100;
  last_periodic_log_bytes = 0;
  cancelled = false;
}

-- The UDP proxy with one session.
abbrev busy : UdpProxy
busy = record idle {
  limiter = limiter 1;
  store = record { sessions = (key, 0) ∷ []; timeout = 30; stopped = false; heap = session ∷ [] };
  trace = connections_active_inc ∷ [];
  readers = 0 ∷ [];
}

busy-Balanced : Balanced 0 busy
unfolding lookup
busy-Balanced = record {
  distinct = (refl, tt);
  live =
      λ j h e. elim (Text-discrete key j) [ yes p ↦ ground arith | no p ↦ absurd (ground arith) ];
  places = limiter-Holds 1 (omega arith);
  gauge = refl;
}

reader_step-Yields_example : Yields 0 (reader_step sample_net busy 0 (read_bytes 90 false) 110)
reader_step-Yields_example =
    reader_step-Yields sample_net busy 0 (read_bytes 90 false) 110 logging session refl refl
      busy-Balanced

cleanup_session-swept_example :
    cleanup_session sample_net (record busy { store = Session.cleanup busy.store 200 }) 0 210
    ≡ some (record busy { store = Session.cleanup busy.store 200 })
unfolding lookup Text-discrete
cleanup_session-swept_example =
    cleanup_session-swept sample_net busy 0 200 210 session refl refl refl

-- The limiter has no place left.
abbrev full_up : UdpProxy
full_up = record idle { limiter = limiter 1 }

handle_packet-refused_example :
    (q : UdpProxy) × (handle_packet sample_net full_up 60 client 100 connected (wrote 60) ≡ some q)
    × (lookup Text-discrete key q.store.sessions ≡ none)
    × (get_elem? q.store.heap 0 ≡ some (cancel (new_session key client 100)))
    × (q.readers ≡ [])
unfolding is_allowed matches_any contains lookup Manager.allow_connection Manager.check_attempts
    Manager.allow_total_connection ◌+ℤ◌
handle_packet-refused_example =
    handle_packet-refused sample_net full_up 60 client 100 (wrote 60) refl refl refl

handle_packet-unconfigured_example :
    handle_packet sample_net
      (record idle { config = listener none })
      60
      client
      100
      connected
      (wrote 60)
    ≡ none
unfolding is_allowed matches_any contains lookup Manager.allow_connection Manager.check_attempts
    Manager.allow_total_connection Manager.check_connections ◌+ℤ◌
handle_packet-unconfigured_example =
    handle_packet-unconfigured sample_net (record idle { config = listener none }) 60 client 100
      (wrote 60) refl refl refl refl
