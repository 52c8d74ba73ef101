-- ===== src/Listener.antt =====
-- internal/listener: what a listener is made of, the connections that a TCP listener tracks, and the
-- manager of the listeners. The sockets are arguments of the steps that use them.
pub mod Made
pub mod Stop
pub mod Lifecycle
pub mod Accept
pub mod Drain
pub mod Tracked
pub mod Read
pub mod Served
pub mod Connected
pub mod Traffic
pub mod Stopped
mod Tests
mod TcpTests
use packetpony.Base.{
  ℕ, suc, ◌*◌, Bool, true, false, List, [], ◌∷◌, ◌++◌, Option, some, none, not, ite, ◌==◌,
  if◌then◌else◌, ◌>>=◌,
}
use packetpony.Base.Int.{ℤ, pos, pos_part, ltb_ℤ}
use packetpony.Base.Text.{Text, Text-discrete, text, to_lower}
use packetpony.Base.Map.{insert}
use packetpony.Config.{ListenerConfig, UdpConfig, Config}
use packetpony.Net.{Net}
use packetpony.Acl.{Allowlist, ParseError, Result, ok, invalid_entry, new_allowlist}
use packetpony.Ratelimit.Manager
use packetpony.Ratelimit.Manager.{RateLimitManager, new_rate_limit_manager, is_positive}
use packetpony.Session
use packetpony.Session.{Store, new_session_manager}
use packetpony.Proxy.Tcp.{TcpProxy}
use packetpony.Proxy.Udp.{UdpProxy}

-- `TCPListener`. `listening` says whether the socket is open; a connection is a handle.
pub record TcpListener : Type 0 where
  pub proxy : TcpProxy
  pub listening : Bool
  pub cancelled : Bool
  pub active_conns : List ℕ

pub record UdpListener : Type 0 where
  pub proxy : UdpProxy
  pub listening : Bool
  pub cancelled : Bool

pub data Listener : Type 0 where
  tcp_listener : TcpListener → Listener
  udp_listener : UdpListener → Listener

abbrev pub tcp_proxy_of : ListenerConfig → Allowlist → TcpProxy
tcp_proxy_of cfg a = record {
  config = cfg;
  limiter = new_rate_limit_manager cfg.rate_limits;
  allowlist = a;
  trace = [];
}

-- `NewTCPListener` with `NewTCPProxy`; `none` is the error of the allowlist.
unfoldable pub new_tcp_listener : Net → ListenerConfig → Option TcpListener
new_tcp_listener net cfg = elim (new_allowlist net cfg.allowlist) [
  | invalid_entry e x ↦ none
  | ok a ↦ some (record {
    proxy = tcp_proxy_of cfg a;
    listening = false;
    cancelled = false;
    active_conns = [];
  })
]

-- 30 seconds, or what the `udp` section says.
abbrev pub session_timeout_of : Option UdpConfig → ℕ
session_timeout_of none = 30_000_000_000
session_timeout_of (some u) =
    if is_positive u.session_timeout then pos_part u.session_timeout else 30_000_000_000

abbrev pub udp_proxy_of : ListenerConfig → Allowlist → UdpProxy
udp_proxy_of cfg a = record {
  config = cfg;
  limiter = new_rate_limit_manager cfg.rate_limits;
  allowlist = a;
  store = new_session_manager (session_timeout_of cfg.udp);
  trace = [];
  readers = [];
}

-- `NewUDPListener` with `NewUDPProxy`.
unfoldable pub new_udp_listener : Net → ListenerConfig → Option UdpListener
new_udp_listener net cfg = elim (new_allowlist net cfg.allowlist) [
  | invalid_entry e x ↦ none
  | ok a ↦ some (record { proxy = udp_proxy_of cfg a; listening = false; cancelled = false })
]

-- The switch of `NewManager`; `none` is an error.
unfoldable pub new_listener : Net → ListenerConfig → Option Listener
new_listener net cfg =
    let protocol = to_lower cfg.protocol in
    ite (Text-discrete protocol (text "tcp"))
      (elim (new_tcp_listener net cfg) [ none ↦ none | some l ↦ some (tcp_listener l) ])
      (ite (Text-discrete protocol (text "udp"))
        (elim (new_udp_listener net cfg) [ none ↦ none | some l ↦ some (udp_listener l) ]) none)

-- The loop of `NewManager`, from the map that it has made so far.
unfoldable pub add_listeners :
    Net → List (Text × Listener) → List ListenerConfig → Option (List (Text × Listener))
add_listeners net m [] = some m
add_listeners net m (cfg ∷ cfgs) = do
  l ← new_listener net cfg
  add_listeners net (insert Text-discrete cfg.name l m) cfgs

unfoldable pub new_manager : Net → Config → Option (List (Text × Listener))
new_manager net c = add_listeners net [] c.listeners

-- `TCPListener.Start`, of what `net.Listen` gives.
unfoldable pub start_tcp : TcpListener → Bool → Option TcpListener
start_tcp l listens = if listens then some (record l { listening = true }) else none

unfoldable pub track_connection : TcpListener → ℕ → TcpListener
track_connection l conn = record l { active_conns = l.active_conns ++ conn ∷ [] }

-- The loop of `untrackConnection`: the first occurrence goes.
unfoldable pub remove_first : ℕ → List ℕ → List ℕ
remove_first conn [] = []
remove_first conn (c ∷ cs) = let rest = remove_first conn cs in if c == conn then cs else c ∷ rest

unfoldable pub untrack_connection : TcpListener → ℕ → TcpListener
unfolding remove_first
untrack_connection l conn = record l { active_conns = remove_first conn l.active_conns }

-- `closeAllConnections`: the listener, and the connections that it closes.
unfoldable pub close_all_connections : TcpListener → TcpListener × List ℕ
close_all_connections l = (record l { active_conns = [] }, l.active_conns)

-- `TCPListener.Stop` up to the wait for the handlers. `none` is the panic of a second `close` of a
-- channel.
unfoldable pub stop_tcp : TcpListener → Option (TcpListener × List ℕ)
stop_tcp l =
    let (closed, conns) =
      close_all_connections (record l { cancelled = true; listening = false }) in
    do
      limiter ← Manager.close l.proxy.limiter
      some (record closed { proxy = record l.proxy { limiter = limiter } }, conns)

unfoldable pub start_udp : UdpListener → Bool → Bool → Option UdpListener
start_udp l resolves listens =
    if not resolves then none else (if listens then some (record l { listening = true }) else none)

-- `UDPListener.Stop` up to the wait for the read loop.
unfoldable pub stop_udp : UdpListener → Option UdpListener
stop_udp l = do
  store ← Session.close l.proxy.store
  limiter ← Manager.close l.proxy.limiter
  some (record l {
    listening = false;
    cancelled = true;
    proxy = record l.proxy { store = store; limiter = limiter };
  })
