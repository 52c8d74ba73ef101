-- ===== src/Listener/Connected.antt =====
-- internal/listener/tcp.go: the connections of a TCP listener from its construction on.
use packetpony.Base.{◌≡◌, sym, ◌∙◌, ap, true, List, [], some, none, arith, length}
use packetpony.Config.{ListenerConfig}
use packetpony.Config.Validate.{validate_listener}
use packetpony.Config.Accepted.{
  new_allowlist-validate_entries, new_rate_limit_manager-Holds, validate_listener-none,
}
use packetpony.Net.{Net}
use packetpony.Acl.{Allowlist, new_allowlist, ok}
use packetpony.Proxy.Tcp.Books
use packetpony.Proxy.Tcp.Serve.{Event, serve, serve-Balanced}
use packetpony.Listener.{TcpListener, new_tcp_listener, start_tcp, tcp_proxy_of}
use packetpony.Listener.Made.{tcp_proxy_of-Balanced}

some_inj : {A : Type 0} (a b : A) → some a ≡ some b → a ≡ b
some_inj a b e = cc

proxy_made :
    (net : Net) (cfg : ListenerConfig) (made : TcpListener) (a : Allowlist)
    → new_allowlist net cfg.allowlist ≡ ok a
    → new_tcp_listener net cfg ≡ some made
    → made.proxy ≡ tcp_proxy_of cfg a
unfolding new_tcp_listener
proxy_made net cfg made a e m = ground arith

-- A TCP listener that is made of an accepted configuration and that starts: after any list of events,
-- in which clients connect, copies relay and connections end in any order, the gauge of its metrics is
-- the number of the open connections, and the counter of its limiter is so where it has a limit, which
-- they are within.
pub serve-new_tcp_listener :
    (net : Net) (cfg : ListenerConfig) (made listening : TcpListener)
    → validate_listener net cfg ≡ none
    → new_tcp_listener net cfg ≡ some made
    → start_tcp made true ≡ some listening
    → (es : List Event)
    → Books.Balanced
        (serve net (listening.proxy, []) es).0
        (length (serve net (listening.proxy, []) es).1)
unfolding start_tcp
serve-new_tcp_listener net cfg made listening v m s es =
    let (entries, rs) = validate_listener-none net cfg v in
    let (a, e) = new_allowlist-validate_entries net cfg.allowlist entries in
    let p : listening.proxy ≡ tcp_proxy_of cfg a =
      ap (λ (u : TcpListener). u.proxy)
        (sym (some_inj (record made { listening = true }) listening s))
      ∙ proxy_made net cfg made a e m in
    rw p (
      serve-Balanced net es (tcp_proxy_of cfg a) []
        (tcp_proxy_of-Balanced cfg a (new_rate_limit_manager-Holds cfg.rate_limits rs)))
