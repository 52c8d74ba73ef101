-- ===== src/Listener/TcpTests.antt =====
-- The connections of a TCP listener that is made of a sample configuration.
use packetpony.Base.{◌≡◌, refl, true, List, [], ◌∷◌, some, none, length}
use packetpony.Base.Text.{Text-discrete, trim_space, contains_char}
use packetpony.Net.Sample.{home, sample_net, split_colon}
use packetpony.Config.Sample.{web, accepted_web}
use packetpony.Acl.{new_allowlist, parse_entries, parse_cidr_or_ip}
use packetpony.Proxy.{sent, received}
use packetpony.Proxy.Tcp.Copy.{at_end}
use packetpony.Proxy.Tcp.Books
use packetpony.Proxy.Tcp.Serve.{Event, arrive, round, serve}
use packetpony.Listener.{TcpListener, new_tcp_listener, start_tcp}
use packetpony.Listener.Connected.{serve-new_tcp_listener}

made_web : (l : TcpListener) × (new_tcp_listener sample_net web ≡ some l)
unfolding new_tcp_listener new_allowlist parse_entries parse_cidr_or_ip split_colon trim_space
    contains_char Text-discrete
made_web = (_, refl)

listening_web : (l : TcpListener) × (start_tcp made_web.0 true ≡ some l)
unfolding start_tcp
listening_web = (_, refl)

-- Two clients come, and one of the connections ends.
abbrev events : List Event
events =
    arrive (record { ip = home; port = 4000 }) none 100
    ∷ arrive (record { ip = home; port = 4001 }) none 101
    ∷ round 0 sent at_end 102
    ∷ round 0 received at_end 103
    ∷ []

serve-new_tcp_listener_example :
    Books.Balanced
      (serve sample_net (listening_web.0.proxy, []) events).0
      (length (serve sample_net (listening_web.0.proxy, []) events).1)
serve-new_tcp_listener_example =
    serve-new_tcp_listener sample_net web made_web.0 listening_web.0 accepted_web made_web.1
      listening_web.1 events
