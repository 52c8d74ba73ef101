-- ===== src/Listener/Served.antt =====
-- internal/listener/udp.go: a UDP listener from its construction on.
use packetpony.Base.{◌≡◌, false, Option, some, none}
use packetpony.Config.{ListenerConfig, UdpLoggingConfig}
use packetpony.Net.{Net}
use packetpony.Proxy.Udp.{udp_logging}
use packetpony.Proxy.Udp.Balance.{Balanced}
use packetpony.Proxy.Udp.History
use packetpony.Proxy.Udp.History.{IsRegular}
use packetpony.Proxy.Udp.Steady.{Closed}
use packetpony.Listener.Read.{Reading}

-- Neither a panic nor books that are out of order.
abbrev pub Serves : Option Reading → Type 0
Serves none = ⊥
Serves (some r) = Balanced r.ended r.listener.proxy

module _ (net : Net) (c : ListenerConfig) (l : UdpLoggingConfig)
    (logs : udp_logging c ≡ some l) where
  -- Before `Stop` nothing is closed.
  IsGood : Reading → Type 0
  IsGood r =
      (z : Closed) × IsRegular c r.listener.cancelled z r.listener.proxy
      × Balanced r.ended r.listener.proxy
      × (r.listener.cancelled ≡ false → z ≡ (false, false, false))

  AllGood : Option Reading → Type 0
  AllGood none = ⊥
  AllGood (some r) = IsGood r
