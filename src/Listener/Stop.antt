-- ===== src/Listener/Stop.antt =====
-- What `Stop` of a UDP listener does to its sessions, and what a TCP listener tracks.
use packetpony.Base.{
  ℕ, ◌≡◌, ◌≢◌, refl, true, false, List, [], ◌∷◌, ◌++◌, some, none, arith, get_elem?,
}
use packetpony.Base.Text.{Text, Text-discrete}
use packetpony.Base.Map.{lookup}
use packetpony.Ratelimit.Manager
use packetpony.Ratelimit.Manager.{RateLimitManager}
use packetpony.Session.{Session}
use packetpony.Session.Heap.{is_in}
use packetpony.Session.Expiry.{close_lem}
use packetpony.Listener.{
  TcpListener, UdpListener, track_connection, untrack_connection, remove_first, stop_udp,
}

-- `Stop` of a UDP listener whose session manager and limiters were not closed before closes its
-- socket, cancels every session and closes its connection, and empties the map; a second `Stop`
-- panics.
pub stop_udp_lem :
    (l : UdpListener) (m : RateLimitManager)
    → l.proxy.store.stopped ≡ false
    → Manager.close l.proxy.limiter ≡ some m
    → (l' : UdpListener) × (stop_udp l ≡ some l')
      × (l'.listening ≡ false)
      × (l'.cancelled ≡ true)
      × ((key : Text) (h : ℕ) (s : Session)
          → lookup Text-discrete key l.proxy.store.sessions ≡ some h
          → get_elem? l.proxy.store.heap h ≡ some s
          → (lookup Text-discrete key l'.proxy.store.sessions ≡ none)
            × (get_elem? l'.proxy.store.heap h
                ≡ some (record s { cancelled = true; conn_open = false })))
      × (stop_udp l' ≡ none)
unfolding stop_udp
stop_udp_lem l m running c =
    let (st, e, ends, again) = close_lem l.proxy.store running in
    (
      record l {
        listening = false;
        cancelled = true;
        proxy = record l.proxy { store = st; limiter = m };
      },
      rw (e, stop_udp) (rw c refl),
      refl,
      refl,
      ends,
      rw (again, stop_udp) refl,
    )

remove_first-append :
    (conn : ℕ) (cs : List ℕ) → is_in conn cs ≡ false → remove_first conn (cs ++ conn ∷ []) ≡ cs
unfolding remove_first
remove_first-append conn [] h = ground arith
remove_first-append conn (c ∷ cs) h = ground (arith, remove_first-append conn cs)

is_in-remove_first :
    (conn other : ℕ) (cs : List ℕ)
    → conn ≢ other
    → is_in other (remove_first conn cs) ≡ is_in other cs
unfolding remove_first
is_in-remove_first conn other [] h = refl
is_in-remove_first conn other (c ∷ cs) h = ground (arith, is_in-remove_first conn other cs)

-- For a connection that is not in the list, to track it and then to untrack it leaves the list as it
-- was, and to untrack it leaves every other connection in the list.
pub untrack_connection-track_connection :
    (l : TcpListener) (conn : ℕ)
    → is_in conn l.active_conns ≡ false
    → (untrack_connection (track_connection l conn) conn ≡ l)
      × ((other : ℕ)
          → conn ≢ other
          → is_in other (untrack_connection l conn).active_conns ≡ is_in other l.active_conns)
unfolding untrack_connection track_connection
untrack_connection-track_connection l conn h = (
  rw (remove_first-append conn l.active_conns h) refl,
  λ other d. is_in-remove_first conn other l.active_conns d,
)
