-- ===== src/Proxy/Udp/Sweep.antt =====
-- internal/session/udp_session.go, cleanup and Close: what a sweep of the session manager of a UDP
-- proxy and its end do to the books of the proxy.
use packetpony.Base.{
  true, false, some, map, ℕ, ◌+◌, ◌≡◌, refl, ◌∙◌, List, [], ◌∷◌, none, arith, length,
}
use packetpony.Base.Text.{Text, Text-discrete}
use packetpony.Base.Map.{lookup, delete_absent, Distinct, Distinct-delete}
use packetpony.Session
use packetpony.Session.{Session, Store, is_expired, end_all, end_session, sweep, cleanup, close}
use packetpony.Session.Heap.{lookup-sweep}
use packetpony.Session.Live.{cleanup-AllLive, close-AllLive}
use packetpony.Ratelimit.Manager.{RateLimitManager}
use packetpony.Ratelimit.Manager.Counter.{SameCounter}
use packetpony.Ratelimit.Manager.Places.{Holds-SameCounter}
use packetpony.Proxy.Udp.{UdpProxy}
use packetpony.Proxy.Udp.Balance.{Balanced}
use packetpony.Proxy.Udp.Steady.{length-modify}

-- How many sessions a sweep ends.
abbrev pub expirations : Store → ℕ → ℕ
expirations st now = length (sweep st.timeout now st.heap st.sessions).1

absent-sweep :
    (timeout now : ℕ) (heap : List Session) (key : Text) (m : List (Text × ℕ))
    → lookup Text-discrete key m ≡ none
    → lookup Text-discrete key (sweep timeout now heap m).0 ≡ none
absent-sweep timeout now heap key m e = lookup-sweep timeout now heap key m ∙ rw e refl

Distinct-sweep :
    (timeout now : ℕ) (heap : List Session) (m : List (Text × ℕ))
    → Distinct Text-discrete m
    → Distinct Text-discrete (sweep timeout now heap m).0
unfolding sweep
Distinct-sweep timeout now heap [] d = d
Distinct-sweep timeout now heap ((key, h) ∷ m) d = ground (
  arith,
  Distinct-sweep timeout now heap m d.1,
  Distinct-delete Text-discrete key (sweep timeout now heap m).0,
  absent-sweep timeout now heap key m d.0,
)

-- Each session of the map is left in it or is ended.
length-sweep :
    (timeout now : ℕ) (heap : List Session) (m : List (Text × ℕ))
    → Distinct Text-discrete m
    → length (sweep timeout now heap m).1 + length (sweep timeout now heap m).0 ≡ length m
unfolding sweep
length-sweep timeout now heap [] d = refl
length-sweep timeout now heap ((key, h) ∷ m) d = ground (
  arith,
  length-sweep timeout now heap m d.1,
  delete_absent Text-discrete key (sweep timeout now heap m).0,
  absent-sweep timeout now heap key m d.0,
)

pub length-end_all : (hs : List ℕ) (heap : List Session) → length (end_all hs heap) ≡ length heap
unfolding end_all
length-end_all [] heap = refl
length-end_all (h ∷ hs) heap =
    length-modify h end_session (end_all hs heap) ∙ length-end_all hs heap

-- The sweep takes its sessions out of the map, but the limiter and the gauge go on counting them.
pub cleanup-Balanced :
    {lost : ℕ} (p : UdpProxy) (now : ℕ)
    → Balanced lost p
    → Balanced (lost + expirations p.store now) (record p { store = Session.cleanup p.store now })
unfolding Session.cleanup
cleanup-Balanced {lost} p now b = record {
  distinct = Distinct-sweep p.store.timeout now p.store.heap p.store.sessions b.distinct;
  live = cleanup-AllLive p.store now b.live;
  places = rw same b.places;
  gauge = rw same b.gauge;
}
  where
    same :
        lost
          + expirations p.store now
          + length (sweep p.store.timeout now p.store.heap p.store.sessions).0
        ≡ lost + length p.store.sessions
    same = omega (arith, length-sweep p.store.timeout now p.store.heap p.store.sessions b.distinct)

abbrev pub closed_store : Store → Store
closed_store st = record st {
  sessions = [];
  stopped = true;
  heap = end_all (map (λ e. e.1) st.sessions) st.heap;
}

pub close_running : (st : Store) → st.stopped ≡ false → close st ≡ some (closed_store st)
unfolding close
close_running st e = rw e refl

-- `Close` takes all sessions out of the map, and none is given back.
pub close-Balanced :
    {lost : ℕ} (p : UdpProxy) (m : RateLimitManager)
    → p.store.stopped ≡ false
    → SameCounter m p.limiter
    → Balanced lost p
    → Balanced
        (lost + length p.store.sessions)
        (record p { store = closed_store p.store; limiter = m })
close-Balanced {lost} p m e same b = record {
  distinct = tt;
  live = close-AllLive p.store (closed_store p.store) (close_running p.store e);
  places = rw still (Holds-SameCounter m p.limiter _ same b.places);
  gauge = rw still b.gauge;
}
  where
    still : lost + length p.store.sessions + 0 ≡ lost + length p.store.sessions
    still = omega arith
