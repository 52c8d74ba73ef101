-- ===== src/Proxy/Udp/Balance.antt =====
-- The books of the UDP proxy: the map of sessions, the counter of the limiter and the gauge of active
-- connections agree, also after `cleanupSession`.
use packetpony.Base.{
  ℕ, suc, ◌+◌, ◌-◌, ◌≡◌, refl, sym, subst, inl, inr, List, [], ◌∷◌, ◌++◌, Option, some, none, arith,
  ◌==◌, if◌then◌else◌, ite, ==_iff, length, get_elem?, Bool-cases, Option-cases,
}
use mathlib.Core.Option
use packetpony.Base.Text.{Text, Text-discrete, text}
use packetpony.Base.Map.{lookup, delete, lookup-delete, Distinct, Distinct-delete, length-delete}
use packetpony.Config.{UdpLoggingConfig}
use packetpony.Net.{Net}
use packetpony.Ratelimit.Manager
use packetpony.Ratelimit.Manager.{RateLimitManager}
use packetpony.Ratelimit.Manager.Counter.{SameCounter}
use packetpony.Ratelimit.Manager.Places.{
  Holds, Holds-SameCounter, release_connection-Holds, release_total-Holds,
}
use packetpony.Session
use packetpony.Session.{
  Session, Store, Dial, Obtained, connected, refused, other_kind, found, created, failed, modify,
  cancel, close_conn, on_session,
}
use packetpony.Session.Heap.{get_elem?-modify}
use packetpony.Session.Live.{AllLive, IsLive, Keeps, modify-AllLive, remove-AllLive}
use packetpony.Proxy.{Effect, connections_active_dec, log_connection, connection_duration}
use packetpony.Proxy.Gauge.{incs, decs, incs-append, decs-append, IsQuiet}
use packetpony.Proxy.Udp.{
  UdpProxy, should_log_close, stats_event, emit, udp_logging, cleanup_session,
}

-- Every key of the map has one session, which is live; the sessions of the map, and `lost` more that
-- have left it without being given back, are the connections that the limiter counts and that the
-- gauge shows.
pub record Balanced (lost : ℕ) (p : UdpProxy) : Type 0 where
  pub distinct : Distinct Text-discrete p.store.sessions
  pub live : AllLive p.store
  pub places : Holds p.limiter (lost + length p.store.sessions)
  pub gauge : incs p.trace ≡ decs p.trace + (lost + length p.store.sessions)

-- A run that does not panic and ends balanced.
abbrev pub Yields : ℕ → Option UdpProxy → Type 0
Yields lost none = ⊥
Yields lost (some p) = Balanced lost p

pub emit-Balanced :
    {lost : ℕ} (es : List Effect) (p : UdpProxy)
    → IsQuiet es
    → Balanced lost p
    → Balanced lost (emit es p)
emit-Balanced es p q b = record {
  distinct = b.distinct;
  live = b.live;
  places = b.places;
  gauge = omega (arith, incs-append p.trace es, decs-append p.trace es, q.0, q.1, b.gauge);
}

pub limiter-Balanced :
    {lost : ℕ} (m : RateLimitManager) (p : UdpProxy)
    → SameCounter m p.limiter
    → Balanced lost p
    → Balanced lost (record p { limiter = m })
limiter-Balanced m p s b = record {
  distinct = b.distinct;
  live = b.live;
  places = Holds-SameCounter m p.limiter _ s b.places;
  gauge = b.gauge;
}

pub session-Balanced :
    {lost : ℕ} (f : Session → Session) (p : UdpProxy) (h : ℕ)
    → Keeps f
    → Balanced lost p
    → Balanced lost (record p { store = on_session f p.store h })
session-Balanced f p h k b = record {
  distinct = b.distinct;
  live = modify-AllLive f p.store h k b.live;
  places = b.places;
  gauge = b.gauge;
}

-- What `cleanupSession` does to the store.
abbrev pub closed_store : Store → Session → ℕ → Store
closed_store st s h = on_session close_conn (Session.remove st s.id).0 h

lookup-remove :
    (st : Store) (id key : Text)
    → lookup Text-discrete key (Session.remove st id).0.sessions
      ≡ ite (Text-discrete id key) none (lookup Text-discrete key st.sessions)
unfolding Session.remove
lookup-remove st id key = elim (Option-cases (lookup Text-discrete id st.sessions)) [
  | inl e ↦ rw (e, Session.remove) (ground arith)
  | inr (h, e) ↦ rw (e, Session.remove) (lookup-delete Text-discrete id key st.sessions)
]

id_at : Store → ℕ → Option Text
id_at st h = Option.map (λ (s : Session). s.id) (get_elem? st.heap h)

id_at-remove :
    (st : Store) (id : Text) (h : ℕ) (s : Session)
    → get_elem? st.heap h ≡ some s
    → id_at (Session.remove st id).0 h ≡ some s.id
unfolding Session.remove id_at
id_at-remove st id h s g = elim (Option-cases (lookup Text-discrete id st.sessions)) [
  | inl e ↦ rw (e, Session.remove, g) refl
  | inr (i, e) ↦ rw (e, Session.remove) (ground (arith, get_elem?-modify i h cancel st.heap))
]

IsLive-id :
    (key : Text) (o : Option Session) (id : Text)
    → Option.map (λ (s : Session). s.id) o ≡ some id
    → IsLive key o
    → id ≡ key
IsLive-id key none id e l = absurd l
IsLive-id key (some s) id e l = ground arith

-- The session whose connection is closed is not in the map, which `Remove` has left.
closed_store-AllLive :
    (st : Store) (s : Session) (h : ℕ)
    → get_elem? st.heap h ≡ some s
    → AllLive st
    → AllLive (closed_store st s h)
unfolding id_at
closed_store-AllLive st s h g live key j e =
    rw (get_elem?-modify h j close_conn (Session.remove st s.id).0.heap)
      (elim (Bool-cases (h == j)) [
        | inr m ↦ rw m (remove-AllLive st s.id live key j e)
        | inl m ↦
            let same : h ≡ j = (==_iff h j).0 m in
            let own : id_at (Session.remove st s.id).0 j ≡ some s.id =
              subst (λ i. id_at (Session.remove st s.id).0 i ≡ some s.id) same
                (id_at-remove st s.id h s g) in
            let key_of : s.id ≡ key =
              IsLive-id key (get_elem? (Session.remove st s.id).0.heap j) s.id own
                (remove-AllLive st s.id live key j e) in
            absurd (ground (arith, lookup-remove st s.id key))
      ])

abbrev pub close_logs : Net → UdpProxy → UdpLoggingConfig → Session → ℕ → List Effect
close_logs net p l s now =
    (if should_log_close l s now
      then log_connection (stats_event net p.config s (text "close") now) ∷ []
      else [])
    ++ connections_active_dec ∷ connection_duration (now - s.created_at) ∷ []

abbrev pub closed_proxy : Net → UdpProxy → UdpLoggingConfig → Session → ℕ → ℕ → UdpProxy
closed_proxy net p l s h now = emit (close_logs net p l s now) (record p {
  store = closed_store p.store s h;
  limiter =
      Manager.release_total_connection
        (Manager.release_connection p.limiter (net.string s.source_addr.ip));
})

closed_proxy-Balanced :
    {lost : ℕ} (net : Net) (p : UdpProxy) (l : UdpLoggingConfig) (s : Session) (h now i : ℕ)
    → get_elem? p.store.heap h ≡ some s
    → lookup Text-discrete s.id p.store.sessions ≡ some i
    → Balanced lost p
    → Balanced lost (closed_proxy net p l s h now)
unfolding Session.remove
closed_proxy-Balanced {lost} net p l s h now i g e b = record {
  distinct =
      rw (Session.remove, e) (Distinct-delete Text-discrete s.id p.store.sessions b.distinct);
  live = closed_store-AllLive p.store s h g b.live;
  places =
      rw (Session.remove, e)
        (release_total-Holds _ _
          (release_connection-Holds p.limiter _ ip (subst (Holds p.limiter) left b.places)));
  gauge =
      rw (Session.remove, e)
        (ground (
          arith,
          incs-append p.trace (close_logs net p l s now),
          decs-append p.trace (close_logs net p l s now),
          b.gauge,
          shorter,
        ));
}
  where
    ip : Text
    ip = net.string s.source_addr.ip

    shorter : length (delete Text-discrete s.id p.store.sessions) + 1 ≡ length p.store.sessions
    shorter = length-delete Text-discrete s.id i p.store.sessions b.distinct e

    left :
        lost + length p.store.sessions
        ≡ suc (lost + length (delete Text-discrete s.id p.store.sessions))
    left = omega (arith, shorter)

pub cleanup_session-gone :
    (net : Net) (p : UdpProxy) (h now : ℕ) (s : Session)
    → get_elem? p.store.heap h ≡ some s
    → lookup Text-discrete s.id p.store.sessions ≡ none
    → cleanup_session net p h now ≡ some p
unfolding cleanup_session Session.remove
cleanup_session-gone net p h now s g e = ground arith

pub cleanup_session-held :
    (net : Net) (p : UdpProxy) (h now i : ℕ) (l : UdpLoggingConfig) (s : Session)
    → udp_logging p.config ≡ some l
    → get_elem? p.store.heap h ≡ some s
    → lookup Text-discrete s.id p.store.sessions ≡ some i
    → cleanup_session net p h now ≡ some (closed_proxy net p l s h now)
unfolding cleanup_session Session.remove
cleanup_session-held net p h now i l s c g e = ground arith

-- `cleanupSession` for a session of the map, and for one that has left it.
pub cleanup_session-Yields :
    {lost : ℕ} (net : Net) (p : UdpProxy) (h now : ℕ) (l : UdpLoggingConfig) (s : Session)
    → udp_logging p.config ≡ some l
    → get_elem? p.store.heap h ≡ some s
    → Balanced lost p
    → Yields lost (cleanup_session net p h now)
cleanup_session-Yields net p h now l s c g b =
    elim (Option-cases (lookup Text-discrete s.id p.store.sessions)) [
      | inl e ↦ subst (Yields _) (sym (cleanup_session-gone net p h now s g e)) b
      | inr (i, e) ↦
          subst (Yields _) (sym (cleanup_session-held net p h now i l s c g e))
            (closed_proxy-Balanced net p l s h now i g e b)
    ]
