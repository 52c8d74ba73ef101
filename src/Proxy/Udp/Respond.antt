-- ===== src/Proxy/Udp/Respond.antt =====
-- A round of `startSessionReader` with a packet for the client keeps the books.
use packetpony.Base.{
  ℕ, ◌>>=◌, ◌≡◌, refl, sym, subst, inl, inr, Bool, true, false, List, [], ◌∷◌, Option, some, none,
  arith, if◌then◌else◌, get_elem?, Bool-cases,
}
use packetpony.Base.Text.{text}
use packetpony.Config.{UdpLoggingConfig}
use packetpony.Net.{Net}
use packetpony.Ratelimit.Manager
use packetpony.Ratelimit.Manager.{RateLimitManager}
use packetpony.Session
use packetpony.Session.{
  Session, Store, Dial, Obtained, connected, refused, other_kind, found, created, failed, modify,
  cancel, close_conn, on_session,
}
use packetpony.Session.Heap.{get_elem?-modify}
use packetpony.Proxy.{
  log_connection, rate_limit_drop, bandwidth_limit, bytes_transferred, packets_transferred,
  received, client_write, log_error, error_total, failed_with,
}
use packetpony.Proxy.Udp.{UdpProxy, stats_event, emit, udp_logging, respond}
use packetpony.Proxy.Udp.Balance.{Balanced, emit-Balanced, session-Balanced}
use packetpony.Proxy.Udp.Forward.{checked, checked-Balanced}

-- What a round of a reader leaves: whether the loop goes on, its session is still an object.
abbrev pub Rounds : ℕ → ℕ → Option (UdpProxy × Bool) → Type 0
Rounds lost h none = ⊥
Rounds lost h (some (p, goes_on)) =
    Balanced lost p
    × ((s : Session) × (get_elem? p.store.heap h ≡ some s))
    × ((l : UdpLoggingConfig) × (udp_logging p.config ≡ some l))

get_elem?-modify_self :
    (h : ℕ) (f : Session → Session) (heap : List Session) (s : Session)
    → get_elem? heap h ≡ some s
    → get_elem? (modify h f heap) h ≡ some (f s)
get_elem?-modify_self h f heap s g = ground (arith, get_elem?-modify h h f heap)

-- The store after a packet that reached the client.
abbrev received_store : Store → ℕ → ℕ → ℕ → Store
received_store st h n now =
    Session.update_activity now
      (Session.add_packets_received 1 (Session.add_bytes_received n st h) h) h

abbrev counted : UdpProxy → Session → ℕ → ℕ → ℕ → Net → UdpProxy
counted p s h n now net =
    emit (bytes_transferred received n ∷ packets_transferred received ∷ [])
      (record (checked p (net.string s.source_addr.ip) n now) {
        store = received_store p.store h n now;
      })

received_session : Session → ℕ → ℕ → Session
received_session s n now = record s {
  bytes_received = Session.add64 s.bytes_received n;
  packets_received = Session.add64 s.packets_received 1;
  last_activity = now;
}

received_store-at :
    (st : Store) (h n now : ℕ) (s : Session)
    → get_elem? st.heap h ≡ some s
    → get_elem? (received_store st h n now).heap h ≡ some (received_session s n now)
unfolding Session.update_activity Session.add_packets_received Session.add_bytes_received
    received_session
received_store-at st h n now s g =
    get_elem?-modify_self h _ _ _
      (get_elem?-modify_self h _ _ _ (get_elem?-modify_self h _ st.heap s g))

counted-Balanced :
    {lost : ℕ} (net : Net) (p : UdpProxy) (s : Session) (h n now : ℕ)
    → Balanced lost p
    → Balanced lost (counted p s h n now net)
unfolding Session.update_activity Session.add_packets_received Session.add_bytes_received
counted-Balanced net p s h n now b =
    emit-Balanced _ _ (refl, refl)
      (session-Balanced (Session.touch now) _ h (λ s. (refl, refl, refl))
        (session-Balanced (λ s. record s { packets_received = Session.add64 s.packets_received 1 })
          _ h (λ s. (refl, refl, refl))
          (session-Balanced (λ s. record s { bytes_received = Session.add64 s.bytes_received n }) _
            h (λ s. (refl, refl, refl))
            (checked-Balanced p (net.string s.source_addr.ip) n now b))))

respond_denied :
    (net : Net) (p : UdpProxy) (h : ℕ) (s : Session) (n : ℕ) (written : Bool) (now : ℕ)
    → (Manager.allow_bandwidth p.limiter (net.string s.source_addr.ip) n now).1 ≡ false
    → respond net p h s n written now
      ≡ some (
        emit (rate_limit_drop bandwidth_limit ∷ []) (checked p (net.string s.source_addr.ip) n now),
        false,
      )
unfolding respond
respond_denied net p h s n written now e = rw (e, respond) refl

respond_unwritten :
    (net : Net) (p : UdpProxy) (h : ℕ) (s : Session) (n now : ℕ)
    → (Manager.allow_bandwidth p.limiter (net.string s.source_addr.ip) n now).1 ≡ true
    → respond net p h s n false now
      ≡ some (
        emit
            (log_error (failed_with client_write) ∷ error_total client_write ∷ [])
            (checked p (net.string s.source_addr.ip) n now),
        false,
      )
unfolding respond
respond_unwritten net p h s n now e = rw (e, respond) refl

abbrev logged : Net → UdpProxy → ℕ → ℕ → Session → UdpProxy
logged net p h now s =
    record (emit (log_connection (stats_event net p.config s (text "update") now) ∷ []) p) {
      store = Session.update_periodic_log now p.store h;
    }

respond_written :
    (net : Net) (p : UdpProxy) (h : ℕ) (s s' : Session) (n now : ℕ) (l : UdpLoggingConfig)
    → (Manager.allow_bandwidth p.limiter (net.string s.source_addr.ip) n now).1 ≡ true
    → udp_logging p.config ≡ some l
    → get_elem? (received_store p.store h n now).heap h ≡ some s'
    → respond net p h s n true now
      ≡ some (
          if Session.should_log_periodic s' now l.periodic_log_interval l.periodic_log_bytes_value
          then (logged net (counted p s h n now net) h now s', true)
          else (counted p s h n now net, true))
unfolding respond
respond_written net p h s s' n now l e c g = rw (e, respond) (rw (c, ◌>>=◌) (rw (g, ◌>>=◌) refl))

logged-Balanced :
    {lost : ℕ} (net : Net) (p : UdpProxy) (h now : ℕ) (s : Session)
    → Balanced lost p
    → Balanced lost (logged net p h now s)
unfolding Session.update_periodic_log
logged-Balanced net p h now s b =
    session-Balanced
      (λ s. record s { last_periodic_log = now; last_periodic_log_bytes = Session.total_bytes s }) _
      h (λ s. (refl, refl, refl)) (emit-Balanced _ p (refl, refl) b)

logged-at :
    (st : Store) (h now : ℕ) (s : Session)
    → get_elem? st.heap h ≡ some s
    → (s' : Session) × (get_elem? (Session.update_periodic_log now st h).heap h ≡ some s')
unfolding Session.update_periodic_log
logged-at st h now s g = (_, get_elem?-modify_self h _ st.heap s g)

written-Rounds :
    {lost : ℕ} (net : Net) (q : UdpProxy) (h now : ℕ) (s : Session) (l : UdpLoggingConfig)
    (log : Bool)
    → udp_logging q.config ≡ some l
    → get_elem? q.store.heap h ≡ some s
    → Balanced lost q
    → Rounds lost h (some (if log then (logged net q h now s, true) else (q, true)))
written-Rounds net q h now s l true c g b =
    (logged-Balanced net q h now s b, logged-at q.store h now s g, (l, c))
written-Rounds net q h now s l false c g b = (b, (s, g), (l, c))

pub respond-Rounds :
    {lost : ℕ} (net : Net) (p : UdpProxy) (h : ℕ) (s : Session) (n : ℕ) (written : Bool) (now : ℕ)
    (l : UdpLoggingConfig)
    → udp_logging p.config ≡ some l
    → get_elem? p.store.heap h ≡ some s
    → Balanced lost p
    → Rounds lost h (respond net p h s n written now)
respond-Rounds {lost} net p h s n written now l c g b =
    elim (Bool-cases (Manager.allow_bandwidth p.limiter (net.string s.source_addr.ip) n now).1) [
      | inr e ↦ subst (Rounds _ h) (sym (respond_denied net p h s n written now e)) (
        emit-Balanced _ _ (refl, refl) (checked-Balanced p (net.string s.source_addr.ip) n now b),
        (s, g),
        (l, c),
      )
      | inl e ↦ allowed written e
    ]
  where
    allowed :
        (w : Bool)
        → (Manager.allow_bandwidth p.limiter (net.string s.source_addr.ip) n now).1 ≡ true
        → Rounds lost h (respond net p h s n w now)
    allowed false e = subst (Rounds _ h) (sym (respond_unwritten net p h s n now e)) (
      emit-Balanced _ _ (refl, refl) (checked-Balanced p (net.string s.source_addr.ip) n now b),
      (s, g),
      (l, c),
    )
    allowed true e =
        subst (Rounds _ h)
          (sym (
            respond_written net p h s (received_session s n now) n now l e c
              (received_store-at p.store h n now s g)))
          (written-Rounds net _ h now _ l _ c (received_store-at p.store h n now s g)
            (counted-Balanced net p s h n now b))
