-- ===== src/Proxy/Udp/Admit.antt =====
-- The part of `HandlePacket` for a new session keeps the books, whatever the limiter says.
use packetpony.Base.{
  ℕ, ◌+◌, ◌≡◌, refl, ap, ◌∙◌, sym, subst, inl, inr, Bool, true, false, List, [], ◌∷◌, ◌++◌, some,
  none, arith, if◌then◌else◌, length, get_elem?, Bool-cases,
}
use packetpony.Base.Text.{Text, Text-discrete}
use packetpony.Base.Map.{
  lookup, insert, delete, lookup-insert_self, Distinct-insert, length-insert_new, delete-insert_new,
}
use packetpony.Config.{UdpLoggingConfig}
use packetpony.Net.{Net, Addr}
use packetpony.Ratelimit.Manager
use packetpony.Ratelimit.Manager.{RateLimitManager}
use packetpony.Ratelimit.Manager.Places.{Holds, connect-Holds}
use packetpony.Session
use packetpony.Session.{
  Session, Store, Dial, Obtained, connected, refused, other_kind, found, created, failed, modify,
  cancel, close_conn, on_session,
}
use packetpony.Session.Live.{AllLive, remove-AllLive}
use packetpony.Proxy.{
  Effect, connections_active_inc, log_connection, log_info, denied_by_rate_limit, connection_limit,
  connections_total, rate_limited, accepted, rate_limit_drop,
}
use packetpony.Proxy.Udp.{UdpProxy, open_event, emit, udp_logging, forward, admit, Write}
use packetpony.Proxy.Gauge.{incs-append, decs-append}
use packetpony.Proxy.Udp.Balance.{Balanced, Yields, emit-Balanced}
use packetpony.Proxy.Udp.Forward.{forward-Yields}

-- A session that is not in the map before the packet: the limiter has the last word.
sessions-remove :
    (st : Store) (id : Text) (h : ℕ)
    → lookup Text-discrete id st.sessions ≡ some h
    → (Session.remove st id).0.sessions ≡ delete Text-discrete id st.sessions
unfolding Session.remove
sessions-remove st id h e = rw (e, Session.remove) refl

pub admit_denied :
    (net : Net) (p : UdpProxy) (h : ℕ) (src : Addr) (len now : ℕ) (write : Write)
    → (Manager.allow_connection p.limiter (net.string src.ip) now).1 ≡ false
    → admit net p h src len now write
      ≡ some (
          emit
            (log_info denied_by_rate_limit
              ∷ rate_limit_drop connection_limit
              ∷ connections_total rate_limited
              ∷ [])
            (record p {
              limiter = (Manager.allow_connection p.limiter (net.string src.ip) now).0;
              store = (Session.remove p.store (net.addr_string src)).0;
            }))
unfolding admit
admit_denied net p h src len now write e = rw (e, admit) refl

abbrev events : Net → UdpProxy → Addr → ℕ → UdpLoggingConfig → List Effect
events net p src now l =
    (if l.log_session_start then log_connection (open_event net p.config src now) ∷ [] else [])
    ++ connections_total accepted ∷ connections_active_inc ∷ []

abbrev pub admitted : Net → UdpProxy → ℕ → Addr → ℕ → UdpLoggingConfig → UdpProxy
admitted net p h src now l = emit (events net p src now l) (record p {
  limiter = (Manager.allow_connection p.limiter (net.string src.ip) now).0;
  readers = h ∷ p.readers;
})

pub admit_allowed :
    (net : Net) (p : UdpProxy) (h : ℕ) (src : Addr) (len now : ℕ) (write : Write)
    (l : UdpLoggingConfig)
    → udp_logging p.config ≡ some l
    → (Manager.allow_connection p.limiter (net.string src.ip) now).1 ≡ true
    → admit net p h src len now write
      ≡ forward net (admitted net p h src now l) h (net.string src.ip) len now write
unfolding admit
admit_allowed net p h src len now write l c e = rw (e, admit) (rw c refl)

pub admitted-Balanced :
    {lost : ℕ} (net : Net) (p p₀ : UdpProxy) (h : ℕ) (src : Addr) (now : ℕ) (l : UdpLoggingConfig)
    → Balanced lost p₀
    → AllLive p.store
    → lookup Text-discrete (net.addr_string src) p₀.store.sessions ≡ none
    → p.store.sessions ≡ insert Text-discrete (net.addr_string src) h p₀.store.sessions
    → p.limiter ≡ p₀.limiter
    → p.trace ≡ p₀.trace
    → (Manager.allow_connection p.limiter (net.string src.ip) now).1 ≡ true
    → Balanced lost (admitted net p h src now l)
admitted-Balanced {lost} net p p₀ h src now l b live absent ins lim tr e = record {
  distinct = rw ins (Distinct-insert Text-discrete key h p₀.store.sessions b.distinct);
  live = live;
  places =
      rw (ins, longer)
        (subst
          (λ (a : Bool).
            Holds (Manager.allow_connection p.limiter ip now).0
              (if a then lost + length p₀.store.sessions + 1 else lost + length p₀.store.sessions))
          e (connect-Holds p.limiter _ ip now (rw lim b.places)));
  gauge =
      rw (ins, longer, tr)
        (ground (
          arith,
          incs-append p₀.trace (events net p src now l),
          decs-append p₀.trace (events net p src now l),
          b.gauge,
        ));
}
  where
    key : Text
    key = net.addr_string src

    ip : Text
    ip = net.string src.ip

    longer :
        lost + length (insert Text-discrete key h p₀.store.sessions)
        ≡ lost + length p₀.store.sessions + 1
    longer = omega (arith, length-insert_new Text-discrete key h p₀.store.sessions absent)

pub denied-Balanced :
    {lost : ℕ} (net : Net) (p p₀ : UdpProxy) (h : ℕ) (src : Addr) (now : ℕ)
    → Balanced lost p₀
    → AllLive p.store
    → lookup Text-discrete (net.addr_string src) p₀.store.sessions ≡ none
    → p.store.sessions ≡ insert Text-discrete (net.addr_string src) h p₀.store.sessions
    → p.limiter ≡ p₀.limiter
    → p.trace ≡ p₀.trace
    → (Manager.allow_connection p.limiter (net.string src.ip) now).1 ≡ false
    → Balanced lost (record p {
      limiter = (Manager.allow_connection p.limiter (net.string src.ip) now).0;
      store = (Session.remove p.store (net.addr_string src)).0;
    })
denied-Balanced {lost} net p p₀ h src now b live absent ins lim tr e = record {
  distinct = rw as_before b.distinct;
  live = remove-AllLive p.store (net.addr_string src) live;
  places = rw as_before (
      subst
        (λ (a : Bool).
          Holds (Manager.allow_connection p.limiter ip now).0
            (if a then lost + length p₀.store.sessions + 1 else lost + length p₀.store.sessions))
        e (connect-Holds p.limiter _ ip now (rw lim b.places)));
  gauge = rw (as_before, tr) b.gauge;
}
  where
    ip : Text
    ip = net.string src.ip

    as_before : (Session.remove p.store (net.addr_string src)).0.sessions ≡ p₀.store.sessions
    as_before =
        sessions-remove p.store (net.addr_string src) h
          (rw ins (lookup-insert_self Text-discrete (net.addr_string src) h p₀.store.sessions))
        ∙ ap (delete Text-discrete (net.addr_string src)) ins
        ∙ delete-insert_new Text-discrete (net.addr_string src) h p₀.store.sessions absent

-- The heap of a store in which a session was just made.
pub admit-Yields :
    {lost : ℕ} (net : Net) (p p₀ : UdpProxy) (h : ℕ) (src : Addr) (len now : ℕ) (write : Write)
    (l : UdpLoggingConfig) (s : Session)
    → Balanced lost p₀
    → udp_logging p.config ≡ some l
    → get_elem? p.store.heap h ≡ some s
    → AllLive p.store
    → lookup Text-discrete (net.addr_string src) p₀.store.sessions ≡ none
    → p.store.sessions ≡ insert Text-discrete (net.addr_string src) h p₀.store.sessions
    → p.limiter ≡ p₀.limiter
    → p.trace ≡ p₀.trace
    → Yields lost (admit net p h src len now write)
admit-Yields net p p₀ h src len now write l s b c g live absent ins lim tr =
    elim (Bool-cases (Manager.allow_connection p.limiter (net.string src.ip) now).1) [
      | inr e ↦ subst (Yields _) (sym (admit_denied net p h src len now write e)) (
          emit-Balanced _ _ (refl, refl)
            (denied-Balanced net p p₀ h src now b live absent ins lim tr e))
      | inl e ↦ subst (Yields _) (sym (admit_allowed net p h src len now write l c e)) (
          forward-Yields net _ h _ len now write l s c g
            (admitted-Balanced net p p₀ h src now l b live absent ins lim tr e))
    ]
