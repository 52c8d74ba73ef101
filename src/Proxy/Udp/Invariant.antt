-- ===== src/Proxy/Udp/Invariant.antt =====
-- `HandlePacket` and the rounds of `startSessionReader` keep the books of the UDP proxy.
use packetpony.Base.{
  ℕ, ◌≡◌, refl, ap, sym, subst, inl, inr, true, false, [], ◌∷◌, Option, some, none, get_elem?,
  Bool-cases,
}
use packetpony.Base.Text.{Text}
use packetpony.Config.{UdpLoggingConfig}
use packetpony.Net.{Net, Addr}
use packetpony.Acl.{is_allowed}
use packetpony.Session
use packetpony.Session.{
  Session, Store, Dial, Obtained, connected, refused, other_kind, found, created, failed, modify,
  cancel, close_conn, on_session,
}
use packetpony.Session.Live.{AllLive, IsLive, get_or_create-AllLive}
use packetpony.Session.Expiry.{Obtains, get_or_create-Obtains}
use packetpony.Proxy.{
  session_create, acl_drop, acl_denied, connections_total, log_error, error_total, failed_with,
}
use packetpony.Proxy.Udp.{UdpProxy, emit, udp_logging, forward, admit, handle_packet, Write}
use packetpony.Proxy.Udp.Balance.{Balanced, Yields, emit-Balanced}
use packetpony.Proxy.Udp.Forward.{forward-Yields}
use packetpony.Proxy.Udp.Admit.{admit-Yields}

abbrev pub dispatch : Net → UdpProxy → Obtained → Addr → ℕ → ℕ → Write → Option UdpProxy
dispatch net q failed src len now write =
    some (emit (log_error (failed_with session_create) ∷ error_total session_create ∷ []) q)
dispatch net q (found h) src len now write = forward net q h (net.string src.ip) len now write
dispatch net q (created h) src len now write = admit net q h src len now write

pub handle_packet_allowed :
    (net : Net) (p : UdpProxy) (len : ℕ) (src : Addr) (now : ℕ) (dial : Dial) (write : Write)
    → is_allowed p.allowlist src.ip ≡ true
    → handle_packet net p len src now dial write
      ≡ dispatch net
          (record p {
            store = (Session.get_or_create p.store (net.addr_string src) src dial now).0;
          })
          (Session.get_or_create p.store (net.addr_string src) src dial now).1
          src
          len
          now
          write
unfolding handle_packet
handle_packet_allowed net p len src now dial write e =
    rw (e, handle_packet)
      (same (Session.get_or_create p.store (net.addr_string src) src dial now).1)
  where
    same :
        (o : Obtained)
        → (elim o as (λ x. Option UdpProxy) [
          | failed ↦ some (
              emit
                (log_error (failed_with session_create) ∷ error_total session_create ∷ [])
                (record p {
                  store = (Session.get_or_create p.store (net.addr_string src) src dial now).0;
                }))
          | found h ↦
              forward net
                (record p {
                  store = (Session.get_or_create p.store (net.addr_string src) src dial now).0;
                })
                h
                (net.string src.ip)
                len
                now
                write
          | created h ↦
              admit net
                (record p {
                  store = (Session.get_or_create p.store (net.addr_string src) src dial now).0;
                })
                h
                src
                len
                now
                write
        ])
          ≡ dispatch net
              (record p {
                store = (Session.get_or_create p.store (net.addr_string src) src dial now).0;
              })
              o
              src
              len
              now
              write
    same failed = refl
    same (found h) = refl
    same (created h) = refl

pub handle_packet_refused :
    (net : Net) (p : UdpProxy) (len : ℕ) (src : Addr) (now : ℕ) (dial : Dial) (write : Write)
    → is_allowed p.allowlist src.ip ≡ false
    → handle_packet net p len src now dial write
      ≡ some (emit (acl_drop ∷ connections_total acl_denied ∷ []) p)
unfolding handle_packet
handle_packet_refused net p len src now dial write e = rw (e, handle_packet) refl

IsLive-some : (key : Text) (o : Option Session) → IsLive key o → (s : Session) × (o ≡ some s)
IsLive-some key none l = absurd l
IsLive-some key (some s) l = (s, refl)

store-Balanced :
    {lost : ℕ} (p : UdpProxy) (st : Store)
    → st.sessions ≡ p.store.sessions
    → AllLive st
    → Balanced lost p
    → Balanced lost (record p { store = st })
store-Balanced p st e live b = record {
  distinct = rw e b.distinct;
  live = live;
  places = rw e b.places;
  gauge = rw e b.gauge;
}

dispatch-Yields :
    {lost : ℕ} (net : Net) (p : UdpProxy) (src : Addr) (len now : ℕ) (dial : Dial) (write : Write)
    (l : UdpLoggingConfig) (r : Store × Obtained)
    → udp_logging p.config ≡ some l
    → Balanced lost p
    → AllLive r.0
    → Obtains p.store (net.addr_string src) src dial now r
    → Yields lost (dispatch net (record p { store = r.0 }) r.1 src len now write)
unfolding Session.update_activity
dispatch-Yields net p src len now dial write l (st, failed) c b live (absent, undialled, same) =
    emit-Balanced _ _ (refl, refl)
      (store-Balanced p st (ap (λ (x : Store). x.sessions) same) live b)
dispatch-Yields net p src len now dial write l (st, found h) c b live (present, same) =
    let kept : st.sessions ≡ p.store.sessions = ap (λ (x : Store). x.sessions) same in
    let (s, g) =
      IsLive-some _ (get_elem? st.heap h) (live (net.addr_string src) h (rw kept present)) in
    forward-Yields net _ h _ len now write l s c g (store-Balanced p st kept live b)
dispatch-Yields net p src len now dial write l (st, created h) c b live
      (absent, dialled, next, ins, pushed, present, g) =
    admit-Yields net _ p h src len now write l _ b c g live absent ins refl refl

-- For a listener with a `udp.logging` section, if the sessions of the map are live, each under its
-- own key, and the counter of the limiter, where it has a limit, and the gauge are their number and
-- some `lost` more, then `HandlePacket` does not panic and leaves it so, with the same `lost`,
-- whichever way the packet ends.
pub handle_packet-Yields :
    {lost : ℕ} (net : Net) (p : UdpProxy) (len : ℕ) (src : Addr) (now : ℕ) (dial : Dial)
    (write : Write) (l : UdpLoggingConfig)
    → udp_logging p.config ≡ some l
    → Balanced lost p
    → Yields lost (handle_packet net p len src now dial write)
handle_packet-Yields net p len src now dial write l c b =
    elim (Bool-cases (is_allowed p.allowlist src.ip)) [
      | inr e ↦
          subst (Yields _) (sym (handle_packet_refused net p len src now dial write e))
            (emit-Balanced _ _ (refl, refl) b)
      | inl e ↦ subst (Yields _) (sym (handle_packet_allowed net p len src now dial write e)) (
          dispatch-Yields net p src len now dial write l
            (Session.get_or_create p.store (net.addr_string src) src dial now) c b
            (get_or_create-AllLive p.store (net.addr_string src) src dial now b.live)
            (get_or_create-Obtains p.store (net.addr_string src) src dial now))
    ]
