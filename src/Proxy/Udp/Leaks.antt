-- ===== src/Proxy/Udp/Leaks.antt =====
-- Three ways in which the UDP proxy loses what it holds: a session that expires, a new session that the
-- limiter refuses, and a listener without a `udp.logging` section.
use packetpony.Base.{
  ℕ, ◌≡◌, refl, ap, ◌∙◌, true, false, [], ◌∷◌, ◌++◌, some, none, arith, length, get_elem?,
}
use packetpony.Base.Text.{Text, Text-discrete}
use packetpony.Base.Map.{lookup, insert, lookup-insert_self, lookup-delete}
use packetpony.Net.{Net, Addr}
use packetpony.Acl.{is_allowed}
use packetpony.Ratelimit.Manager
use packetpony.Session
use packetpony.Session.{
  Session, Store, Dial, Obtained, connected, created, modify, cancel, end_session, new_session,
  get_or_create, find_session, create_session,
}
use packetpony.Session.Heap.{get_elem?-modify, get_elem?-push}
use packetpony.Session.Expiry.{cleanup_lem, is_idle}
use packetpony.Proxy.Udp.{UdpProxy, udp_logging, cleanup_session, handle_packet, admit, Write}
use packetpony.Proxy.Udp.Balance.{cleanup_session-gone}
use packetpony.Proxy.Udp.Invariant.{dispatch, handle_packet_allowed}
use packetpony.Proxy.Udp.Admit.{admit_denied}

-- A session of the map that is idle for longer than the timeout is gone from the map after the sweep
-- of the session manager, so the `cleanupSession` of its reader does nothing: neither the limiter
-- nor the gauge is told, and no close is logged.
pub cleanup_session-swept :
    (net : Net) (p : UdpProxy) (h now later : ℕ) (s : Session)
    → lookup Text-discrete s.id p.store.sessions ≡ some h
    → get_elem? p.store.heap h ≡ some s
    → is_idle p.store now s ≡ true
    → cleanup_session net (record p { store = Session.cleanup p.store now }) h later
      ≡ some (record p { store = Session.cleanup p.store now })
cleanup_session-swept net p h now later s e g idle =
    let (gone, ended) = cleanup_lem p.store now s.id h s e g in
    cleanup_session-gone net (record p { store = Session.cleanup p.store now }) h later
      (end_session s) (ended ∙ rw idle refl) (gone ∙ rw idle refl)

get_or_create_new :
    (st : Store) (key : Text) (src : Addr) (now : ℕ)
    → lookup Text-discrete key st.sessions ≡ none
    → get_or_create st key src connected now ≡ (
      record st {
        sessions = insert Text-discrete key (length st.heap) st.sessions;
        heap = st.heap ++ new_session key src now ∷ [];
      },
      created (length st.heap),
    )
unfolding get_or_create find_session create_session
get_or_create_new st key src now e = rw (e, get_or_create) (rw (e, create_session) refl)

handle_packet_created :
    (net : Net) (p : UdpProxy) (len : ℕ) (src : Addr) (now : ℕ) (write : Write)
    → is_allowed p.allowlist src.ip ≡ true
    → lookup Text-discrete (net.addr_string src) p.store.sessions ≡ none
    → handle_packet net p len src now connected write
      ≡ admit net
          (record p {
            store = record p.store {
              sessions =
                  insert Text-discrete (net.addr_string src) (length p.store.heap) p.store.sessions;
              heap = p.store.heap ++ new_session (net.addr_string src) src now ∷ [];
            };
          })
          (length p.store.heap)
          src
          len
          now
          write
handle_packet_created net p len src now write a e =
    handle_packet_allowed net p len src now connected write a
    ∙ ap (λ (r : Store × Obtained). dispatch net (record p { store = r.0 }) r.1 src len now write)
        (get_or_create_new p.store (net.addr_string src) src now e)

-- A packet from an allowed address with no session, for which the dial succeeds and which the
-- limiter then refuses, leaves a session behind that is cancelled and not in the map, but whose
-- connection to the target is open, and no reader starts that would close it.
pub handle_packet-refused :
    (net : Net) (p : UdpProxy) (len : ℕ) (src : Addr) (now : ℕ) (write : Write)
    → is_allowed p.allowlist src.ip ≡ true
    → lookup Text-discrete (net.addr_string src) p.store.sessions ≡ none
    → (Manager.allow_connection p.limiter (net.string src.ip) now).1 ≡ false
    → (q : UdpProxy) × (handle_packet net p len src now connected write ≡ some q)
      × (lookup Text-discrete (net.addr_string src) q.store.sessions ≡ none)
      × (get_elem? q.store.heap (length p.store.heap)
          ≡ some (cancel (new_session (net.addr_string src) src now)))
      × (q.readers ≡ p.readers)
unfolding Session.remove
handle_packet-refused net p len src now write a e r = (
  _,
  handle_packet_created net p len src now write a e
      ∙ admit_denied net _ (length p.store.heap) src len now write r,
  rw (Session.remove, lookup-insert_self Text-discrete key (length p.store.heap) p.store.sessions)
      (ground (
        arith,
        lookup-delete Text-discrete key key
            (insert Text-discrete key (length p.store.heap) p.store.sessions),
      )),
  rw (Session.remove, lookup-insert_self Text-discrete key (length p.store.heap) p.store.sessions)
      (get_elem?-modify (length p.store.heap) (length p.store.heap) cancel
          (p.store.heap ++ new_session key src now ∷ [])
        ∙ ground
            (arith, get_elem?-push p.store.heap (new_session key src now) (length p.store.heap))),
  refl,
)
  where
    key : Text
    key = net.addr_string src

-- Without a `udp.logging` section `HandlePacket` panics for a packet from an allowed address with no
-- session, for which the dial succeeds and which the limiter allows.
pub handle_packet-unconfigured :
    (net : Net) (p : UdpProxy) (len : ℕ) (src : Addr) (now : ℕ) (write : Write)
    → udp_logging p.config ≡ none
    → is_allowed p.allowlist src.ip ≡ true
    → lookup Text-discrete (net.addr_string src) p.store.sessions ≡ none
    → (Manager.allow_connection p.limiter (net.string src.ip) now).1 ≡ true
    → handle_packet net p len src now connected write ≡ none
unfolding admit
handle_packet-unconfigured net p len src now write c a e ok =
    handle_packet_created net p len src now write a e ∙ rw (ok, admit) (rw c refl)
