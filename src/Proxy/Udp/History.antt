-- ===== src/Proxy/Udp/History.antt =====
-- internal/proxy/udp_proxy.go: packets, rounds of the readers and sweeps of the sessions, in any order.
use packetpony.Base.{
  ℕ, zero, suc, ◌+◌, ◌<◌, ◌≡◌, refl, ◌∙◌, ap, subst, inl, inr, Bool, true, false, not, List, [],
  ◌∷◌, Option, some, none, arith, ◌==◌, get_elem?, keep, Bool-cases, Option-cases, All, All-keep,
  All-map, length, ◌>>=◌, length-append,
}
use packetpony.Config.{ListenerConfig, UdpLoggingConfig}
use packetpony.Net.{Net, Addr}
use packetpony.Acl.{is_allowed}
use packetpony.Ratelimit.Manager
use packetpony.Ratelimit.Manager.Closing.{closed_limiters, allow_connection-closed}
use packetpony.Session
use packetpony.Session.{
  Session, Store, Dial, Obtained, connected, refused, other_kind, found, created, failed, modify,
}
use packetpony.Session.Expiry.{Obtains, get_or_create-Obtains}
use packetpony.Proxy.Udp.{
  UdpProxy, udp_logging, cleanup_session, admit, handle_packet, Write, Read, reader_round,
  reader_step,
}
use packetpony.Proxy.Udp.Balance.{Balanced, Yields}
use packetpony.Proxy.Udp.Invariant.{
  dispatch, handle_packet_allowed, handle_packet_refused, handle_packet-Yields,
}
use packetpony.Proxy.Udp.Readers.{reader_step-Yields}
use packetpony.Proxy.Udp.Sweep.{expirations, length-end_all, cleanup-Balanced}
use packetpony.Proxy.Udp.Steady.{
  Closed, LeavesSteady, LeavesRound, stopped-remove, stopped-get_or_create, length-modify,
  length-remove, cleanup_session-Steady, forward-Steady, reader_round-Steady,
}

-- A packet of a client, a round of one of the readers that run, by its place, or a sweep.
pub data Event : Type 0 where
  packet : ℕ → Addr → ℕ → Dial → Write → Event
  reader : ℕ → Read → ℕ → Event
  swept : ℕ → Event

-- The sessions that sweeps have ended so far, after an event.
abbrev pub lost_after : ℕ → UdpProxy → Event → ℕ
lost_after lost p (packet len src now dial write) = lost
lost_after lost p (reader i outcome now) = lost
lost_after lost p (swept now) = lost + expirations p.store now

module _ (net : Net) where
  -- `none` is a panic.
  unfoldable pub run_event : UdpProxy → Event → Option UdpProxy
  run_event p (packet len src now dial write) = handle_packet net p len src now dial write
  run_event p (reader i outcome now) = elim (get_elem? p.readers i) [
    | none ↦ some p
    | some h ↦ reader_step net p h outcome now
  ]
  run_event p (swept now) = some (record p { store = Session.cleanup p.store now })

-- The readers have sessions of the heap; the configuration and what is closed are given.
abbrev pub IsRegular : ListenerConfig → Bool → Closed → UdpProxy → Type 0
IsRegular c w z p =
    (p.config ≡ c)
    × All (λ h. h < length p.store.heap) p.readers
    × (p.store.stopped ≡ w)
    × (closed_limiters p.limiter ≡ z)

unfoldable pub LeavesRegular : ListenerConfig → Bool → Closed → Option UdpProxy → Type 0
LeavesRegular c w z none = Unit {0}
LeavesRegular c w z (some p) = IsRegular c w z p

regular :
    (c : ListenerConfig) (n : ℕ) (rs : List ℕ) (w : Bool) (z : Closed) (o : Option UdpProxy)
    → All (λ h. h < n) rs
    → LeavesSteady c n rs w z o
    → LeavesRegular c w z o
unfolding LeavesSteady LeavesRegular
regular c n rs w z none a s = tt
regular c n rs w z (some p) a (e, k, r, m, x) = (e, rw (k, r) a, m, x)

module _ (net : Net) (c : ListenerConfig) (w : Bool) (z : Closed) where
  admit-IsRegular :
      (p : UdpProxy) (h : ℕ) (src : Addr) (len now : ℕ) (write : Write)
      → IsRegular c w z p
      → h < length p.store.heap
      → LeavesRegular c w z (admit net p h src len now write)
  unfolding admit LeavesRegular
  admit-IsRegular p h src len now write (e, a, m, x) b =
      elim (Bool-cases (Manager.allow_connection p.limiter (net.string src.ip) now).1) [
        | inr q ↦
            rw (q, admit)
              (
                e,
                rw (length-remove p.store (net.addr_string src)) a,
                stopped-remove p.store (net.addr_string src) ∙ m,
                allow_connection-closed p.limiter (net.string src.ip) now ∙ x,
              )
        | inl q ↦ elim (Option-cases (udp_logging p.config)) [
          | inl u ↦ rw (q, admit) (rw u tt)
          | inr (l, u) ↦
              rw (q, admit)
                (rw u (
                  regular c (length p.store.heap) (h ∷ p.readers) w z _ (b, a)
                    (forward-Steady net c (length p.store.heap) (h ∷ p.readers) w z _ h _ len now
                      write
                      (
                        e,
                        refl,
                        refl,
                        m,
                        allow_connection-closed p.limiter (net.string src.ip) now ∙ x,
                      ))))
        ]
      ]

  dispatch-IsRegular :
      (p : UdpProxy) (src : Addr) (len now : ℕ) (dial : Dial) (write : Write) (r : Store × Obtained)
      → IsRegular c w z p
      → r.0.stopped ≡ p.store.stopped
      → Obtains p.store (net.addr_string src) src dial now r
      → LeavesRegular c w z (dispatch net (record p { store = r.0 }) r.1 src len now write)
  unfolding LeavesRegular Session.update_activity
  dispatch-IsRegular p src len now dial write (st, failed) (e, a, m, x) y
        (absent, undialled, same) =
      (e, rw same a, y ∙ m, x)
  dispatch-IsRegular p src len now dial write (st, found h) (e, a, m, x) y (present, same) =
      let k : length st.heap ≡ length p.store.heap =
        ap (λ (x : Store). length x.heap) same ∙ length-modify h _ p.store.heap in
      regular c (length p.store.heap) p.readers w z _ a (
        forward-Steady net c (length p.store.heap) p.readers w z _ h _ len now write
          (e, k, refl, y ∙ m, x))
  dispatch-IsRegular p src len now dial write (st, created h) (e, a, m, x) y
        (absent, dialled, next, ins, pushed, present, g) =
      let k : length st.heap ≡ length p.store.heap + 1 =
        ap length pushed ∙ length-append p.store.heap _ in
      admit-IsRegular (record p { store = st }) h src len now write
        (e, All-map _ _ (λ i b. omega (arith, b, k)) p.readers a, y ∙ m, x) (omega (arith, next, k))

  handle_packet-IsRegular :
      (p : UdpProxy) (len : ℕ) (src : Addr) (now : ℕ) (dial : Dial) (write : Write)
      → IsRegular c w z p
      → LeavesRegular c w z (handle_packet net p len src now dial write)
  unfolding LeavesRegular
  handle_packet-IsRegular p len src now dial write k =
      elim (Bool-cases (is_allowed p.allowlist src.ip)) [
        | inr e ↦ rw (handle_packet_refused net p len src now dial write e) k
        | inl e ↦ rw (handle_packet_allowed net p len src now dial write e) (
            dispatch-IsRegular p src len now dial write
              (Session.get_or_create p.store (net.addr_string src) src dial now) k
              (stopped-get_or_create p.store (net.addr_string src) src dial now)
              (get_or_create-Obtains p.store (net.addr_string src) src dial now))
      ]

  ended-IsRegular :
      (n h now : ℕ) (rs : List ℕ) (o : Option (UdpProxy × Bool))
      → All (λ i. i < n) rs
      → LeavesRound c n rs w z o
      → LeavesRegular c w z (
          o >>= λ r. elim r.1 [
            | true ↦ some r.0
            | false ↦
                cleanup_session net
                  (record r.0 { readers = keep (λ i. not (i == h)) r.0.readers })
                  h
                  now
          ])
  unfolding LeavesRound LeavesRegular
  ended-IsRegular n h now rs none a k = tt
  ended-IsRegular n h now rs (some (p, true)) a (e, k, r, m, x) = (e, rw (k, r) a, m, x)
  ended-IsRegular n h now rs (some (p, false)) a (e, k, r, m, x) =
      regular c n (keep (λ i. not (i == h)) rs) w z _ (All-keep _ _ rs a) (
        cleanup_session-Steady net c n (keep (λ i. not (i == h)) rs) w z _ h now
          (e, k, ap (keep (λ i. not (i == h))) r, m, x))

  reader_step-IsRegular :
      (p : UdpProxy) (h : ℕ) (outcome : Read) (now : ℕ)
      → IsRegular c w z p
      → LeavesRegular c w z (reader_step net p h outcome now)
  unfolding reader_step
  reader_step-IsRegular p h outcome now (e, a, m, x) =
      ended-IsRegular (length p.store.heap) h now p.readers (reader_round net p h outcome now) a (
        reader_round-Steady net c (length p.store.heap) p.readers w z p h outcome now
          (e, refl, refl, m, x))

All-get : (P : ℕ → Type 0) (xs : List ℕ) (i a : ℕ) → All P xs → get_elem? xs i ≡ some a → P a
All-get P [] i a h e = cc
All-get P (x ∷ xs) zero a h e = subst P (ground arith) h.0
All-get P (x ∷ xs) (suc i) a h e = All-get P xs i a h.1 e

get_elem?-lt :
    (xs : List Session) (i : ℕ) → i < length xs → (s : Session) × (get_elem? xs i ≡ some s)
get_elem?-lt [] i h = absurd (omega arith)
get_elem?-lt (x ∷ xs) zero h = (x, refl)
get_elem?-lt (x ∷ xs) (suc i) h = get_elem?-lt xs i (omega arith)

module _ (net : Net) (c : ListenerConfig) (w : Bool) (z : Closed) where
  pub run_event-IsRegular :
      (p : UdpProxy) (e : Event) → IsRegular c w z p → LeavesRegular c w z (run_event net p e)
  unfolding run_event LeavesRegular Session.cleanup
  run_event-IsRegular p (packet len src now dial write) k =
      handle_packet-IsRegular net c w z p len src now dial write k
  run_event-IsRegular p (reader i outcome now) k = elim (Option-cases (get_elem? p.readers i)) [
    | inl e ↦ rw (e, run_event) k
    | inr (h, e) ↦ rw (e, run_event) (reader_step-IsRegular net c w z p h outcome now k)
  ]
  run_event-IsRegular p (swept now) (k, a, m, x) = (k, rw (length-end_all _ p.store.heap) a, m, x)

module _ (net : Net) (c : ListenerConfig) (l : UdpLoggingConfig) (logs : udp_logging c ≡ some l)
    (w : Bool) (z : Closed) where
  event-Yields :
      (lost : ℕ) (p : UdpProxy) (e : Event)
      → IsRegular c w z p
      → Balanced lost p
      → Yields (lost_after lost p e) (run_event net p e)
  unfolding run_event
  event-Yields lost p (packet len src now dial write) (k, a, m, x) b =
      handle_packet-Yields net p len src now dial write l (rw k logs) b
  event-Yields lost p (reader i outcome now) (k, a, m, x) b =
      elim (Option-cases (get_elem? p.readers i)) [
        | inl e ↦ rw (e, run_event) b
        | inr (h, e) ↦
            let (s, g) =
              get_elem?-lt p.store.heap h
                (All-get (λ j. j < length p.store.heap) p.readers i h a e) in
            rw (e, run_event) (reader_step-Yields net p h outcome now l s (rw k logs) g b)
      ]
  event-Yields lost p (swept now) k b = cleanup-Balanced p now b

  -- Packets, rounds and sweeps keep the books, but for the sessions that the sweeps end.
  pub run_event-Yields :
      (lost : ℕ) (p : UdpProxy) (e : Event)
      → IsRegular c w z p
      → Balanced lost p
      → Yields (lost_after lost p e) (run_event net p e) × LeavesRegular c w z (run_event net p e)
  run_event-Yields lost p e k b = (event-Yields lost p e k b, run_event-IsRegular net c w z p e k)
