-- ===== src/Proxy/Udp/Steady.antt =====
-- What the handlers of the UDP proxy leave alone: the configuration, the objects of the heap, and, but
-- for the start and the end of a reader, the readers.
use packetpony.Base.{
  ℕ, zero, suc, ◌≡◌, refl, ◌∙◌, inl, inr, Bool, true, false, not, List, [], ◌∷◌, Option, some, none,
  arith, ◌==◌, if◌then◌else◌, get_elem?, Option-cases, length, ◌>>=◌,
}
use packetpony.Base.Text.{Text, Text-discrete}
use packetpony.Base.Map.{lookup}
use packetpony.Config.{ListenerConfig}
use packetpony.Net.{Net, Addr}
use packetpony.Ratelimit.Manager
use packetpony.Ratelimit.Manager.Closing.{
  closed_limiters, release_connection-closed, release_total-closed, allow_bandwidth-closed,
}
use packetpony.Proxy
use packetpony.Session
use packetpony.Session.{
  Session, Store, Dial, Obtained, connected, refused, other_kind, found, created, failed, modify,
  get_or_create, find_session, create_session,
}
use packetpony.Proxy.Udp.{
  UdpProxy, emit, udp_logging, cleanup_session, forward, respond, Write, wrote, write_error, Read,
  read_timeout, read_error, read_bytes, reader_round,
}

pub length-modify :
    (h : ℕ) (f : Session → Session) (heap : List Session) → length (modify h f heap) ≡ length heap
unfolding modify
length-modify h f [] = refl
length-modify zero f (s ∷ heap) = refl
length-modify (suc h) f (s ∷ heap) = omega (arith, length-modify h f heap)

-- Which of the three limiters are closed.
abbrev pub Closed : Type 0
Closed = Bool × Bool × Bool

pub stopped-remove : (st : Store) (id : Text) → (Session.remove st id).0.stopped ≡ st.stopped
unfolding Session.remove
stopped-remove st id = ground arith

pub stopped-get_or_create :
    (st : Store) (key : Text) (src : Addr) (dial : Dial) (now : ℕ)
    → (get_or_create st key src dial now).0.stopped ≡ st.stopped
unfolding get_or_create find_session create_session Session.update_activity
stopped-get_or_create st key src dial now = ground arith

-- A proxy with a configuration, a number of objects, and readers of some of them.
abbrev pub IsSteady : ListenerConfig → ℕ → List ℕ → Bool → Closed → UdpProxy → Type 0
IsSteady c n rs w z p =
    (p.config ≡ c)
    × (length p.store.heap ≡ n)
    × (p.readers ≡ rs)
    × (p.store.stopped ≡ w)
    × (closed_limiters p.limiter ≡ z)

unfoldable pub LeavesSteady : ListenerConfig → ℕ → List ℕ → Bool → Closed → Option UdpProxy → Type 0
LeavesSteady c n rs w z none = Unit {0}
LeavesSteady c n rs w z (some p) = IsSteady c n rs w z p

unfoldable pub LeavesRound :
    ListenerConfig → ℕ → List ℕ → Bool → Closed → Option (UdpProxy × Bool) → Type 0
LeavesRound c n rs w z none = Unit {0}
LeavesRound c n rs w z (some (p, goes_on)) = IsSteady c n rs w z p

module _ (c : ListenerConfig) (n : ℕ) (rs : List ℕ) (w : Bool) (z : Closed) where
  pub steady_panic : LeavesSteady c n rs w z none
  unfolding LeavesSteady
  steady_panic = tt

  steady : (p : UdpProxy) → IsSteady c n rs w z p → LeavesSteady c n rs w z (some p)
  unfolding LeavesSteady
  steady p h = h

  round_panic : LeavesRound c n rs w z none
  unfolding LeavesRound
  round_panic = tt

  round :
      (p : UdpProxy) (goes_on : Bool)
      → IsSteady c n rs w z p
      → LeavesRound c n rs w z (some (p, goes_on))
  unfolding LeavesRound
  round p goes_on h = h

pub length-remove : (st : Store) (id : Text) → length (Session.remove st id).0.heap ≡ length st.heap
unfolding Session.remove
length-remove st id = elim (Option-cases (lookup Text-discrete id st.sessions)) [
  | inl e ↦ rw (e, Session.remove) refl
  | inr (h, e) ↦ rw (e, Session.remove) (length-modify h Session.cancel st.heap)
]

-- Every result of a chain.
bind_all :
    {A B : Type 0} (P : Option B → Type 0) (o : Option A) (f : A → Option B)
    → P none
    → ((a : A) → P (f a))
    → P (o >>= f)
bind_all P none f n s = n
bind_all P (some a) f n s = s a

if_all : {A : Type 0} (P : A → Type 0) (b : Bool) (x y : A) → P x → P y → P (if b then x else y)
if_all P true x y s t = s
if_all P false x y s t = t

found_all :
    (P : Option UdpProxy → Type 0) (o : Option ℕ) (x y : Option UdpProxy)
    → P x
    → P y
    → P (elim o [ none ↦ x | some _ ↦ y ])
found_all P none x y s t = s
found_all P (some h) x y s t = t

module _ (net : Net) (c : ListenerConfig) (n : ℕ) (rs : List ℕ) (w : Bool) (z : Closed) where
  pub cleanup_session-Steady :
      (p : UdpProxy) (h now : ℕ)
      → IsSteady c n rs w z p
      → LeavesSteady c n rs w z (cleanup_session net p h now)
  unfolding cleanup_session
  cleanup_session-Steady p h now (e, k, r, m, x) =
      bind_all (LeavesSteady c n rs w z) (get_elem? p.store.heap h) _ (steady_panic c n rs w z) λ s.
        found_all (LeavesSteady c n rs w z) (Session.remove p.store s.id).1 _ _
          (steady c n rs w z _ (e, k, r, m, x))
          (bind_all (LeavesSteady c n rs w z) (udp_logging p.config) _ (steady_panic c n rs w z)
            λ l. steady c n rs w z _ (
              e,
              length-modify h Session.close_conn _ ∙ (length-remove p.store s.id ∙ k),
              r,
              stopped-remove p.store s.id ∙ m,
              release_total-closed
                    (Manager.release_connection p.limiter (net.string s.source_addr.ip))
                  ∙ (release_connection-closed p.limiter (net.string s.source_addr.ip) ∙ x),
            ))

  pub forward-Steady :
      (p : UdpProxy) (h : ℕ) (ip : Text) (len now : ℕ) (write : Write)
      → IsSteady c n rs w z p
      → LeavesSteady c n rs w z (forward net p h ip len now write)
  unfolding forward Session.add_packets_sent Session.add_bytes_sent
  forward-Steady p h ip len now (wrote b) (e, k, r, m, x) =
      if_all (LeavesSteady c n rs w z) _ _ _
        (steady c n rs w z _ (e, k, r, m, allow_bandwidth-closed p.limiter ip len now ∙ x))
        (steady c n rs w z _ (
          e,
          length-modify h _ _ ∙ (length-modify h _ _ ∙ k),
          r,
          m,
          allow_bandwidth-closed p.limiter ip len now ∙ x,
        ))
  forward-Steady p h ip len now write_error (e, k, r, m, x) =
      if_all (LeavesSteady c n rs w z) _ _ _
        (steady c n rs w z _ (e, k, r, m, allow_bandwidth-closed p.limiter ip len now ∙ x))
        (cleanup_session-Steady _ h now
          (e, k, r, m, allow_bandwidth-closed p.limiter ip len now ∙ x))

  pub respond-Steady :
      (p : UdpProxy) (h : ℕ) (s : Session) (len : ℕ) (written : Bool) (now : ℕ)
      → IsSteady c n rs w z p
      → LeavesRound c n rs w z (respond net p h s len written now)
  unfolding respond Session.add_packets_received Session.add_bytes_received Session.update_activity
      Session.update_periodic_log
  respond-Steady p h s len written now (e, k, r, m, x) =
      if_all (LeavesRound c n rs w z)
        (not (Manager.allow_bandwidth p.limiter (net.string s.source_addr.ip) len now).1) _ _
        (round c n rs w z _ _ (e, k, r, m, same))
        (if_all (LeavesRound c n rs w z) (not written) _ _ (round c n rs w z _ _ (e, k, r, m, same))
          (bind_all (LeavesRound c n rs w z) (udp_logging p.config) _ (round_panic c n rs w z) λ l.
            bind_all (LeavesRound c n rs w z) (get_elem? received_heap h) _ (round_panic c n rs w z)
              λ s'.
                if_all (λ r. LeavesRound c n rs w z (some r))
                  (Session.should_log_periodic s' now l.periodic_log_interval
                    l.periodic_log_bytes_value)
                  _ _ (round c n rs w z _ _ (e, length-modify h _ _ ∙ three, r, m, same))
                  (round c n rs w z _ _ (e, three, r, m, same))))
    where
      received_heap : List Session
      received_heap =
          modify h (λ t. record t { last_activity = now })
            (modify h (λ t. record t { packets_received = Session.add64 t.packets_received 1 })
              (modify h (λ t. record t { bytes_received = Session.add64 t.bytes_received len })
                p.store.heap))

      three : length received_heap ≡ n
      three = length-modify h _ _ ∙ (length-modify h _ _ ∙ (length-modify h _ _ ∙ k))

      same :
          closed_limiters
            (Manager.allow_bandwidth p.limiter (net.string s.source_addr.ip) len now).0
          ≡ z
      same = allow_bandwidth-closed p.limiter (net.string s.source_addr.ip) len now ∙ x

  cancelled_all :
      (b : Bool) (x y : Option (UdpProxy × Bool))
      → LeavesRound c n rs w z x
      → LeavesRound c n rs w z y
      → LeavesRound c n rs w z (elim b [ true ↦ x | false ↦ y ])
  cancelled_all true x y a b = a
  cancelled_all false x y a b = b

  pub reader_round-Steady :
      (p : UdpProxy) (h : ℕ) (outcome : Read) (now : ℕ)
      → IsSteady c n rs w z p
      → LeavesRound c n rs w z (reader_round net p h outcome now)
  unfolding reader_round
  reader_round-Steady p h outcome now k =
      bind_all (LeavesRound c n rs w z) (get_elem? p.store.heap h) _ (round_panic c n rs w z)
        λ s. cancelled_all s.cancelled _ _ (round c n rs w z _ _ k) (by_outcome s outcome)
    where
      by_outcome :
          (s : Session) (outcome : Read)
          → LeavesRound c n rs w z (elim outcome [
            | read_timeout ↦ some (p, false)
            | read_error ↦ some (
              emit
                  (Proxy.log_error (Proxy.failed_with Proxy.target_read)
                    ∷ Proxy.error_total Proxy.target_read
                    ∷ [])
                  p,
              false,
            )
            | read_bytes m written ↦
                if m == 0 then some (p, true) else respond net p h s m written now
          ])
      by_outcome s read_timeout = round c n rs w z _ _ k
      by_outcome s read_error = round c n rs w z _ _ k
      by_outcome s (read_bytes m written) =
          if_all (LeavesRound c n rs w z) _ _ _ (round c n rs w z _ _ k)
            (respond-Steady p h s m written now k)
