-- ===== src/Listener/Traffic.antt =====
-- internal/listener: what comes to the listeners of a manager between their start and their stop.
use packetpony.Base.{
  ℕ, ◌≡◌, refl, ◌∙◌, subst, inl, inr, Bool, true, false, ◌||◌, List, [], ◌∷◌, Option, some, none,
  arith, ◌/◌, ◌==◌, All, Option-cases, ◌>>=◌,
}
use packetpony.Base.Text.{Text}
use packetpony.Config.{ListenerConfig, UdpLoggingConfig}
use packetpony.Net.{Net}
use packetpony.Ratelimit.Manager.Closing.{closed_limiters, close-open}
use packetpony.Proxy.Tcp.Serve
use packetpony.Proxy.Tcp.Closing.{serve-closed}
use packetpony.Proxy.Udp.{UdpProxy, udp_logging}
use packetpony.Proxy.Udp.Balance.{Balanced, Yields}
use packetpony.Proxy.Udp.History
use packetpony.Proxy.Udp.History.{
  run_event, run_event-IsRegular, run_event-Yields, IsRegular, LeavesRegular, lost_after,
}
use packetpony.Listener.{Listener, tcp_listener, udp_listener, start_tcp, start_udp}
use packetpony.Listener.Made.{IsReady, AllReady}
use packetpony.Listener.Lifecycle.{Bind, binds, unresolved, in_use, start_listener, start_some}
use packetpony.Listener.Stopped.{IsUnstopped, IsUp, is_listening, some_inj}

-- What comes to a listener: the events of its connections with those that are tracked at the end, or
-- packets, rounds of readers and sweeps.
pub record Traffic : Type 0 where
  pub connections : List Serve.Event
  pub tracked : List ℕ
  pub datagrams : List History.Event

-- `none` is a panic.
unfoldable pub carry_udp : Net → UdpProxy → List History.Event → Option UdpProxy
carry_udp net p [] = some p
carry_udp net p (e ∷ es) = run_event net p e >>= λ q. carry_udp net q es

unfoldable pub carry : Net → Traffic → Listener → Option Listener
carry net t (tcp_listener l) = some (
    tcp_listener (record l {
      proxy = (Serve.serve net (l.proxy, []) t.connections).0;
      active_conns = t.tracked;
    }))
carry net t (udp_listener l) = do
  p ← carry_udp net l.proxy t.datagrams
  some (udp_listener (record l { proxy = p }))

unfoldable pub carry_all :
    Net → (Text → Traffic) → List (Text × Listener) → Option (List (Text × Listener))
carry_all net t [] = some []
carry_all net t ((name, l) ∷ m) =
    let rest = carry_all net t m in do l' ← carry net (t name) l; m' ← rest; some ((name, l') ∷ m')

-- A UDP listener without a `udp.logging` section, on which an admitted packet panics.
abbrev pub is_unlogged : Listener → Bool
is_unlogged (tcp_listener l) = false
is_unlogged (udp_listener l) = elim (udp_logging l.proxy.config) [ none ↦ true | some x ↦ false ]

-- The ticker of a session manager, of half its timeout, has no positive interval.
abbrev pub is_too_fast : Listener → Bool
is_too_fast (tcp_listener l) = false
is_too_fast (udp_listener l) = l.proxy.store.timeout / 2 == 0

abbrev pub any : (Listener → Bool) → List (Text × Listener) → Bool
any f [] = false
any f ((name, l) ∷ m) = f l || any f m

-- What a listener is before its traffic.
abbrev pub IsCalm : Listener → Type 0
IsCalm (tcp_listener l) = closed_limiters l.proxy.limiter ≡ (false, false, false)
IsCalm (udp_listener l) =
    IsRegular l.proxy.config false (false, false, false) l.proxy × Balanced 0 l.proxy

ready-IsCalm : (l : Listener) → IsReady l → IsCalm l
ready-IsCalm (tcp_listener l) (b, u, x) = x
ready-IsCalm (udp_listener l) (b, u, x, r) = ((refl, rw r tt, u.1, x), b)

pub AllReady-IsCalm :
    (m : List (Text × Listener)) → AllReady m → All (λ (e : Text × Listener). IsCalm e.1) m
AllReady-IsCalm [] h = tt
AllReady-IsCalm ((name, l) ∷ m) h = (ready-IsCalm l h.0, AllReady-IsCalm m h.1)

calm-IsUnstopped : (l : Listener) → IsCalm l → IsUnstopped l
calm-IsUnstopped (tcp_listener l) x = let (m, e, same) = close-open l.proxy.limiter x in (m, e)
calm-IsUnstopped (udp_listener l) ((k, a, s, x), b) =
    let (m, e, same) = close-open l.proxy.limiter x in ((m, e), s)

start_listener-IsCalm :
    (l l' : Listener) (b : Bind)
    → start_listener l b ≡ some l'
    → IsCalm l
    → IsCalm l' × (is_unlogged l' ≡ is_unlogged l)
unfolding start_listener start_tcp start_udp
start_listener-IsCalm (tcp_listener l) l' binds e h =
    subst (λ x. IsCalm x × (is_unlogged x ≡ false)) (some_inj _ _ e) (h, refl)
start_listener-IsCalm (udp_listener l) l' binds e h =
    subst (λ x. IsCalm x × (is_unlogged x ≡ is_unlogged (udp_listener l))) (some_inj _ _ e)
      (h, refl)
start_listener-IsCalm (tcp_listener l) l' unresolved e h = cc
start_listener-IsCalm (udp_listener l) l' unresolved e h = cc
start_listener-IsCalm (tcp_listener l) l' in_use e h = cc
start_listener-IsCalm (udp_listener l) l' in_use e h = cc

-- A start leaves the proxies as they are.
pub start_some-IsCalm :
    (net : Text → Bind) (m : List (Text × Listener))
    → All (λ (e : Text × Listener). IsCalm e.1) m
    → All (λ (e : Text × Listener). IsCalm e.1) (start_some net m).0
      × (any is_unlogged (start_some net m).0 ≡ any is_unlogged m)
unfolding start_some
start_some-IsCalm net [] h = (tt, refl)
start_some-IsCalm net ((name, l) ∷ m) h = elim (Option-cases (start_listener l (net name))) [
  | inl e ↦ rw (e, start_some) (h, refl)
  | inr (l', e) ↦
      let (c, u) = start_listener-IsCalm l l' (net name) e h.0 in
      let (cs, us) = start_some-IsCalm net m h.1 in rw (e, start_some) ((c, cs), rw (u, us) refl)
]

module _ (net : Net) (c : ListenerConfig) where
  carry_udp-IsRegular :
      (p : UdpProxy) (es : List History.Event)
      → IsRegular c false (false, false, false) p
      → LeavesRegular c false (false, false, false) (carry_udp net p es)
  unfolding carry_udp LeavesRegular
  carry_udp-IsRegular p [] k = k
  carry_udp-IsRegular p (e ∷ es) k =
      follow (λ q h. carry_udp-IsRegular q es h) (run_event net p e)
        (run_event-IsRegular net c false (false, false, false) p e k)
    where
      follow :
          ((q : UdpProxy)
            → IsRegular c false (false, false, false) q
            → LeavesRegular c false (false, false, false) (carry_udp net q es))
          → (o : Option UdpProxy) → LeavesRegular c false (false, false, false) o
          → LeavesRegular c false (false, false, false) (o >>= λ q. carry_udp net q es)
      follow rest none h = h
      follow rest (some q) h = rest q h

  carry_udp-some :
      (l : UdpLoggingConfig)
      → udp_logging c ≡ some l
      → (p : UdpProxy) (lost : ℕ) (es : List History.Event)
      → IsRegular c false (false, false, false) p
      → Balanced lost p
      → carry_udp net p es ≡ none
      → ⊥
  unfolding carry_udp LeavesRegular
  carry_udp-some l logs p lost [] k b e = cc
  carry_udp-some l logs p lost (x ∷ es) k b e =
      follow (λ q n r y s. carry_udp-some l logs q n es r y s) (run_event net p x) _
        (run_event-Yields net c l logs false (false, false, false) lost p x k b) e
    where
      follow :
          ((q : UdpProxy) (n : ℕ)
            → IsRegular c false (false, false, false) q
            → Balanced n q
            → carry_udp net q es ≡ none
            → ⊥)
          → (o : Option UdpProxy) (n : ℕ)
          → Yields n o × LeavesRegular c false (false, false, false) o
          → (o >>= λ q. carry_udp net q es) ≡ none
          → ⊥
      follow rest none n (y, r) q = y
      follow rest (some q) n (y, r) s = rest q n r y s

IsRegular-some :
    (c : ListenerConfig) (p : UdpProxy)
    → LeavesRegular c false (false, false, false) (some p)
    → IsRegular c false (false, false, false) p
unfolding LeavesRegular
IsRegular-some c p r = r

-- How the traffic of a listener ends.
abbrev pub Carried : Bool → Listener → Option Listener → Type 0
Carried unlogged l none = unlogged ≡ true
Carried unlogged l (some l') = IsUnstopped l' × (is_listening l' ≡ is_listening l)

carry-Carried :
    (net : Net) (t : Traffic) (l : Listener) → IsCalm l → Carried (is_unlogged l) l (carry net t l)
unfolding carry
carry-Carried net t (tcp_listener l) x =
    let (m, e, same) =
      close-open (Serve.serve net (l.proxy, []) t.connections).0.limiter
        (serve-closed net t.connections l.proxy [] ∙ x) in
    ((m, e), refl)
carry-Carried net t (udp_listener l) (k, b) =
    by_result (carry_udp net l.proxy t.datagrams) refl
      (carry_udp-IsRegular net l.proxy.config l.proxy t.datagrams k)
  where
    by_result :
        (o : Option UdpProxy)
        → carry_udp net l.proxy t.datagrams ≡ o
        → LeavesRegular l.proxy.config false (false, false, false) o
        → Carried
            (is_unlogged (udp_listener l))
            (udp_listener l)
            (o >>= λ p. some (udp_listener (record l { proxy = p })))
    by_result none e r = elim (Option-cases (udp_logging l.proxy.config)) [
      | inl n ↦ rw (n, is_unlogged) refl
      | inr (x, n) ↦ absurd (carry_udp-some net l.proxy.config x n l.proxy 0 t.datagrams k b e)
    ]
    by_result (some p) e r =
        let (c, a, s, x) = IsRegular-some l.proxy.config p r in
        let (m, q, same) = close-open p.limiter x in (((m, q), s), refl)

-- How the traffic of all listeners ends.
abbrev pub AllCarried : Bool → Option (List (Text × Listener)) → Type 0
AllCarried unlogged none = unlogged ≡ true
AllCarried unlogged (some m) = All (λ (e : Text × Listener). IsUnstopped e.1) m × All IsUp m

-- Whatever comes to listeners that were started, they can be stopped and are listening after it, if
-- no UDP listener without a `udp.logging` section panics.
pub carry_all-AllCarried :
    (net : Net) (t : Text → Traffic) (m : List (Text × Listener))
    → All (λ (e : Text × Listener). IsCalm e.1) m
    → All IsUp m
    → AllCarried (any is_unlogged m) (carry_all net t m)
unfolding carry_all
carry_all-AllCarried net t [] h u = (tt, tt)
carry_all-AllCarried net t ((name, l) ∷ m) h u =
    both (carry net (t name) l) (carry_all net t m) (carry-Carried net (t name) l h.0)
      (carry_all-AllCarried net t m h.1 u.1)
  where
    both :
        (o : Option Listener) (r : Option (List (Text × Listener)))
        → Carried (is_unlogged l) l o
        → AllCarried (any is_unlogged m) r
        → AllCarried
            (is_unlogged l || any is_unlogged m)
            (do l' ← o; m' ← r; some ((name, l') ∷ m'))
    both none r a b = rw a refl
    both (some l') none a b = rw b (ground arith)
    both (some l') (some m') (a, up) (b, ups) = ((a, b), (up ∙ u.0, ups))
