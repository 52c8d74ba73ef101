-- ===== src/Listener/Made.antt =====
-- What `NewManager` makes of a configuration that passed the checks.
use packetpony.Base.{
  All-map, ◌+◌, ◌≡◌, refl, ◌⊎◌, inl, inr, false, List, [], ◌∷◌, some, none, ite, arith, length, map,
  All,
}
use packetpony.Base.Text.{Text, Text-discrete, text, to_lower}
use packetpony.Base.Map.{lookup, insert, lookup-insert, length-insert_new}
use packetpony.Net.{Net}
use packetpony.Acl.{Allowlist, ok, new_allowlist}
use packetpony.Ratelimit.Manager.{new_rate_limit_manager}
use packetpony.Ratelimit.Manager.Places.{Holds}
use packetpony.Session.{new_session_manager}
use packetpony.Session.Live.{new_session_manager-AllLive}
use packetpony.Config.{Config, ListenerConfig}
use packetpony.Config.Validate.{fails, has, validate, validate_listener, validate_protocol}
use packetpony.Config.Accepted.{
  AreUnique, new_allowlist-validate_entries, new_rate_limit_manager-Holds, validate_listener-none,
  validate_listener-protocol, validate-listeners,
}
use packetpony.Proxy.Tcp.Books
use packetpony.Proxy.Udp.Balance
use packetpony.Ratelimit.Manager.Closing.{closed_limiters}
use packetpony.Ratelimit.Manager.Fresh.{close-new_rate_limit_manager, closed-new_rate_limit_manager}
use packetpony.Listener.Lifecycle.{Bind, start_all}
use packetpony.Listener.Stopped.{IsUnstopped, Started, start_all-Started}
use packetpony.Listener.{
  Listener, tcp_listener, udp_listener, tcp_proxy_of, udp_proxy_of, session_timeout_of,
  new_tcp_listener, new_udp_listener, new_listener, add_listeners, new_manager,
}

-- A listener whose proxy has its books in order, with no connection, and that was not stopped.
abbrev pub IsReady : Listener → Type 0
IsReady (tcp_listener l) =
    Books.Balanced l.proxy 0
    × IsUnstopped (tcp_listener l)
    × (closed_limiters l.proxy.limiter ≡ (false, false, false))
IsReady (udp_listener l) =
    Balance.Balanced 0 l.proxy
    × IsUnstopped (udp_listener l)
    × (closed_limiters l.proxy.limiter ≡ (false, false, false))
    × (l.proxy.readers ≡ [])

pub tcp_proxy_of-Balanced :
    (cfg : ListenerConfig) (a : Allowlist)
    → Holds (new_rate_limit_manager cfg.rate_limits) 0
    → Books.Balanced (tcp_proxy_of cfg a) 0
tcp_proxy_of-Balanced cfg a h = record { places = h; gauge = refl }

pub udp_proxy_of-Balanced :
    (cfg : ListenerConfig) (a : Allowlist)
    → Holds (new_rate_limit_manager cfg.rate_limits) 0
    → Balance.Balanced 0 (udp_proxy_of cfg a)
unfolding new_session_manager
udp_proxy_of-Balanced cfg a h = record {
  distinct = tt;
  live = new_session_manager-AllLive (session_timeout_of cfg.udp);
  places = h;
  gauge = refl;
}

protocols :
    (p : Text) → validate_protocol p ≡ none → (to_lower p ≡ text "tcp") ⊎ (to_lower p ≡ text "udp")
unfolding validate_protocol fails
protocols p e = elim (Text-discrete (to_lower p) (text "tcp")) [
  | yes t ↦ inl t
  | no t ↦ elim (Text-discrete (to_lower p) (text "udp")) [
    | yes u ↦ inr u
    | no u ↦ absurd (ground arith)
  ]
]

tcp_ready :
    (net : Net) (cfg : ListenerConfig) (a : Allowlist)
    → new_allowlist net cfg.allowlist ≡ ok a
    → to_lower cfg.protocol ≡ text "tcp"
    → new_listener net cfg
      ≡ some (
          tcp_listener (record {
            proxy = tcp_proxy_of cfg a;
            listening = false;
            cancelled = false;
            active_conns = [];
          }))
unfolding new_listener new_tcp_listener
tcp_ready net cfg a e t = ground arith

udp_ready :
    (net : Net) (cfg : ListenerConfig) (a : Allowlist)
    → new_allowlist net cfg.allowlist ≡ ok a
    → to_lower cfg.protocol ≡ text "udp"
    → new_listener net cfg
      ≡ some (
          udp_listener
            (record { proxy = udp_proxy_of cfg a; listening = false; cancelled = false }))
unfolding new_listener new_udp_listener Text-discrete
udp_ready net cfg a e t = rw (t, new_listener) (rw (e, new_udp_listener) refl)

new_listener-IsReady :
    (net : Net) (cfg : ListenerConfig)
    → validate_listener net cfg ≡ none
    → (l : Listener) × (new_listener net cfg ≡ some l) × IsReady l
unfolding new_session_manager
new_listener-IsReady net cfg v =
    let (es, rs) = validate_listener-none net cfg v in
    let (a, e) = new_allowlist-validate_entries net cfg.allowlist es in
    let holds = new_rate_limit_manager-Holds cfg.rate_limits rs in
    elim (protocols cfg.protocol (validate_listener-protocol net cfg v)) [
      | inl t ↦ (
        _,
        tcp_ready net cfg a e t,
        (
          tcp_proxy_of-Balanced cfg a holds,
          close-new_rate_limit_manager cfg.rate_limits,
          closed-new_rate_limit_manager cfg.rate_limits,
        ),
      )
      | inr u ↦ (
        _,
        udp_ready net cfg a e u,
        (
          udp_proxy_of-Balanced cfg a holds,
          (close-new_rate_limit_manager cfg.rate_limits, refl),
          closed-new_rate_limit_manager cfg.rate_limits,
          refl,
        ),
      )
    ]

-- All values of a map are ready.
abbrev pub AllReady : List (Text × Listener) → Type 0
AllReady = All (λ e. IsReady e.1)

AllReady-insert :
    (k : Text) (l : Listener) (m : List (Text × Listener))
    → IsReady l
    → AllReady m
    → AllReady (insert Text-discrete k l m)
unfolding insert
AllReady-insert k l [] h hs = (h, tt)
AllReady-insert k l ((j, x) ∷ m) h hs =
    ite_elim (Text-discrete j k) ((k, l) ∷ m) ((j, x) ∷ insert Text-discrete k l m) (h, hs.1)
      (hs.0, AllReady-insert k l m h hs.1)
  where
    ite_elim :
        {B : Type 0} (d : Dec B) (a b : List (Text × Listener))
        → AllReady a
        → AllReady b
        → AllReady (ite d a b)
    ite_elim (yes p) a b x y = x
    ite_elim (no p) a b x y = y

-- The names of the listeners that are still to come are not in the map.
IsAbsent : (m : List (Text × Listener)) (cfg : ListenerConfig) → Type 0
IsAbsent m cfg = lookup Text-discrete cfg.name m ≡ none

IsAbsent-insert :
    (name : Text) (l : Listener) (m : List (Text × Listener)) (cfgs : List ListenerConfig)
    → has name (map (λ (c : ListenerConfig). c.name) cfgs) ≡ false
    → All (IsAbsent m) cfgs
    → All (IsAbsent (insert Text-discrete name l m)) cfgs
unfolding IsAbsent
IsAbsent-insert name l m [] h hs = tt
IsAbsent-insert name l m (c ∷ cs) h hs = (
  ground (arith, lookup-insert Text-discrete name c.name l m, h, hs.0),
  IsAbsent-insert name l m cs (ground (arith, h)) hs.1,
)

added :
    (net : Net) (m : List (Text × Listener)) (cfgs : List ListenerConfig)
    → All (λ c. validate_listener net c ≡ none) cfgs
    → AreUnique (map (λ (c : ListenerConfig). c.name) cfgs)
    → All (IsAbsent m) cfgs
    → AllReady m
    → (m' : List (Text × Listener)) × (add_listeners net m cfgs ≡ some m')
      × (length m' ≡ length m + length cfgs)
      × AllReady m'
unfolding add_listeners IsAbsent
added net m [] v u a r = (m, refl, omega arith, r)
added net m (c ∷ cs) v u a r =
    let (l, e, ready) = new_listener-IsReady net c v.0 in
    let (m', e', n, r') =
      added net (insert Text-discrete c.name l m) cs v.1 u.1 (IsAbsent-insert c.name l m cs u.0 a.1)
        (AllReady-insert c.name l m ready r) in
    (
      m',
      rw (e, add_listeners) e',
      omega (arith, n, length-insert_new Text-discrete c.name l m a.0),
      r',
    )

pub AllReady-IsUnstopped :
    (m : List (Text × Listener)) → AllReady m → All (λ (e : Text × Listener). IsUnstopped e.1) m
AllReady-IsUnstopped m r = All-map _ _ (λ e h. is_unstopped e.1 h) m r
  where
    is_unstopped : (l : Listener) → IsReady l → IsUnstopped l
    is_unstopped (tcp_listener l) h = h.1
    is_unstopped (udp_listener l) h = h.1

-- For a configuration that `Validate` accepts `NewManager` does not fail and makes one listener for
-- each entry, each not stopped and with a proxy whose counter, gauge and map agree; and `Start` leaves
-- all of them listening or, if an address cannot be bound, all of them stopped.
pub new_manager-validate :
    (net : Net) (c : Config)
    → validate net c ≡ none
    → (m : List (Text × Listener)) × (new_manager net c ≡ some m)
      × (length m ≡ length c.listeners)
      × AllReady m
      × ((outcome : Text → Bind) → Started (start_all outcome m))
unfolding new_manager IsAbsent lookup
new_manager-validate net c v =
    let (valid, names) = validate-listeners net c v in
    let (m, e, n, r) = added net [] c.listeners valid names (none_yet c.listeners) tt in
    (m, e, omega (arith, n), r, λ outcome. start_all-Started outcome m (AllReady-IsUnstopped m r))
  where
    none_yet : (cfgs : List ListenerConfig) → All (IsAbsent []) cfgs
    none_yet [] = tt
    none_yet (c ∷ cs) = (refl, none_yet cs)
