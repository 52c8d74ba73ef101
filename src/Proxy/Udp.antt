-- ===== src/Proxy/Udp.antt =====
-- internal/proxy/udp_proxy.go. A handler reads the clock once, as its argument `now`. `none` is a
-- panic: the dereference of a nil `UDP` or `UDP.Logging`. What the sockets do is an argument.
pub mod Balance
pub mod Forward
pub mod Admit
pub mod Invariant
pub mod Respond
pub mod Readers
pub mod Leaks
pub mod Steady
pub mod Sweep
pub mod History
use packetpony.Base.{
  ℕ, ◌+◌, ◌-◌, ◌/◌, ◌^◌, ◌>>=◌, Bool, true, false, List, [], ◌∷◌, ◌++◌, Option, some, none, not,
  ◌&&◌, ◌||◌, ltb, leb, ◌==◌, if◌then◌else◌, get_elem?, get_or, keep,
}
use packetpony.Base.Int.{ℤ, pos, pos_part, ltb_ℤ, signed}
use packetpony.Base.Text.{Text, text}
use packetpony.Config.{ListenerConfig, UdpConfig, UdpLoggingConfig}
use packetpony.Net.{Net, Addr}
use packetpony.Acl.{Allowlist, is_allowed}
use packetpony.Logging.{ConnectionEvent}
use packetpony.Ratelimit.Manager
use packetpony.Ratelimit.Manager.{RateLimitManager}
use packetpony.Session
use packetpony.Session.{Session, Store, Dial, found, created, failed}
use packetpony.Proxy.{
  Effect, Status, Reason, Failure, Direction, Message, accepted, acl_denied, rate_limited,
  connection_limit, bandwidth_limit, session_create, target_write, target_read, client_write, sent,
  received, denied_by_rate_limit, failed_with, log_info, log_error, log_connection,
  connections_total, connections_active_inc, connections_active_dec, rate_limit_drop, acl_drop,
  error_total, bytes_transferred, packets_transferred, connection_duration, bandwidth_logs,
  milliseconds, parse_port, target_of,
}

-- The proxy with its limiter, its sessions, the trace of its effects, and the handles of the
-- sessions for which `startSessionReader` runs.
pub record UdpProxy : Type 0 where
  pub config : ListenerConfig
  pub limiter : RateLimitManager
  pub allowlist : Allowlist
  pub store : Store
  pub trace : List Effect
  pub readers : List ℕ

abbrev pub emit : List Effect → UdpProxy → UdpProxy
emit es p = record p { trace = p.trace ++ es }

-- `p.config.UDP.Logging`.
abbrev pub udp_logging : ListenerConfig → Option UdpLoggingConfig
udp_logging c = do u ← c.udp; u.logging

-- `n < limit` of `int64` values, for a limit above 0.
abbrev pub falls_short : ℕ → ℕ → Bool
falls_short n limit = ltb n limit || leb (2 ^ 63) n

-- Whether `cleanupSession` logs the close of a session.
abbrev pub should_log_close : UdpLoggingConfig → Session → ℕ → Bool
should_log_close l s now =
    l.log_session_close
    && not (
        ltb_ℤ (pos 0) l.min_log_bytes_value
        && falls_short (Session.total_bytes s) (pos_part l.min_log_bytes_value))
    && not
        (ltb_ℤ (pos 0) l.min_log_duration && ltb (now - s.created_at) (pos_part l.min_log_duration))

-- What the write of a packet to the target gives.
pub data Write : Type 0 where
  wrote : ℕ → Write
  write_error : Write

-- What a read from the target gives, and the write to the client that follows it.
pub data Read : Type 0 where
  read_timeout read_error : Read
  read_bytes : ℕ → Bool → Read

module _ (net : Net) where
  -- The event that a session opens.
  abbrev pub open_event : ListenerConfig → Addr → ℕ → ConnectionEvent
  open_event c src now =
      let (host, port) = target_of net c.target_address in
      record {
        timestamp = now;
        listener_name = c.name;
        protocol = text "udp";
        source_ip = net.string src.ip;
        source_port = src.port;
        target_ip = host;
        target_port = parse_port net port;
        event_type = text "open";
        bytes_sent = pos 0;
        bytes_received = pos 0;
        packets_sent = pos 0;
        packets_received = pos 0;
        duration = 0;
        error = [];
      }

  -- The events `update` and `close` of a session.
  abbrev pub stats_event : ListenerConfig → Session → Text → ℕ → ConnectionEvent
  stats_event c s event_type now = record (open_event c s.source_addr now) {
    event_type = event_type;
    bytes_sent = signed s.bytes_sent;
    bytes_received = signed s.bytes_received;
    packets_sent = signed s.packets_sent;
    packets_received = signed s.packets_received;
    duration = milliseconds (now - s.created_at);
  }

  -- `cleanupSession`, of a handle: the map is asked for the session's key.
  unfoldable pub cleanup_session : UdpProxy → ℕ → ℕ → Option UdpProxy
  cleanup_session p h now = do
    s ← get_elem? p.store.heap h
    let (store, removed) = Session.remove p.store s.id
    let closed = Session.on_session Session.close_conn store h
    let released =
        Manager.release_total_connection
          (Manager.release_connection p.limiter (net.string s.source_addr.ip))
    elim removed [
      | none ↦ some p
      | some _ ↦ do
        l ← udp_logging p.config
        some (
            emit
              ((if should_log_close l s now
                  then log_connection (stats_event p.config s (text "close") now) ∷ []
                  else [])
                ++ connections_active_dec ∷ connection_duration (now - s.created_at) ∷ [])
              (record p { store = closed; limiter = released }))
    ]

  -- The end of `HandlePacket`, from the bandwidth check on.
  unfoldable pub forward : UdpProxy → ℕ → Text → ℕ → ℕ → Write → Option UdpProxy
  forward p h client_ip len now write =
      let (limiter, allowed) = Manager.allow_bandwidth p.limiter client_ip len now in
      let over = Manager.is_bandwidth_over_limit limiter client_ip len now in
      let checked =
        emit (bandwidth_logs over (Manager.get_action limiter) allowed)
          (record p { limiter = limiter }) in
      if not allowed
      then some (emit (rate_limit_drop bandwidth_limit ∷ []) checked)
      else (elim write [
        | write_error ↦
            cleanup_session
              (emit (log_error (failed_with target_write) ∷ error_total target_write ∷ []) checked)
              h now
        | wrote n ↦ some (
            emit (bytes_transferred sent n ∷ packets_transferred sent ∷ []) (record checked {
              store = Session.add_packets_sent 1 (Session.add_bytes_sent n checked.store h) h;
            }))
      ])

  -- The part of `HandlePacket` for a new session.
  unfoldable pub admit : UdpProxy → ℕ → Addr → ℕ → ℕ → Write → Option UdpProxy
  admit p h src len now write =
      let client_ip = net.string src.ip in
      let (limiter, allowed) = Manager.allow_connection p.limiter client_ip now in
      let counted = record p { limiter = limiter } in
      if not allowed
      then some (
          emit
            (log_info denied_by_rate_limit
              ∷ rate_limit_drop connection_limit
              ∷ connections_total rate_limited
              ∷ [])
            (record counted { store = (Session.remove counted.store (net.addr_string src)).0 }))
      else (do
        l ← udp_logging p.config
        forward
            (emit
              ((if l.log_session_start
                  then log_connection (open_event p.config src now) ∷ []
                  else [])
                ++ connections_total accepted ∷ connections_active_inc ∷ [])
              (record counted { readers = h ∷ counted.readers }))
            h client_ip len now write)

  unfoldable pub handle_packet : UdpProxy → ℕ → Addr → ℕ → Dial → Write → Option UdpProxy
  handle_packet p len src now dial write =
      let (store, obtained) = Session.get_or_create p.store (net.addr_string src) src dial now in
      let q = record p { store = store } in
      if not (is_allowed p.allowlist src.ip)
      then some (emit (acl_drop ∷ connections_total acl_denied ∷ []) p)
      else (elim obtained [
        | failed ↦
            some (emit (log_error (failed_with session_create) ∷ error_total session_create ∷ []) q)
        | found h ↦ forward q h (net.string src.ip) len now write
        | created h ↦ admit q h src len now write
      ])

  -- The part of a round of `startSessionReader` for a packet of `n` bytes; `true` if the loop goes on.
  unfoldable pub respond : UdpProxy → ℕ → Session → ℕ → Bool → ℕ → Option (UdpProxy × Bool)
  respond p h s n written now =
      let client_ip = net.string s.source_addr.ip in
      let (limiter, allowed) = Manager.allow_bandwidth p.limiter client_ip n now in
      let over = Manager.is_bandwidth_over_limit limiter client_ip n now in
      let checked =
        emit (bandwidth_logs over (Manager.get_action limiter) allowed)
          (record p { limiter = limiter }) in
      let counted =
        emit (bytes_transferred received n ∷ packets_transferred received ∷ []) (record checked {
          store =
              Session.update_activity now
                (Session.add_packets_received 1 (Session.add_bytes_received n checked.store h) h) h;
        }) in
      if not allowed
      then some (emit (rate_limit_drop bandwidth_limit ∷ []) checked, false)
      else (if not written
          then some (
            emit (log_error (failed_with client_write) ∷ error_total client_write ∷ []) checked,
            false,
          )
          else (do
            l ← udp_logging p.config
            s' ← get_elem? counted.store.heap h
            some (
                if Session.should_log_periodic s' now l.periodic_log_interval
                  l.periodic_log_bytes_value
                then (
                  record (emit (log_connection (stats_event p.config s' (text "update") now) ∷ [])
                      counted) { store = Session.update_periodic_log now counted.store h },
                  true,
                )
                else (counted, true))))

  -- A round of the loop of `startSessionReader`.
  unfoldable pub reader_round : UdpProxy → ℕ → Read → ℕ → Option (UdpProxy × Bool)
  reader_round p h outcome now = do
    s ← get_elem? p.store.heap h
    elim s.cancelled [
      | true ↦ some (p, false)
      | false ↦ elim outcome [
        | read_timeout ↦ some (p, false)
        | read_error ↦
            some
              (emit (log_error (failed_with target_read) ∷ error_total target_read ∷ []) p, false)
        | read_bytes n written ↦ if n == 0 then some (p, true) else respond p h s n written now
      ]
    ]

  -- A round, and the deferred `cleanupSession` where the loop ends with it.
  unfoldable pub reader_step : UdpProxy → ℕ → Read → ℕ → Option UdpProxy
  reader_step p h outcome now = do
    (q, goes_on) ← reader_round p h outcome now
    elim goes_on [
      | true ↦ some q
      | false ↦ cleanup_session (record q { readers = keep (λ r. not (r == h)) q.readers }) h now
    ]
