-- ===== src/Proxy/Tcp.antt =====
-- internal/proxy/tcp_proxy.go. What the sockets do is an argument: the result of the dial, and of each
-- read and write of the copies. The deadlines of the sockets are not modelled, and a step reads the clock
-- once, as its argument `now`.
pub mod Books
pub mod Serve
pub mod Copy
pub mod Rounds
pub mod Closing
use packetpony.Base.{
  ℕ, ◌+◌, ◌-◌, Bool, true, false, List, [], ◌∷◌, ◌++◌, Option, some, none, not, ◌==◌, if◌then◌else◌,
}
use packetpony.Base.Int.{pos, signed}
use packetpony.Base.Text.{Text, text}
use packetpony.Config.{ListenerConfig}
use packetpony.Net.{Net, Addr}
use packetpony.Acl.{Allowlist, is_allowed}
use packetpony.Logging.{ConnectionEvent}
use packetpony.Ratelimit.Manager
use packetpony.Ratelimit.Manager.{RateLimitManager}
use packetpony.Session.{add64}
use packetpony.Proxy.{
  Effect, Direction, accepted, acl_denied, rate_limited, connection_limit, bandwidth_limit,
  invalid_target, target_connect, sent, received, denied_by_acl, denied_by_rate_limit, failed_with,
  log_info, log_error, log_connection, connections_total, connections_active_inc,
  connections_active_dec, rate_limit_drop, acl_drop, error_total, bytes_transferred,
  connection_duration, bandwidth_logs, milliseconds, parse_port, target_of,
}

pub record TcpProxy : Type 0 where
  pub config : ListenerConfig
  pub limiter : RateLimitManager
  pub allowlist : Allowlist
  pub trace : List Effect

abbrev pub emit : List Effect → TcpProxy → TcpProxy
emit es p = record p { trace = p.trace ++ es }

-- An error of a read or a write.
pub data IoError : Type 0 where
  eof : IoError
  other : Text → IoError

-- A round of a copy: what `src.Read` gives, and what `dst.Write` gives for it.
pub record Chunk : Type 0 where
  pub read : ℕ
  pub read_error : Option IoError
  pub wrote : ℕ
  pub write_error : Option IoError

-- Whether the loop goes on, or the error that it returns.
pub data Progress : Type 0 where
  goes_on : Progress
  ended : Option IoError → Progress

abbrev pub after_read : Option IoError → Progress
after_read none = goes_on
after_read (some eof) = ended none
after_read (some (other e)) = ended (some (other e))

abbrev pub after_write : Chunk → Progress
after_write k = elim k.write_error [
  | some e ↦ ended (some e)
  | none ↦
      if k.read == k.wrote
      then after_read k.read_error
      else ended (some (other (text "short write")))
]

-- One round of the loop of `copyWithStats`. `written` and `counter` only grow by what was written.
unfoldable pub copy_round : TcpProxy → Text → ℕ → ℕ → Chunk → ℕ → TcpProxy × ℕ × ℕ × Progress
copy_round p client_ip written counter k now =
    let (limiter, allowed) = Manager.allow_bandwidth p.limiter client_ip k.read now in
    let over = Manager.is_bandwidth_over_limit limiter client_ip k.read now in
    let checked =
      emit (bandwidth_logs over (Manager.get_action limiter) allowed)
        (record p { limiter = limiter }) in
    if k.read == 0
    then (p, written, counter, after_read k.read_error)
    else (if not allowed
        then (
          emit (rate_limit_drop bandwidth_limit ∷ []) checked,
          written,
          counter,
          ended (some (other (text "bandwidth limit exceeded"))),
        )
        else (checked, add64 written k.wrote, add64 counter k.wrote, after_write k))

-- `copyWithStats` over the rounds that its connections give it; it is still in the loop if they end.
unfoldable pub copy_with_stats :
    TcpProxy → Text → ℕ → ℕ → List (Chunk × ℕ) → TcpProxy × ℕ × ℕ × Progress
copy_with_stats p client_ip written counter [] = (p, written, counter, goes_on)
copy_with_stats p client_ip written counter ((k, now) ∷ ks) =
    let (p', written', counter', progress) = copy_round p client_ip written counter k now in
    let rest = copy_with_stats p' client_ip written' counter' ks in
    elim progress [ goes_on ↦ rest | ended e ↦ (p', written', counter', ended e) ]

-- A connection between its admission and its close: `stats`, and of each copy what it has written and
-- whether it runs. `errors` is what was sent to `errChan`.
pub record Connection : Type 0 where
  pub client : Addr
  pub start_time : ℕ
  pub bytes_sent : ℕ
  pub bytes_received : ℕ
  pub written_sent : ℕ
  pub written_received : ℕ
  pub sending : Bool
  pub receiving : Bool
  pub errors : List (Option Text)

abbrev pub direction_name : Direction → Text
direction_name sent = text "client->target: "
direction_name received = text "target->client: "

-- What a goroutine sends to `errChan`.
abbrev pub report : Direction → Option IoError → Option Text
report d none = none
report d (some eof) = none
report d (some (other e)) = some (direction_name d ++ e)

-- The first error of the two.
abbrev pub error_message : List (Option Text) → Text
error_message [] = []
error_message (some e ∷ es) = e
error_message (none ∷ es) = error_message es

-- What a copy does at its end: the error, and then the metric.
abbrev pub end_copy : Direction → Progress → TcpProxy → Connection → TcpProxy × Connection
end_copy d goes_on p c = (p, c)
end_copy sent (ended e) p c = (
  emit (bytes_transferred sent c.written_sent ∷ []) p,
  record c { sending = false; errors = c.errors ++ report sent e ∷ [] },
)
end_copy received (ended e) p c = (
  emit (bytes_transferred received c.written_received ∷ []) p,
  record c { receiving = false; errors = c.errors ++ report received e ∷ [] },
)

module _ (net : Net) where
  -- The events `open` and `close`.
  abbrev pub connection_event : ListenerConfig → Addr → Text → ℕ → ConnectionEvent
  connection_event c client event_type now =
      let (host, port) = target_of net c.target_address in
      record {
        timestamp = now;
        listener_name = c.name;
        protocol = text "tcp";
        source_ip = net.string client.ip;
        source_port = client.port;
        target_ip = host;
        target_port = parse_port net port;
        event_type = event_type;
        bytes_sent = pos 0;
        bytes_received = pos 0;
        packets_sent = pos 0;
        packets_received = pos 0;
        duration = 0;
        error = [];
      }

  -- `logConnectionClose`.
  abbrev pub close_event : ListenerConfig → Connection → Text → ℕ → ConnectionEvent
  close_event c conn message now = record (connection_event c conn.client (text "close") now) {
    bytes_sent = signed conn.bytes_sent;
    bytes_received = signed conn.bytes_received;
    duration = milliseconds (now - conn.start_time);
    error = message;
  }

  -- The deferred calls, last first.
  abbrev pub release : TcpProxy → Addr → TcpProxy
  release p client = emit (connections_active_dec ∷ []) (record p {
    limiter =
        Manager.release_connection (Manager.release_total_connection p.limiter)
          (net.string client.ip);
  })

  -- `HandleConnection` up to the start of the copies: it returns, or two copies run.
  unfoldable pub open_connection : TcpProxy → Addr → Option Text → ℕ → TcpProxy × Option Connection
  open_connection p client dial_error now =
      let (limiter, allowed) = Manager.allow_connection p.limiter (net.string client.ip) now in
      let counted = record p { limiter = limiter } in
      let opened =
        emit
          (log_connection (connection_event p.config client (text "open") now)
            ∷ connections_total accepted
            ∷ connections_active_inc
            ∷ [])
          counted in
      let conn : Connection = record {
        client = client;
        start_time = now;
        bytes_sent = 0;
        bytes_received = 0;
        written_sent = 0;
        written_received = 0;
        sending = true;
        receiving = true;
        errors = [];
      } in
      elim (net.split_host_port p.config.target_address) [
        | none ↦ (
          emit (log_error (failed_with invalid_target) ∷ error_total invalid_target ∷ []) p,
          none,
        )
        | some _ ↦
            if not (is_allowed p.allowlist client.ip)
            then (
              emit (log_info denied_by_acl ∷ acl_drop ∷ connections_total acl_denied ∷ []) p,
              none,
            )
            else (if not allowed
                then (
                  emit
                      (log_info denied_by_rate_limit
                        ∷ rate_limit_drop connection_limit
                        ∷ connections_total rate_limited
                        ∷ [])
                      counted,
                  none,
                )
                else (elim dial_error [
                  | none ↦ (opened, some conn)
                  | some e ↦ (
                    release
                        (emit
                          (log_error (failed_with target_connect)
                            ∷ error_total target_connect
                            ∷ log_connection (close_event p.config conn e now)
                            ∷ [])
                          opened)
                        client,
                    none,
                  )
                ]))
      ]

  -- A round of the copy of one direction; nothing if the copy has ended.
  unfoldable pub relay : TcpProxy → Connection → Direction → Chunk → ℕ → TcpProxy × Connection
  relay p c sent k now =
      let (p', written, counter, progress) =
        copy_round p (net.string c.client.ip) c.written_sent c.bytes_sent k now in
      if c.sending
      then end_copy sent progress p' (record c { written_sent = written; bytes_sent = counter })
      else (p, c)
  relay p c received k now =
      let (p', written, counter, progress) =
        copy_round p (net.string c.client.ip) c.written_received c.bytes_received k now in
      if c.receiving
      then end_copy received progress p'
          (record c { written_received = written; bytes_received = counter })
      else (p, c)

  -- The end of `HandleConnection`, when both copies have ended.
  unfoldable pub finish : TcpProxy → Connection → ℕ → TcpProxy
  finish p c now =
      release
        (emit
          (log_connection (close_event p.config c (error_message c.errors) now)
            ∷ connection_duration (now - c.start_time)
            ∷ [])
          p)
        c.client
