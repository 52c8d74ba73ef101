-- ===== src/Ratelimit/Manager/Closing.antt =====
-- internal/ratelimit/limiter.go: which limiters of a manager are closed, and what that says of Close.
use packetpony.Base.{ℕ, ◌≡◌, refl, ap, Bool, true, false, Option, some, none, arith}
use packetpony.Base.Text.{Text}
use packetpony.Ratelimit.Attempts
use packetpony.Ratelimit.Connections
use packetpony.Ratelimit.Bandwidth
use packetpony.Ratelimit.Manager.{
  RateLimitManager, allow_total_connection, release_total_connection, check_attempts,
  check_connections, allow_connection, release_connection, allow_bandwidth, close, close_with,
}
use packetpony.Ratelimit.Manager.Counter.{SameCounter}

abbrev pub is_closed : {L : Type 0} → (L → Bool) → Option L → Bool
is_closed f none = false
is_closed f (some l) = f l

-- Which of the three limiters are closed.
abbrev pub closed_limiters : RateLimitManager → Bool × Bool × Bool
closed_limiters m = (
  is_closed (λ (l : Connections.ConnectionLimiter). l.stopped) m.conn_limiter,
  is_closed (λ (l : Attempts.AttemptLimiter). l.stopped) m.attempt_limiter,
  is_closed (λ (l : Bandwidth.BandwidthLimiter). l.stopped) m.bandwidth_limiter,
)

check_attempts-closed :
    (m : RateLimitManager) (ip : Text) (now : ℕ)
    → closed_limiters (check_attempts m ip now).0 ≡ closed_limiters m
unfolding check_attempts Attempts.record_attempt
check_attempts-closed m ip now = ground arith

check_connections-closed :
    (m : RateLimitManager) (ip : Text) (now : ℕ)
    → closed_limiters (check_connections m ip now).0 ≡ closed_limiters m
unfolding check_connections Connections.allow
check_connections-closed m ip now = ground arith

allow_total-closed :
    (m : RateLimitManager) → closed_limiters (allow_total_connection m).0 ≡ closed_limiters m
unfolding allow_total_connection
allow_total-closed m = ground arith

pub release_total-closed :
    (m : RateLimitManager) → closed_limiters (release_total_connection m) ≡ closed_limiters m
unfolding release_total_connection
release_total-closed m = ground arith

pub release_connection-closed :
    (m : RateLimitManager) (ip : Text)
    → closed_limiters (release_connection m ip) ≡ closed_limiters m
unfolding release_connection Connections.release
release_connection-closed m ip = ground arith

pub allow_bandwidth-closed :
    (m : RateLimitManager) (ip : Text) (bytes now : ℕ)
    → closed_limiters (allow_bandwidth m ip bytes now).0 ≡ closed_limiters m
unfolding allow_bandwidth Bandwidth.allow
allow_bandwidth-closed m ip bytes now = ground arith

pub allow_connection-closed :
    (m : RateLimitManager) (ip : Text) (now : ℕ)
    → closed_limiters (allow_connection m ip now).0 ≡ closed_limiters m
unfolding allow_connection
allow_connection-closed m ip now = ground (
  arith,
  check_attempts-closed m ip now,
  allow_total-closed (check_attempts m ip now).0,
  check_connections-closed (allow_total_connection (check_attempts m ip now).0).0 ip now,
  release_total-closed
      (check_connections (allow_total_connection (check_attempts m ip now).0).0 ip now).0,
)

-- A limiter that may be nil and that is not closed can be closed.
closes :
    {L : Type 0} (f : L → Option L) (stopped : L → Bool) (o : Option L)
    → ((l : L) → stopped l ≡ false → (l' : L) × (f l ≡ some l'))
    → is_closed stopped o ≡ false
    → (o' : Option L) × (close_with f o ≡ some o')
unfolding close_with
closes f stopped none can e = (none, refl)
closes f stopped (some l) can e = let (l', q) = can l e in (some l', rw (q, close_with) refl)

-- `Close` of a manager none of whose limiters is closed does not panic, and leaves its counter alone.
pub close-open :
    (m : RateLimitManager)
    → closed_limiters m ≡ (false, false, false)
    → (m' : RateLimitManager) × (close m ≡ some m') × SameCounter m' m
unfolding close Connections.close Attempts.close Bandwidth.close
close-open m e =
    let (c, p) =
      closes Connections.close (λ l. l.stopped) m.conn_limiter
        (λ l q. (record l { stopped = true }, rw q refl)) (ap (λ x. x.0) e) in
    let (a, q) =
      closes Attempts.close (λ l. l.stopped) m.attempt_limiter
        (λ l q. (record l { stopped = true }, rw q refl)) (ap (λ x. x.1) e) in
    let (b, r) =
      closes Bandwidth.close (λ l. l.stopped) m.bandwidth_limiter
        (λ l q. (record l { stopped = true }, rw q refl)) (ap (λ x. x.2) e) in
    (
      record m { conn_limiter = c; attempt_limiter = a; bandwidth_limiter = b },
      rw (p, close) (rw q (rw r refl)),
      record { total = refl; limit = refl },
    )
