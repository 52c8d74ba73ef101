-- ===== src/Ratelimit/Manager.antt =====
-- internal/ratelimit/limiter.go: the limiters of a listener and its counter of all connections. A
-- call is one step; `Ratelimit/Manager/Interleaving` splits those on the counter.
pub mod Closing
pub mod Counter
pub mod Interleaving
pub mod Fresh
pub mod Places
use packetpony.Base.{
  ℕ, Bool, true, false, ◌&&◌, Option, some, none, not, ◌==◌, if◌then◌else◌, ite, [], ◌>>=◌,
}
use packetpony.Base.Int.{ℤ, pos, negsuc, ◌+ℤ◌, ◌-ℤ◌, ltb_ℤ, pos_part}
use packetpony.Base.Text.{Text, Text-discrete}
use packetpony.Config.{RateLimitConfig}
use packetpony.Ratelimit.Attempts.{AttemptLimiter, new_attempt_limiter, record_attempt}
use packetpony.Ratelimit.Attempts
use packetpony.Ratelimit.Connections.{ConnectionLimiter, new_connection_limiter}
use packetpony.Ratelimit.Connections
use packetpony.Ratelimit.Bandwidth.{BandwidthLimiter, new_bandwidth_limiter, drop}
use packetpony.Ratelimit.Bandwidth

pub record RateLimitManager : Type 0 where
  pub conn_limiter : Option ConnectionLimiter
  pub attempt_limiter : Option AttemptLimiter
  pub bandwidth_limiter : Option BandwidthLimiter
  pub total_conns : ℤ
  pub max_total_conns : ℤ
  pub action : Text

abbrev pub is_positive : ℤ → Bool
is_positive z = ltb_ℤ (pos 0) z

abbrev pub is_zero : ℤ → Bool
is_zero (pos n) = n == 0
is_zero (negsuc n) = false

abbrev pub or_drop : Text → Text
or_drop action = ite (Text-discrete action []) drop action

-- The limiters get positive arguments only, so they keep them as natural numbers. The minimum may be
-- negative, and a limiter treats that as 0.
unfoldable pub new_rate_limit_manager : RateLimitConfig → RateLimitManager
new_rate_limit_manager cfg = record {
  conn_limiter =
      if is_positive cfg.max_connections_per_ip && is_positive cfg.connections_window
      then some (
          new_connection_limiter (pos_part cfg.max_connections_per_ip)
            (pos_part cfg.connections_window))
      else none;
  attempt_limiter =
      if is_positive cfg.max_connection_attempts_per_ip && is_positive cfg.attempts_window
      then some (
          new_attempt_limiter (pos_part cfg.max_connection_attempts_per_ip)
            (pos_part cfg.attempts_window))
      else none;
  bandwidth_limiter =
      if is_positive cfg.max_bandwidth_bytes && is_positive cfg.bandwidth_window
      then some (
          new_bandwidth_limiter (pos_part cfg.max_bandwidth_bytes) (pos_part cfg.bandwidth_window)
            (or_drop cfg.action) (pos_part cfg.throttle_minimum_bytes))
      else none;
  total_conns = pos 0;
  max_total_conns = cfg.max_total_connections;
  action = cfg.action;
}

unfoldable pub allow_total_connection : RateLimitManager → RateLimitManager × Bool
allow_total_connection m =
    let current = m.total_conns +ℤ pos 1 in
    if is_zero m.max_total_conns
    then (m, true)
    else (if ltb_ℤ m.max_total_conns current
        then (record m { total_conns = current -ℤ pos 1 }, false)
        else (record m { total_conns = current }, true))

unfoldable pub release_total_connection : RateLimitManager → RateLimitManager
release_total_connection m =
    if is_positive m.max_total_conns then record m { total_conns = m.total_conns -ℤ pos 1 } else m

-- The two optional checks of `AllowConnection`.
unfoldable pub check_attempts : RateLimitManager → Text → ℕ → RateLimitManager × Bool
check_attempts m ip now = elim m.attempt_limiter [
  | none ↦ (m, true)
  | some a ↦
      let (a', allowed) = record_attempt a ip now in
      (record m { attempt_limiter = some a' }, allowed)
]

unfoldable pub check_connections : RateLimitManager → Text → ℕ → RateLimitManager × Bool
check_connections m ip now = elim m.conn_limiter [
  | none ↦ (m, true)
  | some c ↦
      let (c', allowed) = Connections.allow c ip now in
      (record m { conn_limiter = some c' }, allowed)
]

unfoldable pub allow_connection : RateLimitManager → Text → ℕ → RateLimitManager × Bool
allow_connection m ip now =
    let (m₁, attempted) = check_attempts m ip now in
    let (m₂, counted) = allow_total_connection m₁ in
    let (m₃, allowed) = check_connections m₂ ip now in
    if not attempted
    then (m₁, false)
    else (if not counted
        then (m₂, false)
        else (if not allowed then (release_total_connection m₃, false) else (m₃, true)))

unfoldable pub allow_bandwidth : RateLimitManager → Text → ℕ → ℕ → RateLimitManager × Bool
allow_bandwidth m ip bytes now = elim m.bandwidth_limiter [
  | none ↦ (m, true)
  | some b ↦
      let (b', allowed) = Bandwidth.allow b ip bytes now in
      (record m { bandwidth_limiter = some b' }, allowed)
]

unfoldable pub is_bandwidth_over_limit : RateLimitManager → Text → ℕ → ℕ → Bool
is_bandwidth_over_limit m ip bytes now = elim m.bandwidth_limiter [
  | none ↦ false
  | some b ↦ Bandwidth.is_over_limit b ip bytes now
]

unfoldable pub get_action : RateLimitManager → Text
get_action m = or_drop m.action

unfoldable pub release_connection : RateLimitManager → Text → RateLimitManager
release_connection m ip = elim m.conn_limiter [
  | none ↦ m
  | some c ↦ record m { conn_limiter = some (Connections.release c ip) }
]

unfoldable pub get_total_connections : RateLimitManager → ℤ
get_total_connections m = m.total_conns

-- `close` of a limiter that may be nil; `none` is a panic.
close_with : {L : Type 0} → (L → Option L) → Option L → Option (Option L)
close_with f none = some none
close_with f (some l) = elim (f l) [ none ↦ none | some l' ↦ some (some l') ]

unfoldable pub close : RateLimitManager → Option RateLimitManager
unfolding close_with
close m = do
  conn ← close_with Connections.close m.conn_limiter
  attempt ← close_with Attempts.close m.attempt_limiter
  bandwidth ← close_with Bandwidth.close m.bandwidth_limiter
  some (record m { conn_limiter = conn; attempt_limiter = attempt; bandwidth_limiter = bandwidth })
