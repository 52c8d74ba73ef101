-- ===== src/Ratelimit/Manager/Fresh.antt =====
-- A new manager can be closed once: none of its limiters was closed before.
use packetpony.Base.{◌≡◌, false, some, arith}
use packetpony.Config.{RateLimitConfig}
use packetpony.Ratelimit.Attempts
use packetpony.Ratelimit.Connections
use packetpony.Ratelimit.Bandwidth
use packetpony.Ratelimit.Manager.{RateLimitManager, new_rate_limit_manager, close}
use packetpony.Ratelimit.Manager.Closing.{closed_limiters, close-open}

pub closed-new_rate_limit_manager :
    (cfg : RateLimitConfig) → closed_limiters (new_rate_limit_manager cfg) ≡ (false, false, false)
unfolding new_rate_limit_manager Attempts.new_attempt_limiter Connections.new_connection_limiter
    Bandwidth.new_bandwidth_limiter
closed-new_rate_limit_manager cfg = ground arith

pub close-new_rate_limit_manager :
    (cfg : RateLimitConfig) → (m : RateLimitManager) × (close (new_rate_limit_manager cfg) ≡ some m)
close-new_rate_limit_manager cfg =
    let (m, e, same) =
      close-open (new_rate_limit_manager cfg) (closed-new_rate_limit_manager cfg) in
    (m, e)
