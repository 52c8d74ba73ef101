-- ===== src/Ratelimit/Loops.antt =====
-- internal/ratelimit: the loops of the cleanup goroutines of the three limiters. `none` is a panic.
use packetpony.Base.{
  ℕ, ◌<◌, ◌≡◌, refl, Bool, false, List, ◌∷◌, ◌++◌, Option, some, arith, map, ◌==◌, ◌>>=◌,
}
use packetpony.Base.Text.{Text}
use packetpony.Base.Ticker.{Tick, tick, stop, new_ticker, loop, loop_stop}
use packetpony.Ratelimit.Attempts
use packetpony.Ratelimit.Attempts.{AttemptLimiter, new_attempt_limiter}
use packetpony.Ratelimit.Connections
use packetpony.Ratelimit.Connections.{ConnectionLimiter, new_connection_limiter}
use packetpony.Ratelimit.Bandwidth
use packetpony.Ratelimit.Bandwidth.{BandwidthLimiter, new_bandwidth_limiter}

unfoldable pub attempt_cleanup_loop : AttemptLimiter → List Tick → Option (AttemptLimiter × Bool)
attempt_cleanup_loop l ticks = do _ ← new_ticker l.window; some (loop Attempts.cleanup l ticks)

unfoldable pub connection_cleanup_loop :
    ConnectionLimiter → List Tick → Option (ConnectionLimiter × Bool)
connection_cleanup_loop l ticks = do
  _ ← new_ticker l.window
  some (loop Connections.cleanup l ticks)

unfoldable pub bandwidth_cleanup_loop :
    BandwidthLimiter → List Tick → Option (BandwidthLimiter × Bool)
bandwidth_cleanup_loop l ticks = do _ ← new_ticker l.window; some (loop Bandwidth.cleanup l ticks)

-- A limiter that the manager makes has a window, so the ticker of its loop starts, and the loop ends
-- when the limiter is closed.
attempt_cleanup_loop-stop :
    (max window : ℕ) (times : List ℕ) (rest : List Tick)
    → 0 < window
    → attempt_cleanup_loop (new_attempt_limiter max window) (map tick times ++ stop ∷ rest)
      ≡ some ((loop Attempts.cleanup (new_attempt_limiter max window) (map tick times)).0, false)
unfolding attempt_cleanup_loop new_ticker new_attempt_limiter
attempt_cleanup_loop-stop max window times rest h =
    let some_interval : (window == 0) ≡ false = ground arith in
    rw some_interval
      (rw (loop_stop Attempts.cleanup (new_attempt_limiter max window) times rest) refl)

connection_cleanup_loop-stop :
    (max window : ℕ) (times : List ℕ) (rest : List Tick)
    → 0 < window
    → connection_cleanup_loop (new_connection_limiter max window) (map tick times ++ stop ∷ rest)
      ≡ some
          ((loop Connections.cleanup (new_connection_limiter max window) (map tick times)).0, false)
unfolding connection_cleanup_loop new_ticker new_connection_limiter
connection_cleanup_loop-stop max window times rest h =
    let some_interval : (window == 0) ≡ false = ground arith in
    rw some_interval
      (rw (loop_stop Connections.cleanup (new_connection_limiter max window) times rest) refl)

bandwidth_cleanup_loop-stop :
    (max window : ℕ) (action : Text) (minimum : ℕ) (times : List ℕ) (rest : List Tick)
    → 0 < window
    → bandwidth_cleanup_loop
        (new_bandwidth_limiter max window action minimum)
        (map tick times ++ stop ∷ rest)
      ≡ some (
        (loop Bandwidth.cleanup
            (new_bandwidth_limiter max window action minimum)
            (map tick times)).0,
        false,
      )
unfolding bandwidth_cleanup_loop new_ticker new_bandwidth_limiter
bandwidth_cleanup_loop-stop max window action minimum times rest h =
    let some_interval : (window == 0) ≡ false = ground arith in
    rw some_interval (
      rw (loop_stop Bandwidth.cleanup (new_bandwidth_limiter max window action minimum) times rest)
        refl)
