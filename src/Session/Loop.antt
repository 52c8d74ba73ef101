-- ===== src/Session/Loop.antt =====
-- internal/session/udp_session.go: the loop of the cleanup goroutine. `none` is a panic.
use packetpony.Base.{
  ℕ, ◌/◌, ◌≤◌, ◌≡◌, refl, Bool, false, List, ◌∷◌, ◌++◌, Option, some, arith, map, ◌==◌, ◌>>=◌,
}
use packetpony.Base.Ticker.{Tick, tick, stop, new_ticker, loop, loop_stop}
use packetpony.Session.{Store, cleanup}

-- `cleanupLoop`.
unfoldable pub cleanup_loop : Store → List Tick → Option (Store × Bool)
cleanup_loop st ticks = do _ ← new_ticker (st.timeout / 2); some (loop cleanup st ticks)

-- With a timeout of two nanoseconds or more the loop runs, and it ends when the manager is closed.
pub cleanup_loop-stop :
    (st : Store) (times : List ℕ) (rest : List Tick)
    → 2 ≤ st.timeout
    → cleanup_loop st (map tick times ++ stop ∷ rest)
      ≡ some ((loop cleanup st (map tick times)).0, false)
unfolding cleanup_loop new_ticker
cleanup_loop-stop st times rest h =
    let some_interval : (st.timeout / 2 == 0) ≡ false = ground arith in
    rw some_interval (rw (loop_stop cleanup st times rest) refl)
