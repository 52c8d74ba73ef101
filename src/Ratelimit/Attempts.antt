-- ===== src/Ratelimit/Attempts.antt =====
-- internal/ratelimit/attempt_limiter.go. The time of a call is its argument `now`; an entry of the
-- map is the slice of its timestamps. A call is one step: it holds the locks that it takes.
pub mod Refinement
use packetpony.Base.{
  ℕ, ◌*◌, Bool, true, false, List, [], ◌∷◌, ◌++◌, Option, some, none, get_or, leb, if◌then◌else◌,
  last?, length,
}
use packetpony.Base.Text.{Text, Text-discrete}
use packetpony.Base.Map.{lookup, insert, delete_where}
use packetpony.Ratelimit.Ledger.{entry}
use packetpony.Ratelimit.Window.{live, is_stale}

pub record AttemptLimiter : Type 0 where
  pub max_per_ip : ℕ
  pub window : ℕ
  pub attempts : List (Text × List ℕ)
  pub stopped : Bool  -- `stopCleanup` is closed

unfoldable pub new_attempt_limiter : ℕ → ℕ → AttemptLimiter
new_attempt_limiter max_per_ip window = record {
  max_per_ip = max_per_ip;
  window = window;
  attempts = [];
  stopped = false;
}

unfoldable pub record_attempt : AttemptLimiter → Text → ℕ → AttemptLimiter × Bool
record_attempt l ip now =
    let valid_timestamps = live {A = ℕ} (λ t. t) l.window now (entry l.attempts ip) in
    let recorded = record l {
      attempts = insert Text-discrete ip (valid_timestamps ++ now ∷ []) l.attempts;
    } in
    if leb l.max_per_ip (length valid_timestamps) then (recorded, false) else (recorded, true)

unfoldable pub cleanup : AttemptLimiter → ℕ → AttemptLimiter
cleanup l now = record l {
  attempts = delete_where Text-discrete (is_stale {A = ℕ} (λ t. t) l.window now) l.attempts;
}

-- `none` is the panic of a second `close` of the channel.
unfoldable pub close : AttemptLimiter → Option AttemptLimiter
close l = if l.stopped then none else some (record l { stopped = true })
