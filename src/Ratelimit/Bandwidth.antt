-- ===== src/Ratelimit/Bandwidth.antt =====
-- internal/ratelimit/bandwidth_limiter.go. The time of a call is its argument `now`; an entry of the
-- map is the slice of a bucket. A call is one step: it holds the locks that it takes.
pub mod Refinement
pub mod Limits
pub mod Throttle
use packetpony.Base.{
  ℕ, ◌+◌, ◌%◌, ◌^◌, Bool, true, false, ◌&&◌, List, [], ◌∷◌, ◌++◌, Option, some, none, leb, ltb,
  ◌==◌, if◌then◌else◌, ite,
}
use packetpony.Base.Text.{Text, Text-discrete, text}
use packetpony.Base.Map.{lookup, insert, delete_where}
use packetpony.Ratelimit.Ledger.{entry}
use packetpony.Ratelimit.Window.{live, is_stale}

pub record ConsumptionEntry : Type 0 where
  pub bytes : ℕ
  pub timestamp : ℕ

pub record BandwidthLimiter : Type 0 where
  pub max_per_ip : ℕ
  pub throttle_minimum : ℕ
  pub window : ℕ
  pub buckets : List (Text × List ConsumptionEntry)
  pub stopped : Bool  -- `stopCleanup` is closed
  pub action : Text

abbrev pub drop : Text
drop = text "drop"

abbrev pub throttle : Text
throttle = text "throttle"

abbrev pub log_only : Text
log_only = text "log_only"

unfoldable pub new_bandwidth_limiter : ℕ → ℕ → Text → ℕ → BandwidthLimiter
new_bandwidth_limiter max_per_ip window action throttle_minimum = record {
  max_per_ip = max_per_ip;
  throttle_minimum = throttle_minimum;
  window = window;
  buckets = [];
  stopped = false;
  action = ite (Text-discrete action []) drop action;
}

-- The entries of a bucket that the window still holds.
abbrev pub valid_entries : BandwidthLimiter → Text → ℕ → List ConsumptionEntry
valid_entries l ip now =
    live {A = ConsumptionEntry} (λ e. e.timestamp) l.window now (entry l.buckets ip)

-- The sum that the loops add up in `currentUsage`, before it wraps.
abbrev pub usage : List ConsumptionEntry → ℕ
usage [] = 0
usage (e ∷ es) = e.bytes + usage es

-- `n > max` on `int64`: the sum wraps at 2^64, and is negative from 2^63 on.
abbrev pub exceeds : ℕ → ℕ → Bool
exceeds max n = ltb max (n % 2 ^ 64) && ltb (n % 2 ^ 64) (2 ^ 63)

unfoldable pub allow : BandwidthLimiter → Text → ℕ → ℕ → BandwidthLimiter × Bool
allow l ip bytes now =
    let valid = valid_entries l ip now in
    let consumed : ConsumptionEntry = record { bytes = bytes; timestamp = now } in
    let pruned = record l { buckets = insert Text-discrete ip valid l.buckets } in
    let recorded = record l {
      buckets = insert Text-discrete ip (valid ++ consumed ∷ []) l.buckets;
    } in
    if bytes == 0
    then (l, true)
    else (if exceeds l.max_per_ip (usage valid + bytes)
        then (ite (Text-discrete l.action log_only) (recorded, true)
            (ite (Text-discrete l.action throttle)
              (if ltb 0 l.throttle_minimum && leb bytes l.throttle_minimum
                then (recorded, true)
                else (pruned, false))
              (pruned, false)))
        else (recorded, true))

unfoldable pub is_over_limit : BandwidthLimiter → Text → ℕ → ℕ → Bool
is_over_limit l ip bytes now =
    if bytes == 0 then false else (elim (lookup Text-discrete ip l.buckets) [
      | none ↦ false
      | some bucket ↦
          exceeds l.max_per_ip
            (usage (live {A = ConsumptionEntry} (λ e. e.timestamp) l.window now bucket) + bytes)
    ])

unfoldable pub cleanup : BandwidthLimiter → ℕ → BandwidthLimiter
cleanup l now = record l {
  buckets =
      delete_where Text-discrete (is_stale {A = ConsumptionEntry} (λ e. e.timestamp) l.window now)
        l.buckets;
}

-- `none` is the panic of a second `close` of the channel.
unfoldable pub close : BandwidthLimiter → Option BandwidthLimiter
close l = if l.stopped then none else some (record l { stopped = true })
