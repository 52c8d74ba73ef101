-- ===== src/Base/Ticker.antt =====
-- The goroutines that call a cleanup at each tick until they are stopped.
use packetpony.Base.Tests.{◌==◌, if◌then◌else◌}
use Prim.Native.Nat.{ℕ}
use mathlib.Core.Path.{◌≡◌, refl}
use mathlib.Core.Bool.{Bool, true, false}
use mathlib.Core.Option.{Option, none, some}
use mathlib.Core.List.{List, [], ◌∷◌, ◌++◌, map}

-- `time.NewTicker`: an interval that is not positive is a panic.
unfoldable pub new_ticker : ℕ → Option ℕ
new_ticker interval = if interval == 0 then none else some interval

-- What the `select` of a cleanup loop takes: a tick, at some time, or the closed channel.
pub data Tick : Type 0 where
  tick : ℕ → Tick
  stop : Tick

-- The loop, of a cleanup; `false` if it has returned.
unfoldable pub loop {ℓ} : {S : Type ℓ} → (S → ℕ → S) → S → List Tick → S × Bool
loop cleanup s [] = (s, true)
loop cleanup s (tick now ∷ ts) = loop cleanup (cleanup s now) ts
loop cleanup s (stop ∷ ts) = (s, false)

-- After a stop nothing is cleaned up any more.
pub loop_stop {ℓ} :
    {S : Type ℓ} (cleanup : S → ℕ → S) (s : S) (times : List ℕ) (rest : List Tick)
    → loop cleanup s (map tick times ++ stop ∷ rest) ≡ ((loop cleanup s (map tick times)).0, false)
unfolding loop
loop_stop cleanup s [] rest = refl
loop_stop cleanup s (now ∷ times) rest = loop_stop cleanup (cleanup s now) times rest
