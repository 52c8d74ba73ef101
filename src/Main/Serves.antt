-- ===== src/Main/Serves.antt =====
-- cmd/packetpony/main.go: a machine on which nothing is in the way.
use packetpony.Base.{ℕ, ◌≡◌, ◌≢◌, Option, ◌⊎◌, List, some, none, length, All}
use packetpony.Base.Text.{Text}
use packetpony.Config.{Config}
use packetpony.Logging.Multi.{Backend}
use packetpony.Listener.{Listener}
use packetpony.Listener.Stopped.{IsDown, IsUp}
use packetpony.Net.{Net}
use packetpony.Listener.Traffic.{Traffic}
use packetpony.Main.{Machine, Act, Outcome, returned, waits, shut_down}

module _ {R : Type 0} (m : Machine R) where
  -- What a machine without a fault comes to: `n` listeners are served until a signal comes.
  unfoldable pub ServesUntilSignal : ℕ → Outcome → Type 0
  ServesUntilSignal n o =
      (length o.listeners ≡ n)
      × (((m.signal ≡ none) × (o.end ≡ waits) × All IsUp o.listeners)
          ⊎ ((m.signal ≢ none) × (o.end ≡ returned) × All IsDown o.listeners))

  after : List Backend → List Act → List (Text × Listener) → Option Text → Outcome
  after logger acts ls none = record { end = waits; acts = acts; listeners = ls }
  after logger acts ls (some sig) = shut_down m logger acts ls sig
