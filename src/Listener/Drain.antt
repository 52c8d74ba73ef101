-- ===== src/Listener/Drain.antt =====
-- internal/listener/tcp.go: how the loop and the handlers come to an end after `Stop`.
use packetpony.Base.{ℕ, ◌≡◌, ◌≢◌, Bool, true, false, []}
use packetpony.Session.Heap.{is_in}
use packetpony.Listener.Accept.{Running}

-- The context is done and the socket closed.
abbrev pub IsStopped : Running → Type 0
IsStopped r = (r.listener.cancelled ≡ true) × (r.listener.listening ≡ false)

-- The handlers that are left wait for silent targets, and nothing else is left.
abbrev pub IsStuck : (ℕ → Bool) → Running → Type 0
IsStuck silent r =
    (r.looping ≡ false)
    × (r.handlers ≢ [])
    × ((c : ℕ) → is_in c r.handlers ≡ true → silent c ≡ true)
