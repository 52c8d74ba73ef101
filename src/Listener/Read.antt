-- ===== src/Listener/Read.antt =====
-- internal/listener/udp.go, readLoop, beside the readers of the sessions, the sweeps of the
-- session manager and Stop. A round of the loop is two steps, so that others may come in between.
use packetpony.Base.{
  ◌/◌, ℕ, ◌+◌, Bool, true, false, not, ◌&&◌, List, [], ◌∷◌, Option, some, none, ltb, ◌==◌,
  if◌then◌else◌, ◌>>=◌, length,
}
use packetpony.Base.Ticker.{new_ticker}
use packetpony.Base.Int.{pos_part}
use packetpony.Config.{UdpConfig}
use packetpony.Net.{Net, Addr}
use packetpony.Ratelimit.Manager.{is_positive}
use packetpony.Session.{Dial}
use packetpony.Proxy.Udp.{UdpProxy, handle_packet, Write, Read}
use packetpony.Proxy.Udp.History
use packetpony.Proxy.Udp.History.{run_event}
use packetpony.Proxy.Udp.Sweep.{expirations}
use packetpony.Listener.{UdpListener, stop_udp}

-- `bufferSize`.
unfoldable pub buffer_size : Option UdpConfig → ℕ
buffer_size none = 4096
buffer_size (some u) = if is_positive u.buffer_size then pos_part u.buffer_size else 4096

-- A datagram that is longer than the buffer is cut.
abbrev pub cut : ℕ → ℕ → ℕ
cut size n = if ltb size n then size else n

-- A listener at work: whether the loop runs, whether it waits in `ReadFromUDP`, the errors logged, and
-- the number of the sessions that sweeps and `Stop` have ended, which the code does not keep.
pub record Reading : Type 0 where
  pub listener : UdpListener
  pub looping : Bool
  pub reading : Bool
  pub read_errors : ℕ
  pub ended : ℕ

abbrev pub started : UdpListener → Reading
started l = record { listener = l; looping = true; reading = false; read_errors = 0; ended = 0 }

-- What `ReadFromUDP` gives: the length of a datagram and its source, or an error.
pub data Received : Type 0 where
  datagram : ℕ → Addr → Received
  failed : Received

-- The test at the top of the loop.
unfoldable pub begin_read : Reading → Reading
begin_read r =
    if r.listener.cancelled then record r { looping = false } else record r { reading = true }

-- An error of the read: the loop ends if the context is done, and else logs the error and goes on.
unfoldable pub read_error : Reading → Reading
read_error r =
    if r.listener.cancelled
    then record r { looping = false; reading = false }
    else record r { reading = false; read_errors = r.read_errors + 1 }

abbrev pub with_proxy : Reading → UdpProxy → Reading
with_proxy r p = record r { listener = record r.listener { proxy = p }; reading = false }

-- A step of the listener. One that the state does not allow changes nothing.
pub data Event : Type 0 where
  begins : Event
  receives : Received → ℕ → Dial → Write → Event
  reader : ℕ → Read → ℕ → Event
  sweeps : ℕ → Event
  stops : Event

module _ (net : Net) where
  -- The rest of the round.
  unfoldable pub receive : Reading → Received → ℕ → Dial → Write → Option Reading
  receive r failed now dial write = some (read_error r)
  receive r (datagram len src) now dial write =
      let n = cut (buffer_size r.listener.proxy.config.udp) len in
      if n == 0
      then some (record r { reading = false })
      else (do p ← handle_packet net r.listener.proxy n src now dial write; some (with_proxy r p))

  unfoldable pub step : Reading → Event → Option Reading
  step r begins = if r.looping && not r.reading then some (begin_read r) else some r
  step r (receives x now dial write) =
      if r.looping && r.reading then receive r x now dial write else some r
  step r (reader i outcome now) = do
    p ← run_event net r.listener.proxy (History.reader i outcome now)
    some (record r { listener = record r.listener { proxy = p } })
  step r (sweeps now) = do
    p ← run_event net r.listener.proxy (History.swept now)
    some (record r {
      listener = record r.listener { proxy = p };
      ended = r.ended + expirations r.listener.proxy.store now;
    })
  -- The manager calls `Stop` once.
  step r stops = if r.listener.cancelled then some r else (do
    l ← stop_udp r.listener
    some (record r { listener = l; ended = r.ended + length r.listener.proxy.store.sessions }))

  -- `none` is a panic.
  unfoldable pub serve : Reading → List Event → Option Reading
  serve r [] = some r
  serve r (e ∷ es) = step r e >>= λ s. serve s es

  -- The listener with the goroutine `cleanupLoop` that its session manager starts. Where its ticker
  -- panics the process ends, however far the listener has come.
  unfoldable pub run_listener : UdpListener → List Event → Option Reading
  run_listener l es = do _ ← new_ticker (l.proxy.store.timeout / 2); serve (started l) es
