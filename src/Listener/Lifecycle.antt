-- ===== src/Listener/Lifecycle.antt =====
-- internal/listener/manager.go: Start, Stop and GracefulShutdown. The order in which Go ranges over the
-- map is the order of the list. `none` is a panic.
use packetpony.Base.{
  Bool, true, false, List, [], ◌∷◌, Option, some, none, ◌>>=◌, if◌then◌else◌, not, ◌||◌,
}
use packetpony.Base.Text.{Text}
use packetpony.Listener.{
  Listener, tcp_listener, udp_listener, start_tcp, start_udp, stop_tcp, stop_udp,
}

-- What the network says to the address of a listener.
pub data Bind : Type 0 where
  binds unresolved in_use : Bind

abbrev pub resolves : Bind → Bool
resolves unresolved = false
resolves _ = true

abbrev pub listens : Bind → Bool
listens binds = true
listens _ = false

-- `Start` of the interface; `none` is an error.
unfoldable pub start_listener : Listener → Bind → Option Listener
start_listener (tcp_listener l) b = elim (start_tcp l (listens b)) [
  | none ↦ none
  | some l' ↦ some (tcp_listener l')
]
start_listener (udp_listener l) b = elim (start_udp l (resolves b) (listens b)) [
  | none ↦ none
  | some l' ↦ some (udp_listener l')
]

unfoldable pub stop_listener : Listener → Option Listener
stop_listener (tcp_listener l) = elim (stop_tcp l) [
  | none ↦ none
  | some (l', conns) ↦ some (tcp_listener l')
]
stop_listener (udp_listener l) = elim (stop_udp l) [
  | none ↦ none
  | some l' ↦ some (udp_listener l')
]

-- What `m.cancel()` does to a listener, whose context is made of the manager's.
unfoldable pub cancel_listener : Listener → Listener
cancel_listener (tcp_listener l) = tcp_listener (record l { cancelled = true })
cancel_listener (udp_listener l) = udp_listener (record l { cancelled = true })

unfoldable pub cancel_all : List (Text × Listener) → List (Text × Listener)
cancel_all [] = []
cancel_all ((name, l) ∷ m) = (name, cancel_listener l) ∷ cancel_all m

-- The loop of `Manager.Stop`. No `Stop` of a listener returns an error.
unfoldable pub stop_each : List (Text × Listener) → Option (List (Text × Listener))
stop_each [] = some []
stop_each ((name, l) ∷ m) =
    let rest = stop_each m in do l' ← stop_listener l; m' ← rest; some ((name, l') ∷ m')

-- `Manager.Stop` where no listener has anything to wait for.
unfoldable pub stop_all : List (Text × Listener) → Option (List (Text × Listener))
stop_all m = stop_each (cancel_all m)

-- The loop of `Manager.Start`, up to the first listener that fails.
unfoldable pub start_some : (Text → Bind) → List (Text × Listener) → List (Text × Listener) × Bool
start_some net [] = ([], true)
start_some net ((name, l) ∷ m) =
    let (m', started) = start_some net m in
    elim (start_listener l (net name)) [
      | none ↦ ((name, l) ∷ m, false)
      | some l' ↦ ((name, l') ∷ m', started)
    ]

-- `Manager.Start`: `false` is an error.
unfoldable pub start_all :
    (Text → Bind) → List (Text × Listener) → Option (List (Text × Listener) × Bool)
start_all net m =
    let (m', started) = start_some net m in
    if started then some (m', true) else (do m'' ← stop_all m'; some (m'', false))

-- Whether `Stop` of a listener, once it has closed what it closes, comes to the end of its wait. The
-- read loop of a UDP listener ends, since its socket is closed; a handler of a TCP listener may not.
abbrev pub lets_go : (Text → Bool) → Text × Listener → Bool
lets_go drains (name, tcp_listener l) = drains name
lets_go drains (name, udp_listener l) = true

-- Some listener does not let go.
abbrev pub any_blocks : (Text → Bool) → List (Text × Listener) → Bool
any_blocks drains [] = false
any_blocks drains (e ∷ m) = not (lets_go drains e) || any_blocks drains m

-- The same loop with its waits: `false` if it waits for ever, for a listener, and comes to no other.
unfoldable pub stop_in_turn :
    (Text → Bool) → List (Text × Listener) → Option (List (Text × Listener) × Bool)
stop_in_turn drains [] = some ([], true)
stop_in_turn drains ((name, l) ∷ m) =
    let rest = stop_in_turn drains m in
    elim (stop_listener l) [
      | none ↦ none
      | some l' ↦
          if not (lets_go drains (name, l))
          then some ((name, l') ∷ m, false)
          else (elim rest [ none ↦ none | some (m', ended) ↦ some ((name, l') ∷ m', ended) ])
    ]

-- `GracefulShutdown`: after `Stop`, which cancels the context of all listeners first, it waits for a group that nothing is ever added to.
unfoldable pub graceful_shutdown :
    (Text → Bool) → List (Text × Listener) → Option (List (Text × Listener) × Bool)
graceful_shutdown drains m = stop_in_turn drains (cancel_all m)
