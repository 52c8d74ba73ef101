-- ===== src/Ratelimit/Connections.antt =====
-- internal/ratelimit/connection_limiter.go. The time of a call is its argument `now`. A call is one
-- step: it holds the locks that it takes.
pub mod Refinement
use packetpony.Base.{
  ℕ, ◌+◌, ◌-◌, ◌*◌, Bool, true, false, ◌&&◌, List, [], ◌∷◌, ◌++◌, Option, some, none, get_or, leb,
  ltb, ◌==◌, if◌then◌else◌, last?, length, tail,
}
use packetpony.Base.Text.{Text, Text-discrete}
use packetpony.Base.Map.{lookup, insert, delete_where}
use packetpony.Ratelimit.Window.{live, is_before_cutoff}

pub record ConnEntry : Type 0 where
  pub count : ℕ
  pub timestamps : List ℕ

pub record ConnectionLimiter : Type 0 where
  pub max_per_ip : ℕ
  pub window : ℕ
  pub connections : List (Text × ConnEntry)
  pub stopped : Bool  -- `stopCleanup` is closed

unfoldable pub new_connection_limiter : ℕ → ℕ → ConnectionLimiter
new_connection_limiter max_per_ip window = record {
  max_per_ip = max_per_ip;
  window = window;
  connections = [];
  stopped = false;
}

-- `&connEntry{}`.
abbrev pub new_entry : ConnEntry
new_entry = record { count = 0; timestamps = [] }

unfoldable pub allow : ConnectionLimiter → Text → ℕ → ConnectionLimiter × Bool
allow l ip now =
    let found = get_or (lookup Text-discrete ip l.connections) new_entry in
    let valid_timestamps = live {A = ℕ} (λ t. t) l.window now found.timestamps in
    let pruned : ConnEntry = record {
      count = length valid_timestamps;
      timestamps = valid_timestamps;
    } in
    let counted : ConnEntry = record {
      count = pruned.count + 1;
      timestamps = valid_timestamps ++ now ∷ [];
    } in
    if leb l.max_per_ip pruned.count
    then (record l { connections = insert Text-discrete ip pruned l.connections }, false)
    else (record l { connections = insert Text-discrete ip counted l.connections }, true)

-- `entry.count--`, and the oldest timestamp goes.
abbrev pub released : ConnEntry → ConnEntry
released e =
    if ltb 0 e.count then record { count = e.count - 1; timestamps = tail e.timestamps } else e

unfoldable pub release : ConnectionLimiter → Text → ConnectionLimiter
release l ip = elim (lookup Text-discrete ip l.connections) [
  | none ↦ l
  | some e ↦ record l { connections = insert Text-discrete ip (released e) l.connections }
]

-- The two tests of `cleanup`, in their order.
abbrev pub is_unused : ℕ → ℕ → ConnEntry → Bool
is_unused window now e =
    if e.count == 0 && ltb 0 (length e.timestamps)
    then elim (last? e.timestamps) [ none ↦ false | some t ↦ is_before_cutoff (window * 2) now t ]
    else e.count == 0 && length e.timestamps == 0

unfoldable pub cleanup : ConnectionLimiter → ℕ → ConnectionLimiter
cleanup l now = record l {
  connections = delete_where Text-discrete (is_unused l.window now) l.connections;
}

-- `none` is the panic of a second `close` of the channel.
unfoldable pub close : ConnectionLimiter → Option ConnectionLimiter
close l = if l.stopped then none else some (record l { stopped = true })
