-- ===== src/Main/Runs.antt =====
-- cmd/packetpony/main.go: how the program ends, from its configuration to its signal.
use packetpony.Base.{
  ◌≡◌, ◌≢◌, subst, ◌⊎◌, inl, inr, true, List, some, none, arith, Bool-cases, Option-cases, All,
}
use packetpony.Base.Text.{Text}
use packetpony.Config.{Config}
use packetpony.Metrics.{new_proxy_metrics, start_metrics_server}
use packetpony.Metrics.Routes.{no_server}
use packetpony.Listener.{Listener, new_manager}
use packetpony.Listener.Traffic.{IsCalm, start_some-IsCalm, any, is_unlogged, is_too_fast}
use packetpony.Listener.Lifecycle.{Bind, start_some, start_all, stop_all, any_blocks}
use packetpony.Listener.Stopped.{IsDown, IsCancelled, IsUp}
use packetpony.Main.{Machine, Flags, Outcome, End, exited, returned, waits, blocked, panicked, load}

-- After a start without an error the proxies are those from before.
pub started-IsCalm :
    (net : Text → Bind) (ls ls' : List (Text × Listener))
    → All (λ (e : Text × Listener). IsCalm e.1) ls
    → start_all net ls ≡ some (ls', true)
    → All (λ (e : Text × Listener). IsCalm e.1) ls' × (any is_unlogged ls' ≡ any is_unlogged ls)
unfolding start_all
started-IsCalm net ls ls' c e = elim (Bool-cases (start_some net ls).1) [
  | inl s ↦
      subst
        (λ x.
          All (λ (y : Text × Listener). IsCalm y.1) x × (any is_unlogged x ≡ any is_unlogged ls))
        (ground (arith, s, e)) (start_some-IsCalm net ls c)
  | inr s ↦ elim (Option-cases (stop_all (start_some net ls).0)) [
    | inl n ↦ absurd (ground (arith, s, n, e))
    | inr (m, n) ↦ absurd (ground (arith, s, n, e))
  ]
]

module _ {R : Type 0} (m : Machine R) where
  -- What is true where the process ends or waits; `trouble` is what a panic comes from.
  abbrev pub EndsAs : Type 0 → End → List (Text × Listener) → Type 0
  EndsAs trouble (exited n) ls = All IsDown ls
  EndsAs trouble returned ls = (m.signal ≢ none) × All IsDown ls
  EndsAs trouble waits ls = (m.signal ≡ none) × All IsUp ls
  EndsAs trouble blocked ls =
      (m.signal ≢ none) × (any_blocks m.drains ls ≡ true) × All IsCancelled ls
  EndsAs trouble panicked ls = trouble

  unfoldable pub Ends : Type 0 → Outcome → Type 0
  Ends trouble o = EndsAs trouble o.end o.listeners

  -- What a panic comes from: a metric that cannot be registered, or in the configuration that was
  -- loaded a path of the metrics server that is taken or no pattern, a session timeout of less than two
  -- nanoseconds, or a UDP listener without a `udp.logging` section.
  abbrev pub Trouble : Flags → Type 0
  Trouble f =
      (new_proxy_metrics m.register m.registry ≡ none)
      ⊎ ((cfg : Config) × (load m f.config_path ≡ some cfg)
          × ((start_metrics_server m.normal cfg.metrics.prometheus no_server ≡ none)
              ⊎ ((ls : List (Text × Listener)) × (new_manager m.net cfg ≡ some ls)
                  × ((any is_too_fast ls ≡ true) ⊎ (any is_unlogged ls ≡ true)))))
