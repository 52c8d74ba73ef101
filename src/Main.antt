-- ===== src/Main.antt =====
-- cmd/packetpony/main.go. What the machine does is an argument: the configuration file with its YAML, the
-- syslog daemon and the log file, the registry, the sockets, what comes to the listeners, the signal, and
-- whether the handlers of a listener end after its stop. The text of an error is left out of what is
-- printed and logged.
pub mod Runs
pub mod Serves
mod Tests
use packetpony.Base.{
  ℕ, Bool, true, false, List, [], ◌∷◌, ◌++◌, Option, some, none, if◌then◌else◌, ◌>>=◌, length,
}
use packetpony.Base.Int.{pos}
use packetpony.Base.Text.{Text, text}
use packetpony.Net.{Net}
use packetpony.Config.{Config}
use packetpony.Config.Load.{load_config}
use packetpony.Config.Validate.{validate}
use packetpony.Logging.{Fields, str, num}
use packetpony.Logging.Multi.{Host, Backend, Output, new_multi_logger, log_error, log_info}
use packetpony.Metrics.{Collector, new_proxy_metrics, start_metrics_server}
use packetpony.Metrics.Routes.{no_server}
use packetpony.Listener.{Listener, new_manager}
use packetpony.Listener.Lifecycle.{Bind, start_all, graceful_shutdown}
use packetpony.Listener.Traffic.{Traffic, carry_all, any, is_too_fast}

-- The flags, and what the linker sets.
pub record Flags : Type 0 where
  pub config_path : Text
  pub show_version : Bool
  pub version : Text
  pub commit : Text
  pub build_time : Text

pub record Machine (R : Type 0) : Type 0 where
  pub net : Net
  pub host : Host
  pub read_file : Text → Option Config  -- the file, with its YAML decoded
  pub syslog_opens : Bool
  pub json_opens : Bool
  pub registry : R
  pub register : Collector → R → Option R
  pub normal : Text → Option Text  -- the normal form of a pattern of package http
  pub bind : Text → Bind  -- by the name of the listener
  pub traffic : Text → Traffic  -- until the signal, or until now
  pub drains : Text → Bool  -- whether all handlers return once `Stop` has closed their connections
  pub signal : Option Text  -- SIGINT or SIGTERM, if one ever comes

-- How the process ends, or what it waits for: a signal, or the `Stop` of a listener. After `os.Exit` no
-- deferred call runs; it runs after `returned`, with status 0.
pub data End : Type 0 where
  exited : ℕ → End
  returned waits blocked panicked : End

pub data Act : Type 0 where
  printed : Text → Act
  printed_error : Text → Act
  logged : List Output → Act

-- What the process did, how it ended, and its listeners at that time.
pub record Outcome : Type 0 where
  pub end : End
  pub acts : List Act
  pub listeners : List (Text × Listener)

-- `LoadConfig`.
abbrev pub load : {R : Type 0} → Machine R → Text → Option Config
load m path = m.read_file path >>= load_config

module _ {R : Type 0} (m : Machine R) where
  -- The end of `main`, from the signal on.
  unfoldable pub shut_down : List Backend → List Act → List (Text × Listener) → Text → Outcome
  shut_down logger acts ls sig =
      let received =
        acts
        ++ logged (
            log_info m.host logger (text "Received shutdown signal")
              ((text "signal", str sig) ∷ []))
          ∷ [] in
      elim (graceful_shutdown m.drains ls) [
        | none ↦ record { end = panicked; acts = received; listeners = ls }
        | some (stopped, ended) ↦
            if ended
            then record {
              end = returned;
              acts =
                  received
                  ++ logged (log_info m.host logger (text "PacketPony stopped gracefully") []) ∷ [];
              listeners = stopped;
            }
            else record { end = blocked; acts = received; listeners = stopped }
      ]

  -- Once the listeners run.
  unfoldable pub wait_for_signal : List Backend → List Act → List (Text × Listener) → Outcome
  wait_for_signal logger acts ls = elim (carry_all m.net m.traffic ls) [
    | none ↦ record { end = panicked; acts = acts; listeners = ls }
    | some ls' ↦ elim m.signal [
      | none ↦ record { end = waits; acts = acts; listeners = ls' }
      | some sig ↦ shut_down logger acts ls' sig
    ]
  ]

  -- From the start of the listeners on.
  unfoldable pub start_listeners :
      Config → List Backend → List Act → List (Text × Listener) → Outcome
  start_listeners cfg logger acts ls = elim (start_all m.bind ls) [
    | none ↦ record { end = panicked; acts = acts; listeners = ls }
    | some (ls', started) ↦
        if started
        then wait_for_signal logger
            (acts
              ++ logged (
                  log_info m.host logger (text "PacketPony is running")
                    ((text "listeners", num (pos (length cfg.listeners))) ∷ []))
                ∷ [])
            ls'
        else record {
          end = exited 1;
          acts =
              acts ++ logged (log_error m.host logger (text "Failed to start listeners") []) ∷ [];
          listeners = ls';
        }
  ]

  -- From the metrics on. Where the ticker of a cleanup goroutine that `NewManager` starts panics, it ends
  -- the process, at this point or later.
  unfoldable pub run_logged : Config → List Backend → List Act → Outcome
  run_logged cfg logger acts = elim (new_proxy_metrics m.register m.registry) [
    | none ↦ record { end = panicked; acts = acts; listeners = [] }
    | some _ ↦ elim (start_metrics_server m.normal cfg.metrics.prometheus no_server) [
      | none ↦ record { end = panicked; acts = acts; listeners = [] }
      | some _ ↦
          let acts' =
            acts
            ++ (if cfg.metrics.prometheus.enabled
                then logged (
                    log_info m.host logger (text "Prometheus metrics server started") (
                      (text "address", str cfg.metrics.prometheus.listen_address)
                      ∷ (text "path", str cfg.metrics.prometheus.path)
                      ∷ []))
                  ∷ []
                else []) in
          elim (new_manager m.net cfg) [
            | none ↦ record {
              end = exited 1;
              acts =
                  acts'
                  ++ logged (log_error m.host logger (text "Failed to create listener manager") [])
                    ∷ [];
              listeners = [];
            }
            | some ls ↦
                if any is_too_fast ls
                then record { end = panicked; acts = acts'; listeners = ls }
                else start_listeners cfg logger acts' ls
          ]
    ]
  ]

  -- From the logger on, with a configuration that passed the checks.
  unfoldable pub run_accepted : Flags → Config → Outcome
  run_accepted f cfg =
      let acts =
        printed
          (text "PacketPony v" ++ (f.version ++ (text " starting with config: " ++ f.config_path)))
        ∷ printed (text "Server name: " ++ cfg.server.name)
        ∷ [] in
      elim (new_multi_logger cfg.logging m.syslog_opens m.json_opens) [
        | none ↦ record {
          end = exited 1;
          acts = acts ++ printed_error (text "Failed to initialize logging: ") ∷ [];
          listeners = [];
        }
        | some logger ↦ run_logged cfg logger (
            acts
            ++ logged (
                log_info m.host logger (text "PacketPony starting") (
                  (text "version", str f.version)
                  ∷ (text "server", str cfg.server.name)
                  ∷ (text "config", str f.config_path)
                  ∷ []))
              ∷ [])
      ]

  unfoldable pub main : Flags → Outcome
  main f =
      let version =
        printed (text "PacketPony " ++ f.version)
        ∷ printed (text "  Commit:     " ++ f.commit)
        ∷ printed (text "  Build time: " ++ f.build_time)
        ∷ [] in
      if f.show_version
      then record { end = exited 0; acts = version; listeners = [] }
      else (elim (load m f.config_path) [
        | none ↦ record {
          end = exited 1;
          acts = printed_error (text "Failed to load config: ") ∷ [];
          listeners = [];
        }
        | some cfg ↦ elim (validate m.net cfg) [
          | some fault ↦ record {
            end = exited 1;
            acts = printed_error (text "Invalid configuration: ") ∷ [];
            listeners = [];
          }
          | none ↦ run_accepted f cfg
        ]
      ])
