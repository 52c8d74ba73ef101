-- ===== src/Logging/Opened.antt =====
-- internal/logging/logger.go: which backends `NewMultiLogger` opens, for each configuration.
use packetpony.Base.{
  ◌≡◌, ◌≢◌, refl, ap, ◌∙◌, ◌⊎◌, inl, inr, Bool, true, false, not, ◌&&◌, ◌||◌, List, [], ◌∷◌, ◌++◌,
  Option, some, none, arith, length, ◌==◌, if◌then◌else◌, ◌>>=◌, map, Bool-cases,
}
use packetpony.Config.{LoggingConfig}
use packetpony.Config.Validate.{validate_logging}
use packetpony.Config.Accepted.{then-none, fails-none}
use packetpony.Logging.Syslog.{new_syslog_logger, syslogger_of}
use packetpony.Logging.Json.{new_json_logger}
use packetpony.Logging.Stdout.{new_stdout_logger}
use packetpony.Logging.Multi.{Backend, syslog, json_log, console, add_backend, new_multi_logger}

-- The list of one backend that is enabled, or of none.
abbrev pub if_enabled : Bool → Backend → List Backend
if_enabled true b = b ∷ []
if_enabled false b = []

-- The backends that a section enables, in the order in which they are opened.
abbrev pub enabled_backends : LoggingConfig → List Backend
enabled_backends cfg =
    if_enabled cfg.syslog.enabled (syslog (syslogger_of cfg.syslog))
    ++ (if_enabled cfg.json_log.enabled (json_log (record { path = cfg.json_log.path }))
        ++ if_enabled cfg.stdout.enabled (console (record { use_json = cfg.stdout.use_json })))

abbrev made : Bool → Bool → Bool → Option Backend → Option Backend → Backend → Option (List Backend)
made a b c x y z = do
  m ← add_backend a x []
  n ← add_backend b y m
  l ← add_backend c (some z) n
  if length l == 0 then none else some l

opened : Bool → Backend → Option Backend
opened true x = some x
opened false x = none

made_lem :
    (a b c so jo : Bool) (x y z : Backend)
    → made a b c (opened so x) (opened jo y) z ≡ (
        if (a && not so) || (b && not jo)
        then none
        else (if not a && not b && not c
            then none
            else some (if_enabled a x ++ (if_enabled b y ++ if_enabled c z))))
unfolding add_backend opened
made_lem true b c false jo x y z = refl
made_lem true true c true false x y z = refl
made_lem true true true true true x y z = refl
made_lem true true false true true x y z = refl
made_lem true false true true jo x y z = refl
made_lem true false false true jo x y z = refl
made_lem false true c so false x y z = refl
made_lem false true true so true x y z = refl
made_lem false true false so true x y z = refl
made_lem false false true so jo x y z = refl
made_lem false false false so jo x y z = refl

new_multi_logger_lem :
    (cfg : LoggingConfig) (so jo : Bool)
    → new_multi_logger cfg so jo ≡ (
        if (cfg.syslog.enabled && not so) || (cfg.json_log.enabled && not jo)
        then none
        else (if not cfg.syslog.enabled && not cfg.json_log.enabled && not cfg.stdout.enabled
            then none
            else some (enabled_backends cfg)))
unfolding new_multi_logger new_syslog_logger new_json_logger new_stdout_logger opened
new_multi_logger_lem cfg true true = made_lem _ _ _ true true _ _ _
new_multi_logger_lem cfg true false =
    made_lem _ _ _ true false _ (json_log (record { path = cfg.json_log.path })) _
new_multi_logger_lem cfg false true =
    made_lem _ _ _ false true (syslog (syslogger_of cfg.syslog)) _ _
new_multi_logger_lem cfg false false =
    made_lem _ _ _ false false (syslog (syslogger_of cfg.syslog))
      (json_log (record { path = cfg.json_log.path })) _

enabled_backends-ne-nil :
    (a b c : Bool) (x y z : Backend)
    → (not a && not b && not c) ≡ false
    → (if_enabled a x ++ (if_enabled b y ++ if_enabled c z)) ≢ []
enabled_backends-ne-nil true b c x y z h = λ q. cc
enabled_backends-ne-nil false true c x y z h = λ q. cc
enabled_backends-ne-nil false false true x y z h = λ q. cc
enabled_backends-ne-nil false false false x y z h = cc

-- With logging that passes the checks `NewMultiLogger` fails exactly if a backend that is enabled does
-- not open; otherwise it has exactly the backends that are enabled, and there is one.
pub new_multi_logger-validate_logging :
    (cfg : LoggingConfig) (syslog_opens json_opens : Bool)
    → validate_logging cfg ≡ none
    → (((cfg.syslog.enabled && not syslog_opens) || (cfg.json_log.enabled && not json_opens))
          ≡ true)
        × (new_multi_logger cfg syslog_opens json_opens ≡ none)
      ⊎ (((cfg.syslog.enabled && not syslog_opens) || (cfg.json_log.enabled && not json_opens))
          ≡ false)
        × (new_multi_logger cfg syslog_opens json_opens ≡ some (enabled_backends cfg))
        × (enabled_backends cfg ≢ [])
unfolding validate_logging
new_multi_logger-validate_logging cfg so jo e =
    let h = fails-none _ _ (then-none _ _ (then-none _ _ e).1).1 in
    let full =
      enabled_backends-ne-nil _ _ _ (syslog (syslogger_of cfg.syslog))
        (json_log (record { path = cfg.json_log.path }))
        (console (record { use_json = cfg.stdout.use_json })) h in
    elim (Bool-cases ((cfg.syslog.enabled && not so) || (cfg.json_log.enabled && not jo))) [
      | inl f ↦ inl (f, new_multi_logger_lem cfg so jo ∙ rw f refl)
      | inr f ↦ inr (f, new_multi_logger_lem cfg so jo ∙ rw f (rw h refl), full)
    ]

new_multi_logger-some :
    (cfg : LoggingConfig) (so jo : Bool) (backends : List Backend)
    → new_multi_logger cfg so jo ≡ some backends
    → backends ≡ enabled_backends cfg
new_multi_logger-some cfg so jo backends e = ground (arith, new_multi_logger_lem cfg so jo, e)

map-if_enabled :
    {B : Type 0} (f : Backend → B) (a b c : Bool) (x y z : Backend)
    → map f (if_enabled a x ++ (if_enabled b y ++ if_enabled c z))
      ≡ (if a then f x ∷ [] else [])
        ++ ((if b then f y ∷ [] else []) ++ (if c then f z ∷ [] else []))
map-if_enabled f true true true x y z = refl
map-if_enabled f true true false x y z = refl
map-if_enabled f true false true x y z = refl
map-if_enabled f true false false x y z = refl
map-if_enabled f false true true x y z = refl
map-if_enabled f false true false x y z = refl
map-if_enabled f false false true x y z = refl
map-if_enabled f false false false x y z = refl

-- What a loop over the backends gives, by section.
pub map-new_multi_logger :
    {B : Type 0} (f : Backend → B) (cfg : LoggingConfig) (so jo : Bool) (backends : List Backend)
    → new_multi_logger cfg so jo ≡ some backends
    → map f backends
      ≡ (if cfg.syslog.enabled then f (syslog (syslogger_of cfg.syslog)) ∷ [] else [])
        ++ ((if cfg.json_log.enabled
              then f (json_log (record { path = cfg.json_log.path })) ∷ []
              else [])
            ++ (if cfg.stdout.enabled
                then f (console (record { use_json = cfg.stdout.use_json })) ∷ []
                else []))
map-new_multi_logger f cfg so jo backends e =
    ap (map f) (new_multi_logger-some cfg so jo backends e)
    ∙ map-if_enabled f cfg.syslog.enabled cfg.json_log.enabled cfg.stdout.enabled
        (syslog (syslogger_of cfg.syslog)) (json_log (record { path = cfg.json_log.path }))
        (console (record { use_json = cfg.stdout.use_json }))
