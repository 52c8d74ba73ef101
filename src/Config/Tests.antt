-- ===== src/Config/Tests.antt =====
-- The promises of the checks and of the loading for a sample.
use packetpony.Base.{◌≡◌, ◌≢◌, [], ◌∷◌, some, All}
use packetpony.Base.{◌++◌, ◌*◌, ◌^◌, arith}
use packetpony.Base.Int.{pos}
use packetpony.Base.Text.{text}
use packetpony.Base.Show.{show}
use packetpony.Config.Bandwidth.{parse_bandwidth}
use packetpony.Config.Roundtrip.{letters, mega, bits_of, parse_bandwidth-show}
use packetpony.Net.Sample.{sample_net}
use packetpony.Acl.{Allowlist, ok, new_allowlist}
use packetpony.Ratelimit.Manager.{new_rate_limit_manager}
use packetpony.Ratelimit.Manager.Places.{Holds}
use packetpony.Config.{ListenerConfig}
use packetpony.Config.Accepted.{AreUnique, validate-none}
use packetpony.Config.Load.{load_config}
use packetpony.Config.Loaded.{HasLogging, load_config_again}
use packetpony.Config.Sample.{dns, config, loaded, accepted, loads}

validate-none_example :
    (dns ∷ [] ≢ [])
    × All
        (λ (l : ListenerConfig).
          ((a : Allowlist) × (new_allowlist sample_net l.allowlist ≡ ok a))
          × Holds (new_rate_limit_manager l.rate_limits) 0)
        (dns ∷ [])
    × AreUnique (text "dns" ∷ [])
    × AreUnique (text ":53" ∷ [])
validate-none_example = validate-none sample_net config accepted

load_config_again_example : (load_config loaded ≡ some loaded) × All HasLogging loaded.listeners
load_config_again_example = load_config_again config loaded loads

parse_bandwidth-show_example :
    parse_bandwidth (show 10 ++ (letters mega ++ text "B")) ≡ some (pos (10 * 2 ^ bits_of mega))
parse_bandwidth-show_example = parse_bandwidth-show 10 mega (omega arith) (omega arith)
