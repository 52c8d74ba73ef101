-- ===== src/Ratelimit/Tests.antt =====
-- The limiters on concrete histories.
use packetpony.Base.{◌+◌, without, ◌≤◌, ◌≡◌, refl, inr, true, false, List, [], ◌∷◌, arith}
use packetpony.Base.Int.{pos}
use packetpony.Base.Text.{Text, Text-discrete, text}
use packetpony.Base.Map.{lookup}
use packetpony.Config.{RateLimitConfig}
use packetpony.Ratelimit.Attempts
use packetpony.Ratelimit.Attempts.Refinement as AttemptRefinement
use packetpony.Ratelimit.Connections
use packetpony.Ratelimit.Connections.Refinement as ConnectionRefinement
use packetpony.Ratelimit.Bandwidth
use packetpony.Ratelimit.Bandwidth.{
  BandwidthLimiter, ConsumptionEntry, allow, is_over_limit, drop, throttle, log_only,
}
use packetpony.Ratelimit.Bandwidth.Refinement as BandwidthRefinement
use packetpony.Ratelimit.Bandwidth.Limits.{
  IsWithin, allow-IsWithin, is_over_limit-allow, allow-log_only, after_record,
}
use packetpony.Ratelimit.Bandwidth.Throttle.{allow_each, counted, allow_each-throttle}
use packetpony.Ratelimit.Manager.{RateLimitManager, new_rate_limit_manager}
use packetpony.Ratelimit.Manager.Counter
use packetpony.Ratelimit.Manager.Places
use packetpony.Ratelimit.Manager.Interleaving

abbrev ip : Text
ip = text "10.0.0.7"

abbrev attempts : List AttemptRefinement.Call
attempts =
    AttemptRefinement.attempt ip 100
    ∷ AttemptRefinement.attempt ip 110
    ∷ AttemptRefinement.tick 120
    ∷ AttemptRefinement.attempt ip 155
    ∷ []

answers-new_attempt_limiter_example :
    AttemptRefinement.answers (Attempts.new_attempt_limiter 1 50) attempts
    ≡ AttemptRefinement.ideal_answers 1 50 (λ ip. []) attempts
answers-new_attempt_limiter_example =
    AttemptRefinement.answers-new_attempt_limiter 1 50 attempts
      (omega arith, (omega arith, (omega arith, (omega arith, tt))))

abbrev connections : List ConnectionRefinement.Call
connections =
    ConnectionRefinement.open_conn ip 100
    ∷ ConnectionRefinement.open_conn ip 110
    ∷ ConnectionRefinement.close_conn ip
    ∷ ConnectionRefinement.open_conn ip 120
    ∷ []

answers-new_connection_limiter_example :
    ConnectionRefinement.answers (Connections.new_connection_limiter 1 50) connections
    ≡ ConnectionRefinement.ideal_answers 1 50 (λ ip. []) connections
answers-new_connection_limiter_example =
    ConnectionRefinement.answers-new_connection_limiter 1 50 connections

abbrev consumptions : List BandwidthRefinement.Call
consumptions =
    BandwidthRefinement.consume ip 800 100
    ∷ BandwidthRefinement.query ip 300 110
    ∷ BandwidthRefinement.tick 120
    ∷ BandwidthRefinement.consume ip 300 130
    ∷ []

answers-new_bandwidth_limiter_example :
    BandwidthRefinement.answers (Bandwidth.new_bandwidth_limiter 1000 50 drop 0) consumptions
    ≡ BandwidthRefinement.ideal_answers
        (BandwidthRefinement.policy_of (Bandwidth.new_bandwidth_limiter 1000 50 drop 0))
        (λ ip. [])
        consumptions
answers-new_bandwidth_limiter_example =
    BandwidthRefinement.answers-new_bandwidth_limiter 1000 50 0 drop consumptions (omega arith)
      (omega arith, tt, (omega arith, omega arith, (omega arith, tt, (omega arith, tt, tt))))

-- A limiter that has seen 800 bytes.
abbrev used : Text → BandwidthLimiter
used action = record {
  max_per_ip = 1000;
  throttle_minimum = 400;
  window = 50;
  buckets = (ip, record { bytes = 800; timestamp = 100 } ∷ []) ∷ [];
  stopped = false;
  action = action;
}

used-IsWithin : IsWithin (used drop)
unfolding lookup
used-IsWithin j = elim (Text-discrete ip j) [ yes p ↦ ground arith | no p ↦ ground arith ]

allow-IsWithin_example : IsWithin (allow (used drop) ip 300 110).0
unfolding Text-discrete
allow-IsWithin_example =
    allow-IsWithin (used drop) ip 300 110 (λ e. cc) (λ e. cc) (omega arith) used-IsWithin

is_over_limit-allow_example :
    ((allow (used drop) ip 150 110).1 ≡ true)
    × (is_over_limit (allow (used drop) ip 150 110).0 ip 150 110 ≡ true)
unfolding lookup Text-discrete
is_over_limit-allow_example =
    is_over_limit-allow (used drop) ip 150 110 (omega arith) (omega arith) (omega arith)
      (omega arith)

allow-log_only_example :
    allow (used log_only) ip 900 110 ≡ (after_record (used log_only) ip 900 110, true)
allow-log_only_example = allow-log_only (used log_only) ip 900 110 refl (omega arith)

allow_each-throttle_example :
    ((allow_each (used throttle) ip 110 (300 ∷ 0 ∷ 400 ∷ [])).1 ≡ true)
    × (counted (allow_each (used throttle) ip 110 (300 ∷ 0 ∷ 400 ∷ [])).0 ip 110
        ≡ counted (used throttle) ip 110 + 700)
allow_each-throttle_example =
    allow_each-throttle (used throttle) ip 110 (300 ∷ 0 ∷ 400 ∷ []) refl (omega arith)
      (omega arith, (omega arith, (omega arith, tt)))

abbrev limits : RateLimitConfig
limits = record {
  max_connections_per_ip = pos 2;
  connections_window = pos 60;
  max_connection_attempts_per_ip = pos 5;
  attempts_window = pos 60;
  max_bandwidth_per_ip = [];
  bandwidth_window = pos 0;
  max_total_connections = pos 1;
  action = [];
  throttle_minimum_bandwidth = [];
  max_bandwidth_bytes = pos 0;
  throttle_minimum_bytes = pos 0;
}

abbrev manager : RateLimitManager
manager = new_rate_limit_manager limits

manager-Holds : Places.Holds manager 0
unfolding new_rate_limit_manager
manager-Holds = record { limited = omega arith; counted = refl; bounded = inr (omega arith) }

abbrev calls : List Places.Call
calls =
    Places.connect ip 100
    ∷ Places.connect ip 101
    ∷ Places.disconnect ip
    ∷ Places.connect ip 102
    ∷ []

serve-Holds_example : Places.Holds (Places.serve manager 0 calls).0 (Places.serve manager 0 calls).1
serve-Holds_example = Places.serve-Holds calls manager 0 manager-Holds

-- Two goroutines ask for one place.
abbrev after : Interleaving.Shared
after = record { total_conns = 1; pending = []; failing = 0; holding = 1 }

race : Interleaving.Steps 1 Interleaving.start after
unfolding without
race = Interleaving.next _ _ _ (Interleaving.add Interleaving.start) (
    Interleaving.next _ _ _ (Interleaving.add _) (
      Interleaving.next _ _ _ (Interleaving.pass _ 1 1 refl refl) (
        Interleaving.next _ _ _ (Interleaving.refuse _ 0 2 refl refl)
          (Interleaving.next _ _ _ (Interleaving.roll_back _ 0 refl) (Interleaving.done after)))))

Steps-bounded_example :
    (1 ≤ 1) × (after.pending ≡ [] → after.failing ≡ 0 → after.total_conns ≡ after.holding)
Steps-bounded_example = Interleaving.Steps-bounded 1 after race
