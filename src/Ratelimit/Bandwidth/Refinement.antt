-- ===== src/Ratelimit/Bandwidth/Refinement.antt =====
-- The bandwidth limiter against an ideal one that keeps every recorded consumption for ever and never
-- sweeps.
use packetpony.Base.{
  ℕ, ◌+◌, ◌≤◌, ◌<◌, ◌^◌, ◌≡◌, refl, ap, ap₂, ◌∙◌, Bool, true, false, not, ◌&&◌, ◌||◌, List, [], ◌∷◌,
  ◌++◌, arith, leb, ltb, ◌==◌, if◌then◌else◌, ite, Bool-cases, Option-cases, inl, inr,
}
use packetpony.Base.Text.{Text, Text-discrete}
use packetpony.Base.Map.{insert, lookup}
use packetpony.Ratelimit.Window.{live}
use packetpony.Ratelimit.Ledger.{
  update, Tracks, Tracks-empty, Tracks-later, Tracks-prune, Tracks-push, Tracks-delete_where,
}
use packetpony.Ratelimit.Bandwidth.{
  BandwidthLimiter, ConsumptionEntry, new_bandwidth_limiter, allow, is_over_limit, cleanup, usage,
  exceeds, throttle, log_only, valid_entries,
}

-- A call of the limiter, with the time at which it is made.
pub data Call : Type 0 where
  consume query : Text → ℕ → ℕ → Call
  tick : ℕ → Call

abbrev pub time_of : Call → ℕ
time_of (consume ip bytes now) = now
time_of (query ip bytes now) = now
time_of (tick now) = now

-- A query asks for at most the maximum. (One for more is answered `false` where the map has no
-- bucket, so its answer would tell whether a sweep came between.)
abbrev pub IsModest : ℕ → Call → Type 0
IsModest max (query ip bytes now) = bytes ≤ max
IsModest max _ = Unit {0}

-- The times of the calls do not fall, and the queries are modest.
abbrev pub IsHistory : ℕ → ℕ → List Call → Type 0
IsHistory max clock [] = Unit {0}
IsHistory max clock (c ∷ cs) = (clock ≤ time_of c) × IsModest max c × IsHistory max (time_of c) cs

-- The answers of `Allow` and `IsOverLimit`, in order.
pub answers : BandwidthLimiter → List Call → List Bool
answers l [] = []
answers l (consume ip bytes now ∷ cs) =
    let (l', allowed) = allow l ip bytes now in allowed ∷ answers l' cs
answers l (query ip bytes now ∷ cs) = is_over_limit l ip bytes now ∷ answers l cs
answers l (tick now ∷ cs) = answers (cleanup l now) cs

-- What a limiter is configured with.
pub record Policy : Type 0 where
  pub max_per_ip : ℕ
  pub throttle_minimum : ℕ
  pub window : ℕ
  pub action : Text

abbrev pub policy_of : BandwidthLimiter → Policy
policy_of l = record {
  max_per_ip = l.max_per_ip;
  throttle_minimum = l.throttle_minimum;
  window = l.window;
  action = l.action;
}

-- The ideal limiter: `spent ip` lists all consumption that was recorded for `ip`.
module _ (p : Policy) where
  abbrev pub is_above : List ConsumptionEntry → ℕ → ℕ → Bool
  is_above spent bytes now =
      exceeds p.max_per_ip
        (usage (live {A = ConsumptionEntry} (λ e. e.timestamp) p.window now spent) + bytes)

  -- Above the limit the action decides.
  abbrev pub tolerates : ℕ → Bool
  tolerates bytes = ite (Text-discrete p.action log_only) true (
      ite (Text-discrete p.action throttle)
        (ltb 0 p.throttle_minimum && leb bytes p.throttle_minimum) false)

  abbrev pub admits : List ConsumptionEntry → ℕ → ℕ → Bool
  admits spent bytes now = not (is_above spent bytes now) || tolerates bytes

  pub ideal_answers : (Text → List ConsumptionEntry) → List Call → List Bool
  ideal_answers spent [] = []
  ideal_answers spent (consume ip bytes now ∷ cs) =
      let next =
        if not (bytes == 0) && admits (spent ip) bytes now
        then update spent ip (spent ip ++ record { bytes = bytes; timestamp = now } ∷ [])
        else spent in
      (bytes == 0 || admits (spent ip) bytes now) ∷ ideal_answers next cs
  ideal_answers spent (query ip bytes now ∷ cs) =
      (not (bytes == 0) && is_above (spent ip) bytes now) ∷ ideal_answers spent cs
  ideal_answers spent (tick now ∷ cs) = ideal_answers spent cs

abbrev stamp : ConsumptionEntry → ℕ
stamp e = e.timestamp

abbrev pub consumed : ℕ → ℕ → ConsumptionEntry
consumed bytes now = record { bytes = bytes; timestamp = now }

-- One call, with its branches joined.
pub allow_lem :
    (l : BandwidthLimiter) (ip : Text) (bytes now : ℕ)
    → allow l ip bytes now ≡ (
        if bytes == 0
        then (l, true)
        else (if not (exceeds l.max_per_ip (usage (valid_entries l ip now) + bytes))
              || tolerates (policy_of l) bytes
            then (
              record l {
                buckets =
                    insert Text-discrete ip
                      (valid_entries l ip now ++ consumed bytes now ∷ [])
                      l.buckets;
              },
              true,
            )
            else (
              record l { buckets = insert Text-discrete ip (valid_entries l ip now) l.buckets },
              false,
            )))
unfolding allow
allow_lem l ip bytes now = elim (Bool-cases (bytes == 0)) [
  | inl e ↦ rw e refl
  | inr e ↦
      rw e (elim (Bool-cases (exceeds l.max_per_ip (usage (valid_entries l ip now) + bytes))) [
        | inl x ↦ rw x (ground arith)
        | inr x ↦ rw x refl
      ])
]

pub policy_of-allow :
    (l : BandwidthLimiter) (ip : Text) (bytes now : ℕ)
    → policy_of (allow l ip bytes now).0 ≡ policy_of l
policy_of-allow l ip bytes now = rw (allow_lem l ip bytes now) (ground arith)

if-false : (b c : Bool) → (if b then false else c) ≡ (not b && c)
if-false true c = refl
if-false false c = refl

-- A query sees what a consumption would.
is_over_limit_lem :
    (l : BandwidthLimiter) (ip : Text) (bytes now : ℕ)
    → bytes ≤ l.max_per_ip
    → l.max_per_ip < 2 ^ 63
    → is_over_limit l ip bytes now
      ≡ (not (bytes == 0) && exceeds l.max_per_ip (usage (valid_entries l ip now) + bytes))
unfolding is_over_limit
is_over_limit_lem l ip bytes now q h = elim (Option-cases (lookup Text-discrete ip l.buckets)) [
  | inl e ↦ rw (e, is_over_limit) (ground arith)
  | inr (b, e) ↦ rw (e, is_over_limit) (if-false (bytes == 0) _)
]

-- The history that a consumption leaves.
abbrev next_spent :
    Policy → (Text → List ConsumptionEntry) → Text → ℕ → ℕ → Text → List ConsumptionEntry
next_spent p spent ip bytes now =
    if not (bytes == 0) && admits p (spent ip) bytes now
    then update spent ip (spent ip ++ consumed bytes now ∷ [])
    else spent

Tracks-allow :
    (clock : ℕ) (l : BandwidthLimiter) (spent : Text → List ConsumptionEntry) (ip : Text)
    (bytes now : ℕ)
    → Tracks {A = ConsumptionEntry} stamp l.window clock l.buckets spent
    → clock ≤ now
    → Tracks {A = ConsumptionEntry} stamp l.window now
        (allow l ip bytes now).0.buckets
        (next_spent (policy_of l) spent ip bytes now)
Tracks-allow clock l spent ip bytes now t q = rw (allow_lem l ip bytes now) (
    rw (← (t ip).same now q) (elim (Bool-cases (bytes == 0)) [
      | inl e ↦
          rw e (Tracks-later {A = ConsumptionEntry} stamp l.window clock now l.buckets spent t q)
      | inr e ↦
          rw e
            (elim (Bool-cases (
              not (exceeds l.max_per_ip (usage (valid_entries l ip now) + bytes))
              || tolerates (policy_of l) bytes)) [
                | inl a ↦ rw a (
                    Tracks-push {A = ConsumptionEntry} stamp l.window clock now l.buckets spent ip
                      (consumed bytes now) t q refl)
                | inr a ↦ rw a (
                    Tracks-prune {A = ConsumptionEntry} stamp l.window clock now l.buckets spent ip
                      t q)
              ])
    ]))

allow-answer :
    (clock : ℕ) (l : BandwidthLimiter) (spent : Text → List ConsumptionEntry) (ip : Text)
    (bytes now : ℕ)
    → Tracks {A = ConsumptionEntry} stamp l.window clock l.buckets spent
    → clock ≤ now
    → (allow l ip bytes now).1 ≡ (bytes == 0 || admits (policy_of l) (spent ip) bytes now)
allow-answer clock l spent ip bytes now t q =
    rw (allow_lem l ip bytes now) (rw (← (t ip).same now q) (branch (bytes == 0) _ _ _))
  where
    branch :
        (z a : Bool) (r s : BandwidthLimiter)
        → (if◌then◌else◌ {A = BandwidthLimiter × Bool} z
            (l, true)
            (if a then (r, true) else (s, false))).1
          ≡ (z || a)
    branch z a r s = ground arith

answers-ideal :
    (cs : List Call) (clock : ℕ) (l : BandwidthLimiter) (spent : Text → List ConsumptionEntry)
    → Tracks {A = ConsumptionEntry} stamp l.window clock l.buckets spent
    → l.max_per_ip < 2 ^ 63
    → IsHistory l.max_per_ip clock cs
    → answers l cs ≡ ideal_answers (policy_of l) spent cs
unfolding answers ideal_answers cleanup
answers-ideal [] clock l spent t m h = refl
answers-ideal (consume ip bytes now ∷ cs) clock l spent t m h =
    ap₂ (λ (b : Bool) (bs : List Bool). b ∷ bs) (allow-answer clock l spent ip bytes now t h.0)
      (answers-ideal cs now (allow l ip bytes now).0 (next_spent (policy_of l) spent ip bytes now)
          (rw window_kept (Tracks-allow clock l spent ip bytes now t h.0)) (rw max_kept m)
          (rw max_kept h.2)
        ∙ ap (λ p. ideal_answers p (next_spent (policy_of l) spent ip bytes now) cs)
            (policy_of-allow l ip bytes now))
  where
    window_kept : (allow l ip bytes now).0.window ≡ l.window
    window_kept = ap (λ (p : Policy). p.window) (policy_of-allow l ip bytes now)

    max_kept : (allow l ip bytes now).0.max_per_ip ≡ l.max_per_ip
    max_kept = ap (λ (p : Policy). p.max_per_ip) (policy_of-allow l ip bytes now)
answers-ideal (query ip bytes now ∷ cs) clock l spent t m h =
    ap₂ (λ (b : Bool) (bs : List Bool). b ∷ bs)
      (is_over_limit_lem l ip bytes now h.1 m ∙ rw ((t ip).same now h.0) refl)
      (answers-ideal cs now l spent
        (Tracks-later {A = ConsumptionEntry} stamp l.window clock now l.buckets spent t h.0) m h.2)
answers-ideal (tick now ∷ cs) clock l spent t m h =
    answers-ideal cs now _ spent
      (Tracks-delete_where {A = ConsumptionEntry} stamp l.window clock now l.buckets spent t h.0) m
      h.2

-- For calls of `Allow`, `IsOverLimit` and `cleanup` in the order of time, with a maximum in the
-- range of `int64` and no query for more than it, a new bandwidth limiter gives the answers of the
-- ideal one, which keeps all consumption: pruning and sweeping lose none that still counts.
pub answers-new_bandwidth_limiter :
    (max window minimum : ℕ) (action : Text) (cs : List Call)
    → max < 2 ^ 63
    → IsHistory max 0 cs
    → answers (new_bandwidth_limiter max window action minimum) cs
      ≡ ideal_answers (policy_of (new_bandwidth_limiter max window action minimum)) (λ ip. []) cs
unfolding new_bandwidth_limiter
answers-new_bandwidth_limiter max window minimum action cs m h =
    answers-ideal cs 0 _ (λ ip. []) (Tracks-empty {A = ConsumptionEntry} stamp window) m h
