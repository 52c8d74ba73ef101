-- ===== src/Ratelimit/Bandwidth/Limits.antt =====
-- What the actions of the bandwidth limiter enforce, and what `IsOverLimit` says after `Allow`.
use packetpony.Base.{
  ℕ, ◌+◌, ◌≤◌, ◌<◌, ◌^◌, ◌≡◌, refl, ◌≢◌, Bool, true, false, List, [], ◌∷◌, ◌++◌, arith, ltb, ◌==◌,
  if◌then◌else◌, Bool-cases, inl, inr, keep, keep-append,
}
use packetpony.Base.Text.{Text, Text-discrete}
use packetpony.Base.Map.{insert, lookup-insert_self}
use packetpony.Ratelimit.Window.{live, live-live, is_after_cutoff}
use packetpony.Ratelimit.Ledger.{entry, update, update_cases, value_of-insert}
use packetpony.Ratelimit.Bandwidth.{
  BandwidthLimiter, ConsumptionEntry, allow, is_over_limit, usage, exceeds, throttle, log_only,
  valid_entries,
}
use packetpony.Ratelimit.Bandwidth.Refinement.{consumed}

usage-append : (xs ys : List ConsumptionEntry) → usage (xs ++ ys) ≡ usage xs + usage ys
usage-append [] ys = omega arith
usage-append (x ∷ xs) ys = omega (arith, usage-append xs ys)

usage-keep-le :
    (p : ConsumptionEntry → Bool) (xs : List ConsumptionEntry) → usage (keep p xs) ≤ usage xs
usage-keep-le p [] = omega arith
usage-keep-le p (x ∷ xs) = ground (arith, usage-keep-le p xs)

-- No bucket holds more than the maximum.
abbrev pub IsWithin : BandwidthLimiter → Type 0
IsWithin l = (ip : Text) → usage (entry l.buckets ip) ≤ l.max_per_ip

exceeds-ltb : (max n : ℕ) → n < 2 ^ 63 → exceeds max n ≡ ltb max n
exceeds-ltb max n h = ground arith

-- The three outcomes of a call where the action tolerates nothing.
drop_lem :
    (l : BandwidthLimiter) (ip : Text) (bytes now : ℕ)
    → l.action ≢ log_only
    → l.action ≢ throttle
    → usage (valid_entries l ip now) + bytes < 2 ^ 63
    → allow l ip bytes now ≡ (
        if bytes == 0
        then (l, true)
        else (if ltb l.max_per_ip (usage (valid_entries l ip now) + bytes)
            then (
              record l { buckets = insert Text-discrete ip (valid_entries l ip now) l.buckets },
              false,
            )
            else (
              record l {
                buckets =
                    insert Text-discrete ip
                      (valid_entries l ip now ++ consumed bytes now ∷ [])
                      l.buckets;
              },
              true,
            )))
unfolding allow
drop_lem l ip bytes now a b m =
    rw (exceeds-ltb l.max_per_ip (usage (valid_entries l ip now) + bytes) m, allow) (ground arith)

valid-usage-le :
    (l : BandwidthLimiter) (ip : Text) (now : ℕ)
    → usage (valid_entries l ip now) ≤ usage (entry l.buckets ip)
valid-usage-le l ip now =
    usage-keep-le (λ e. is_after_cutoff l.window now e.timestamp) (entry l.buckets ip)

-- With an action that is neither `log_only` nor `throttle`, a call of `Allow` keeps every bucket
-- within the maximum, unless the sum could leave the range of `int64`.
pub allow-IsWithin :
    (l : BandwidthLimiter) (ip : Text) (bytes now : ℕ)
    → l.action ≢ log_only
    → l.action ≢ throttle
    → l.max_per_ip + bytes < 2 ^ 63
    → IsWithin l
    → IsWithin (allow l ip bytes now).0
allow-IsWithin l ip bytes now a b m h j =
    rw (drop_lem l ip bytes now a b (omega (arith, valid-usage-le l ip now, h ip)))
      (elim (Bool-cases (bytes == 0)) [
        | inl z ↦ rw z (h j)
        | inr z ↦ rw z (elim (Bool-cases (ltb l.max_per_ip (usage valid + bytes))) [
          | inl e ↦
              rw (e, value_of-insert [] l.buckets ip j valid)
                (fits valid (omega (arith, valid-usage-le l ip now, h ip)) j)
          | inr e ↦
              rw (e, value_of-insert [] l.buckets ip j (valid ++ consumed bytes now ∷ []))
                (fits (valid ++ consumed bytes now ∷ [])
                  (ground (arith, usage-append valid (consumed bytes now ∷ []))) j)
        ])
      ])
  where
    valid : List ConsumptionEntry
    valid = valid_entries l ip now

    fits :
        (xs : List ConsumptionEntry)
        → usage xs ≤ l.max_per_ip
        → (k : Text) → usage (update (entry l.buckets) ip xs k) ≤ l.max_per_ip
    fits xs q k = update_cases (λ k ys. usage ys ≤ l.max_per_ip) (entry l.buckets) ip xs q h k

-- A consumption within the maximum is recorded.
recorded_lem :
    (l : BandwidthLimiter) (ip : Text) (bytes now : ℕ)
    → 0 < bytes
    → usage (valid_entries l ip now) + bytes ≤ l.max_per_ip
    → l.max_per_ip < 2 ^ 63
    → allow l ip bytes now ≡ (
      record l {
        buckets =
            insert Text-discrete ip (valid_entries l ip now ++ consumed bytes now ∷ []) l.buckets;
      },
      true,
    )
unfolding allow
recorded_lem l ip bytes now p u m =
    rw (exceeds-ltb l.max_per_ip (usage (valid_entries l ip now) + bytes) (omega arith), allow)
      (ground arith)

-- Of a list that ends in an entry of this moment a positive window drops nothing new.
pub live-push :
    (l : BandwidthLimiter) (ip : Text) (bytes now : ℕ)
    → 0 < l.window
    → usage (
        live {A = ConsumptionEntry}
          (λ e. e.timestamp)
          l.window
          now
          (valid_entries l ip now ++ consumed bytes now ∷ []))
      ≡ usage (valid_entries l ip now) + bytes
live-push l ip bytes now w =
    rw
      (
        keep-append (λ (e : ConsumptionEntry). is_after_cutoff l.window now e.timestamp)
            (valid_entries l ip now) (consumed bytes now ∷ []),
        live-live {A = ConsumptionEntry} (λ e. e.timestamp) l.window now now (entry l.buckets ip)
            (omega arith),
        usage-append (valid_entries l ip now),
      )
      (ground arith)

-- Right after a consumption of some bytes that stayed within the maximum, which `Allow` admits,
-- `IsOverLimit` for the same bytes counts them twice, for a positive window and sums in the range of
-- `int64`.
pub is_over_limit-allow :
    (l : BandwidthLimiter) (ip : Text) (bytes now : ℕ)
    → 0 < bytes
    → 0 < l.window
    → usage (valid_entries l ip now) + bytes ≤ l.max_per_ip
    → l.max_per_ip + bytes < 2 ^ 63
    → ((allow l ip bytes now).1 ≡ true)
      × (is_over_limit (allow l ip bytes now).0 ip bytes now
          ≡ ltb l.max_per_ip (usage (valid_entries l ip now) + bytes + bytes))
unfolding is_over_limit
is_over_limit-allow l ip bytes now p w u m = rw (recorded_lem l ip bytes now p u (omega arith)) (
  refl,
  rw
      (
        lookup-insert_self Text-discrete ip (valid_entries l ip now ++ consumed bytes now ∷ [])
            l.buckets,
        is_over_limit,
      )
      (rw (recorded_lem l ip bytes now p u (omega arith), live-push l ip bytes now w)
        (ground arith)),
)

-- The limiter after a call that records its bytes.
abbrev pub after_record : BandwidthLimiter → Text → ℕ → ℕ → BandwidthLimiter
after_record l ip bytes now = record l {
  buckets = insert Text-discrete ip (valid_entries l ip now ++ consumed bytes now ∷ []) l.buckets;
}

-- With the action `log_only` a call of `Allow` for some bytes records and admits them, whatever was
-- used before.
pub allow-log_only :
    (l : BandwidthLimiter) (ip : Text) (bytes now : ℕ)
    → l.action ≡ log_only
    → 0 < bytes
    → allow l ip bytes now ≡ (after_record l ip bytes now, true)
unfolding allow
allow-log_only l ip bytes now a p = ground arith
