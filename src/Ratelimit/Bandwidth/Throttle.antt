-- ===== src/Ratelimit/Bandwidth/Throttle.antt =====
-- What the action `throttle` of the bandwidth limiter comes to over many calls of `Allow`.
use packetpony.Base.{
  ℕ, ◌+◌, ◌<◌, ◌≤◌, ◌≡◌, refl, Bool, true, ◌&&◌, List, [], ◌∷◌, ◌++◌, arith, ◌==◌, Bool-cases, inl,
  inr, All,
}
use packetpony.Base.Text.{Text, Text-discrete}
use packetpony.Base.Map.{lookup-insert_self}
use packetpony.Ratelimit.Bandwidth.{BandwidthLimiter, allow, usage, throttle, valid_entries}
use packetpony.Ratelimit.Bandwidth.Refinement.{consumed}
use packetpony.Ratelimit.Bandwidth.Limits.{after_record, live-push}

-- Calls of `Allow` for one client at one moment, in turn, and whether all are admitted.
abbrev pub allow_each : BandwidthLimiter → Text → ℕ → List ℕ → BandwidthLimiter × Bool
allow_each l ip now [] = (l, true)
allow_each l ip now (bytes ∷ sizes) =
    let (l', allowed) = allow l ip bytes now in
    let (l'', rest) = allow_each l' ip now sizes in (l'', allowed && rest)

abbrev pub sum : List ℕ → ℕ
sum [] = 0
sum (n ∷ ns) = n + sum ns

-- What the limiter still counts of a client.
abbrev pub counted : BandwidthLimiter → Text → ℕ → ℕ
counted l ip now = usage (valid_entries l ip now)

small :
    (l : BandwidthLimiter) (ip : Text) (bytes now : ℕ)
    → l.action ≡ throttle
    → 0 < bytes
    → bytes ≤ l.throttle_minimum
    → allow l ip bytes now ≡ (after_record l ip bytes now, true)
unfolding allow Text-discrete
small l ip bytes now a p m = rw (a, allow) (ground arith)

counted-after_record :
    (l : BandwidthLimiter) (ip : Text) (bytes now : ℕ)
    → 0 < l.window
    → counted (after_record l ip bytes now) ip now ≡ counted l ip now + bytes
counted-after_record l ip bytes now w =
    rw
      (lookup-insert_self Text-discrete ip (valid_entries l ip now ++ consumed bytes now ∷ [])
        l.buckets)
      (live-push l ip bytes now w)

-- With the action `throttle` and a positive window, any number of calls of `Allow` for a client at one
-- moment, each for at most the minimum, are all admitted, whatever the maximum is and whatever the
-- client has used before, and the limiter then counts all of their bytes: the minimum bounds a call,
-- not the bytes of a client in a window.
pub allow_each-throttle :
    (l : BandwidthLimiter) (ip : Text) (now : ℕ) (sizes : List ℕ)
    → l.action ≡ throttle
    → 0 < l.window
    → All (λ n. n ≤ l.throttle_minimum) sizes
    → ((allow_each l ip now sizes).1 ≡ true)
      × (counted (allow_each l ip now sizes).0 ip now ≡ counted l ip now + sum sizes)
allow_each-throttle l ip now [] a w h = (refl, omega arith)
allow_each-throttle l ip now (bytes ∷ sizes) a w h = elim (Bool-cases (bytes == 0)) [
  | inl z ↦
      let e : allow l ip bytes now ≡ (l, true) = unfold allow in ground arith in
      let (x, y) = allow_each-throttle l ip now sizes a w h.1 in rw e (x, ground (arith, y, z))
  | inr z ↦
      let (x, y) = allow_each-throttle (after_record l ip bytes now) ip now sizes a w h.1 in
      rw (small l ip bytes now a (ground arith) h.0)
        (x, omega (arith, y, counted-after_record l ip bytes now w))
]
