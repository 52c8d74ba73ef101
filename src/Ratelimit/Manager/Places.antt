-- ===== src/Ratelimit/Manager/Places.antt =====
-- internal/ratelimit/limiter.go: the counter of connections and the places that are held.
use packetpony.Base.{
  ℕ, zero, suc, ◌+◌, ◌≤◌, ◌≡◌, ◌⊎◌, true, List, [], ◌∷◌, arith, if◌then◌else◌, Bool-cases, inl, inr,
}
use packetpony.Base.Int.{pos, ◌+ℤ◌, ◌-ℤ◌, pos_part, ◌≤ℤ◌}
use packetpony.Base.Text.{Text}
use packetpony.Ratelimit.Manager.{
  RateLimitManager, is_zero, allow_total_connection, release_total_connection, check_attempts,
  check_connections, allow_connection, release_connection, allow_bandwidth,
}
use packetpony.Ratelimit.Manager.Counter.{
  SameCounter, check_attempts-SameCounter, check_connections-SameCounter,
  release_connection-SameCounter, allow_total-limit, release_total-limit,
  total_conns-allow_connection, allow_connection-answer,
}

-- A connection that is open holds one place, if there is a limit; the places are within the limit.
pub record Holds (m : RateLimitManager) (open_count : ℕ) : Type 0 where
  pub limited : pos 0 ≤ℤ m.max_total_conns
  pub counted : m.total_conns ≡ (if is_zero m.max_total_conns then pos 0 else pos open_count)
  pub bounded : (is_zero m.max_total_conns ≡ true) ⊎ (open_count ≤ pos_part m.max_total_conns)

-- A connection is asked for, or one that was allowed ends. Its two deferred calls run in this order.
pub data Call : Type 0 where
  connect : Text → ℕ → Call
  disconnect : Text → Call

pub serve : RateLimitManager → ℕ → List Call → RateLimitManager × ℕ
serve m n [] = (m, n)
serve m n (connect ip now ∷ cs) =
    let (m', allowed) = allow_connection m ip now in serve m' (if allowed then n + 1 else n) cs
serve m zero (disconnect ip ∷ cs) = serve m zero cs
serve m (suc n) (disconnect ip ∷ cs) =
    serve (release_connection (release_total_connection m) ip) n cs

max_total_conns-allow_connection :
    (m : RateLimitManager) (ip : Text) (now : ℕ)
    → (allow_connection m ip now).0.max_total_conns ≡ m.max_total_conns
unfolding allow_connection
max_total_conns-allow_connection m ip now = ground (
  arith,
  check_attempts-SameCounter m ip now,
  allow_total-limit (check_attempts m ip now).0,
  check_connections-SameCounter (allow_total_connection (check_attempts m ip now).0).0 ip now,
  release_total-limit
      (check_connections (allow_total_connection (check_attempts m ip now).0).0 ip now).0,
)

pub connect-Holds :
    (m : RateLimitManager) (n : ℕ) (ip : Text) (now : ℕ)
    → Holds m n
    → Holds (allow_connection m ip now).0 (if (allow_connection m ip now).1 then n + 1 else n)
unfolding ◌+ℤ◌
connect-Holds m n ip now h = elim (Bool-cases (allow_connection m ip now).1) [
  | inl a ↦ rw a (record {
    limited = rw limit h.limited;
    counted = ground (arith, total_conns-allow_connection m ip now h.limited, limit, h.counted);
    bounded = ground (arith, limit, allow_connection-answer m ip now);
  })
  | inr a ↦ rw a (record {
    limited = rw limit h.limited;
    counted = ground (arith, total_conns-allow_connection m ip now h.limited, limit, h.counted);
    bounded = rw limit h.bounded;
  })
]
  where
    limit : (allow_connection m ip now).0.max_total_conns ≡ m.max_total_conns
    limit = max_total_conns-allow_connection m ip now

pub Holds-SameCounter : (m n : RateLimitManager) (k : ℕ) → SameCounter m n → Holds n k → Holds m k
Holds-SameCounter m n k s h = record {
  limited = rw s.limit h.limited;
  counted = rw (s.limit, s.total) h.counted;
  bounded = rw s.limit h.bounded;
}

pub allow_bandwidth-SameCounter :
    (m : RateLimitManager) (ip : Text) (bytes now : ℕ)
    → SameCounter (allow_bandwidth m ip bytes now).0 m
unfolding allow_bandwidth
allow_bandwidth-SameCounter m ip bytes now = ground arith

pub release_connection-Holds :
    (m : RateLimitManager) (k : ℕ) (ip : Text) → Holds m k → Holds (release_connection m ip) k
release_connection-Holds m k ip h = Holds-SameCounter _ m k (release_connection-SameCounter m ip) h

pub release_total-Holds :
    (m : RateLimitManager) (n : ℕ) → Holds m (suc n) → Holds (release_total_connection m) n
unfolding release_total_connection ◌-ℤ◌
release_total-Holds m n h = ground arith

pub disconnect-Holds :
    (m : RateLimitManager) (n : ℕ) (ip : Text)
    → Holds m (suc n)
    → Holds (release_connection (release_total_connection m) ip) n
disconnect-Holds m n ip h = release_connection-Holds _ n ip (release_total-Holds m n h)

-- If the counter, where there is a limit, is the number of the open connections and within the
-- limit, it is so after any list of connections that ask for a place or give theirs back.
pub serve-Holds :
    (cs : List Call) (m : RateLimitManager) (n : ℕ)
    → Holds m n
    → Holds (serve m n cs).0 (serve m n cs).1
unfolding serve
serve-Holds [] m n h = h
serve-Holds (connect ip now ∷ cs) m n h = serve-Holds cs _ _ (connect-Holds m n ip now h)
serve-Holds (disconnect ip ∷ cs) m zero h = serve-Holds cs m zero h
serve-Holds (disconnect ip ∷ cs) m (suc n) h = serve-Holds cs _ n (disconnect-Holds m n ip h)
