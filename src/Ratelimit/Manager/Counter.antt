-- ===== src/Ratelimit/Manager/Counter.antt =====
-- The counter of all connections: what a call of `AllowConnection` adds, what it takes back, and the
-- bound that it keeps.
use packetpony.Base.{
  ℕ, ◌≡◌, refl, ap, ap₂, ltb, ◌∙◌, Bool, true, false, not, ◌&&◌, ◌||◌, arith, if◌then◌else◌,
  Option-cases, inl, inr, some, none,
}
use packetpony.Base.Int.{ℤ, pos, ◌+ℤ◌, ltb_ℤ, +ℤ_cancel, ◌≤ℤ◌}
use packetpony.Base.Text.{Text}
use packetpony.Ratelimit.Ledger.{entry}
use packetpony.Ratelimit.Attempts.{AttemptLimiter}
use packetpony.Ratelimit.Attempts.Refinement.{count_in_window, record_attempt_lem}
use packetpony.Ratelimit.Connections.{ConnectionLimiter}
use packetpony.Ratelimit.Connections.Refinement.{times_of, allow_lem}
use packetpony.Ratelimit.Manager.{
  RateLimitManager, is_zero, allow_total_connection, release_total_connection, check_attempts,
  check_connections, allow_connection, release_connection,
}

-- The counter, its limit and the action are those of another manager.
pub record SameCounter (m n : RateLimitManager) : Type 0 where
  pub total : m.total_conns ≡ n.total_conns
  pub limit : m.max_total_conns ≡ n.max_total_conns

pub check_attempts-SameCounter :
    (m : RateLimitManager) (ip : Text) (now : ℕ) → SameCounter (check_attempts m ip now).0 m
unfolding check_attempts
check_attempts-SameCounter m ip now = ground arith

pub check_connections-SameCounter :
    (m : RateLimitManager) (ip : Text) (now : ℕ) → SameCounter (check_connections m ip now).0 m
unfolding check_connections
check_connections-SameCounter m ip now = ground arith

pub release_connection-SameCounter :
    (m : RateLimitManager) (ip : Text) → SameCounter (release_connection m ip) m
unfolding release_connection
release_connection-SameCounter m ip = ground arith

allow_total-total :
    (m : RateLimitManager)
    → ((allow_total_connection m).0.total_conns ≡ (
        if (allow_total_connection m).1 && not (is_zero m.max_total_conns)
        then m.total_conns +ℤ pos 1
        else m.total_conns))
unfolding allow_total_connection
allow_total-total m = ground (arith, +ℤ_cancel m.total_conns (pos 1))

pub allow_total-limit :
    (m : RateLimitManager) → (allow_total_connection m).0.max_total_conns ≡ m.max_total_conns
unfolding allow_total_connection
allow_total-limit m = ground arith

release_total-total :
    (m : RateLimitManager) (t : ℤ)
    → pos 0 ≤ℤ m.max_total_conns
    → m.total_conns ≡ (if not (is_zero m.max_total_conns) then t +ℤ pos 1 else t)
    → (release_total_connection m).total_conns ≡ t
unfolding release_total_connection
release_total-total m t h e = ground (arith, +ℤ_cancel t (pos 1))

pub release_total-limit :
    (m : RateLimitManager) → (release_total_connection m).max_total_conns ≡ m.max_total_conns
unfolding release_total_connection
release_total-limit m = ground arith

-- If the limit is not negative, `AllowConnection` adds 1 to the counter exactly if it allows the
-- connection and there is a limit; in all other cases, the roll-back included, the counter is as
-- before.
pub total_conns-allow_connection :
    (m : RateLimitManager) (ip : Text) (now : ℕ)
    → pos 0 ≤ℤ m.max_total_conns
    → ((allow_connection m ip now).0.total_conns ≡ (
        if (allow_connection m ip now).1 && not (is_zero m.max_total_conns)
        then m.total_conns +ℤ pos 1
        else m.total_conns))
unfolding allow_connection
total_conns-allow_connection m ip now h = ground (
  arith,
  check_attempts-SameCounter m ip now,
  allow_total-total (check_attempts m ip now).0,
  allow_total-limit (check_attempts m ip now).0,
  check_connections-SameCounter (allow_total_connection (check_attempts m ip now).0).0 ip now,
  release_total-total
      (check_connections (allow_total_connection (check_attempts m ip now).0).0 ip now).0
      m.total_conns,
)

-- What each of the three checks asks, from the state before the call.
abbrev pub attempt_passes : RateLimitManager → Text → ℕ → Bool
attempt_passes m ip now = elim m.attempt_limiter [
  | none ↦ true
  | some a ↦ ltb (count_in_window a.window now (entry a.attempts ip)) a.max_per_ip
]

abbrev pub total_passes : RateLimitManager → Bool
total_passes m = is_zero m.max_total_conns || ltb_ℤ m.total_conns m.max_total_conns

abbrev pub connection_passes : RateLimitManager → Text → ℕ → Bool
connection_passes m ip now = elim m.conn_limiter [
  | none ↦ true
  | some c ↦ ltb (count_in_window c.window now (times_of c ip)) c.max_per_ip
]

check_attempts-answer :
    (m : RateLimitManager) (ip : Text) (now : ℕ)
    → (check_attempts m ip now).1 ≡ attempt_passes m ip now
unfolding check_attempts
check_attempts-answer m ip now = elim (Option-cases m.attempt_limiter) [
  | inl e ↦ rw e (ground arith)
  | inr (a, e) ↦ rw e (ap (λ (r : AttemptLimiter × Bool). r.1) (record_attempt_lem a ip now))
]

check_connections-answer :
    (m : RateLimitManager) (ip : Text) (now : ℕ)
    → (check_connections m ip now).1 ≡ connection_passes m ip now
unfolding check_connections
check_connections-answer m ip now = elim (Option-cases m.conn_limiter) [
  | inl e ↦ rw e (ground arith)
  | inr (c, e) ↦ rw e (ap (λ (r : ConnectionLimiter × Bool). r.1) (allow_lem c ip now))
]

allow_total-answer : (m : RateLimitManager) → (allow_total_connection m).1 ≡ total_passes m
unfolding allow_total_connection ◌+ℤ◌
allow_total-answer m = ground arith

check_attempts-conn_limiter :
    (m : RateLimitManager) (ip : Text) (now : ℕ)
    → (allow_total_connection (check_attempts m ip now).0).0.conn_limiter ≡ m.conn_limiter
unfolding check_attempts allow_total_connection
check_attempts-conn_limiter m ip now = ground arith

three_checks :
    (a b c : Bool) (x y z w : RateLimitManager)
    → (if◌then◌else◌ {A = RateLimitManager × Bool}
        (not a)
        (x, false)
        (if not b then (y, false) else (if not c then (z, false) else (w, true)))).1
      ≡ (a && b && c)
three_checks a b c x y z w = ground arith

total_passes-SameCounter :
    (m n : RateLimitManager) → SameCounter m n → total_passes m ≡ total_passes n
total_passes-SameCounter m n s = rw (s.total, s.limit) refl

connection_passes_cong :
    (m n : RateLimitManager) (ip : Text) (now : ℕ)
    → m.conn_limiter ≡ n.conn_limiter
    → connection_passes m ip now ≡ connection_passes n ip now
connection_passes_cong m n ip now e = rw (e, connection_passes) refl

pub allow_connection-answer :
    (m : RateLimitManager) (ip : Text) (now : ℕ)
    → (allow_connection m ip now).1
      ≡ (attempt_passes m ip now && total_passes m && connection_passes m ip now)
unfolding allow_connection
allow_connection-answer m ip now =
    let m₁ = (check_attempts m ip now).0 in
    let m₂ = (allow_total_connection m₁).0 in
    three_checks (check_attempts m ip now).1 (allow_total_connection m₁).1
      (check_connections m₂ ip now).1 _ _ _ _
    ∙ ap₂ (λ a b. a && b)
        (ap₂ (λ a b. a && b) (check_attempts-answer m ip now)
          (allow_total-answer m₁
            ∙ total_passes-SameCounter m₁ m (check_attempts-SameCounter m ip now)))
        (check_connections-answer m₂ ip now
          ∙ connection_passes_cong m₂ m ip now (check_attempts-conn_limiter m ip now))
