-- ===== src/Proxy/Tcp/Rounds.antt =====
-- The books of the TCP proxy through the rounds of its copies and the end of a connection.
use packetpony.Base.{ℕ, suc, refl, inl, inr, Bool, true, false, List, Bool-cases, ◌==◌}
use packetpony.Base.Text.{Text}
use packetpony.Net.{Net}
use packetpony.Ratelimit.Manager
use packetpony.Ratelimit.Manager.{RateLimitManager}
use packetpony.Ratelimit.Manager.Places.{Holds-SameCounter, allow_bandwidth-SameCounter}
use packetpony.Proxy.{Effect, Direction, sent, received, bandwidth_logs}
use packetpony.Proxy.Gauge.{bandwidth_logs-IsQuiet}
use packetpony.Proxy.Tcp.{
  TcpProxy, emit, Chunk, Progress, goes_on, ended, copy_round, Connection, relay, end_copy, finish,
}
use packetpony.Proxy.Tcp.Books.{Balanced, emit-Balanced, release-Balanced}

copy_round-Balanced :
    (p : TcpProxy) (ip : Text) (written counter : ℕ) (k : Chunk) (now n : ℕ)
    → Balanced p n
    → Balanced (copy_round p ip written counter k now).0 n
unfolding copy_round
copy_round-Balanced p ip written counter k now n b = elim (Bool-cases (k.read == 0)) [
  | inl e ↦ rw (e, copy_round) b
  | inr e ↦ elim (Bool-cases (Manager.allow_bandwidth p.limiter ip k.read now).1) [
    | inl a ↦ rw (e, copy_round) (rw a (checked true))
    | inr a ↦ rw (e, copy_round) (rw a (emit-Balanced _ _ n (refl, refl) (checked false)))
  ]
]
  where
    limited : TcpProxy
    limited = record p { limiter = (Manager.allow_bandwidth p.limiter ip k.read now).0 }

    logs : Bool → List Effect
    logs allowed =
        bandwidth_logs (Manager.is_bandwidth_over_limit limited.limiter ip k.read now)
          (Manager.get_action limited.limiter) allowed

    checked : (allowed : Bool) → Balanced (emit (logs allowed) limited) n
    checked allowed =
        emit-Balanced (logs allowed) limited n
          (bandwidth_logs-IsQuiet (Manager.is_bandwidth_over_limit limited.limiter ip k.read now)
            (Manager.get_action limited.limiter) allowed)
          (record {
            places =
                Holds-SameCounter limited.limiter p.limiter n
                  (allow_bandwidth-SameCounter p.limiter ip k.read now) b.places;
            gauge = b.gauge;
          })

end_copy-Balanced :
    (d : Direction) (r : Progress) (p : TcpProxy) (c : Connection) (n : ℕ)
    → Balanced p n
    → Balanced (end_copy d r p c).0 n
end_copy-Balanced d goes_on p c n b = b
end_copy-Balanced sent (ended e) p c n b = emit-Balanced _ p n (refl, refl) b
end_copy-Balanced received (ended e) p c n b = emit-Balanced _ p n (refl, refl) b

pub relay-Balanced :
    (net : Net) (p : TcpProxy) (c : Connection) (d : Direction) (k : Chunk) (now n : ℕ)
    → Balanced p n
    → Balanced (relay net p c d k now).0 n
unfolding relay
relay-Balanced net p c sent k now n b = elim (Bool-cases c.sending) [
  | inl e ↦ rw (e, relay) (end_copy-Balanced sent _ _ _ n (copy_round-Balanced p _ _ _ k now n b))
  | inr e ↦ rw (e, relay) b
]
relay-Balanced net p c received k now n b = elim (Bool-cases c.receiving) [
  | inl e ↦
      rw (e, relay) (end_copy-Balanced received _ _ _ n (copy_round-Balanced p _ _ _ k now n b))
  | inr e ↦ rw (e, relay) b
]

pub finish-Balanced :
    (net : Net) (p : TcpProxy) (c : Connection) (now n : ℕ)
    → Balanced p (suc n)
    → Balanced (finish net p c now) n
unfolding finish
finish-Balanced net p c now n b =
    release-Balanced net _ c.client n (emit-Balanced _ p (suc n) (refl, refl) b)
