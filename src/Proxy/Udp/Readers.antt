-- ===== src/Proxy/Udp/Readers.antt =====
-- The rounds of `startSessionReader`, with the deferred `cleanupSession` at its end, keep the books.
use packetpony.Base.{
  ℕ, ◌>>=◌, ◌≡◌, refl, sym, subst, inl, inr, Bool, true, false, not, [], ◌∷◌, Option, some, none,
  arith, ◌==◌, if◌then◌else◌, get_elem?, keep, Bool-cases,
}
use packetpony.Config.{UdpLoggingConfig}
use packetpony.Net.{Net}
use packetpony.Session.{Session}
use packetpony.Proxy.{target_read, log_error, error_total, failed_with}
use packetpony.Proxy.Udp.{
  UdpProxy, emit, udp_logging, cleanup_session, Read, read_timeout, read_error, read_bytes,
  reader_round, reader_step, respond,
}
use packetpony.Proxy.Udp.Balance.{Balanced, Yields, emit-Balanced, cleanup_session-Yields}
use packetpony.Proxy.Udp.Respond.{Rounds, respond-Rounds}

round_cancelled :
    (net : Net) (p : UdpProxy) (h : ℕ) (outcome : Read) (now : ℕ) (s : Session)
    → get_elem? p.store.heap h ≡ some s
    → s.cancelled ≡ true
    → reader_round net p h outcome now ≡ some (p, false)
unfolding reader_round
round_cancelled net p h outcome now s g e = ground arith

abbrev outcome_of : Net → UdpProxy → ℕ → Session → Read → ℕ → Option (UdpProxy × Bool)
outcome_of net p h s read_timeout now = some (p, false)
outcome_of net p h s read_error now =
    some (emit (log_error (failed_with target_read) ∷ error_total target_read ∷ []) p, false)
outcome_of net p h s (read_bytes n written) now =
    if n == 0 then some (p, true) else respond net p h s n written now

round_active :
    (net : Net) (p : UdpProxy) (h : ℕ) (outcome : Read) (now : ℕ) (s : Session)
    → get_elem? p.store.heap h ≡ some s
    → s.cancelled ≡ false
    → reader_round net p h outcome now ≡ outcome_of net p h s outcome now
unfolding reader_round
round_active net p h read_timeout now s g e = ground arith
round_active net p h read_error now s g e = ground arith
round_active net p h (read_bytes n written) now s g e = ground arith

outcome-Rounds :
    {lost : ℕ} (net : Net) (p : UdpProxy) (h : ℕ) (s : Session) (outcome : Read) (now : ℕ)
    (l : UdpLoggingConfig)
    → udp_logging p.config ≡ some l
    → get_elem? p.store.heap h ≡ some s
    → Balanced lost p
    → Rounds lost h (outcome_of net p h s outcome now)
outcome-Rounds net p h s read_timeout now l c g b = (b, (s, g), (l, c))
outcome-Rounds net p h s read_error now l c g b = (emit-Balanced _ _ (refl, refl) b, (s, g), (l, c))
outcome-Rounds net p h s (read_bytes n written) now l c g b = elim (Bool-cases (n == 0)) [
  | inl e ↦ rw e (b, (s, g), (l, c))
  | inr e ↦ rw e (respond-Rounds net p h s n written now l c g b)
]

reader_round-Rounds :
    {lost : ℕ} (net : Net) (p : UdpProxy) (h : ℕ) (outcome : Read) (now : ℕ) (l : UdpLoggingConfig)
    (s : Session)
    → udp_logging p.config ≡ some l
    → get_elem? p.store.heap h ≡ some s
    → Balanced lost p
    → Rounds lost h (reader_round net p h outcome now)
reader_round-Rounds net p h outcome now l s c g b = elim (Bool-cases s.cancelled) [
  | inl e ↦ subst (Rounds _ h) (sym (round_cancelled net p h outcome now s g e)) (b, (s, g), (l, c))
  | inr e ↦
      subst (Rounds _ h) (sym (round_active net p h outcome now s g e))
        (outcome-Rounds net p h s outcome now l c g b)
]

-- For a listener with a `udp.logging` section and books as `HandlePacket` leaves them, a round of a
-- reader, for a session of the map or one that has left it, does not panic and leaves the books in
-- order with as many connections `lost` as before, its `cleanupSession` included where the round is
-- the last.
pub reader_step-Yields :
    {lost : ℕ} (net : Net) (p : UdpProxy) (h : ℕ) (outcome : Read) (now : ℕ) (l : UdpLoggingConfig)
    (s : Session)
    → udp_logging p.config ≡ some l
    → get_elem? p.store.heap h ≡ some s
    → Balanced lost p
    → Yields lost (reader_step net p h outcome now)
unfolding reader_step
reader_step-Yields {lost} net p h outcome now l s c g b =
    ended (reader_round net p h outcome now) (reader_round-Rounds net p h outcome now l s c g b)
  where
    ended :
        (r : Option (UdpProxy × Bool))
        → Rounds lost h r
        → Yields lost (
            r >>= λ (x : UdpProxy × Bool). elim x.1 as (λ y. Option UdpProxy) [
              | true ↦ some x.0
              | false ↦
                  cleanup_session net
                    (record x.0 { readers = keep (λ r. not (r == h)) x.0.readers })
                    h
                    now
            ])
    ended none z = absurd z
    ended (some (q, true)) (bq, i, j) = bq
    ended (some (q, false)) (bq, (s', gq), (l', cq)) =
        cleanup_session-Yields net _ h now l' s' cq gq
          (record { distinct = bq.distinct; live = bq.live; places = bq.places; gauge = bq.gauge })
