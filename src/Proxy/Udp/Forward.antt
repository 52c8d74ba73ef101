-- ===== src/Proxy/Udp/Forward.antt =====
-- The part of `HandlePacket` from the bandwidth check on keeps the books.
use packetpony.Base.{
  ℕ, ◌≡◌, refl, sym, subst, inl, inr, true, false, List, [], ◌∷◌, some, get_elem?, Bool-cases,
}
use packetpony.Base.Text.{Text}
use packetpony.Config.{UdpLoggingConfig}
use packetpony.Net.{Net}
use packetpony.Ratelimit.Manager
use packetpony.Ratelimit.Manager.{RateLimitManager}
use packetpony.Ratelimit.Manager.Places.{allow_bandwidth-SameCounter}
use packetpony.Session
use packetpony.Session.{
  Session, Store, Dial, Obtained, connected, refused, other_kind, found, created, failed, modify,
  cancel, close_conn, on_session,
}
use packetpony.Proxy.{
  Effect, bandwidth_logs, rate_limit_drop, bandwidth_limit, bytes_transferred, packets_transferred,
  sent, log_error, error_total, failed_with, target_write,
}
use packetpony.Proxy.Udp.{
  UdpProxy, emit, udp_logging, cleanup_session, forward, Write, wrote, write_error,
}
use packetpony.Proxy.Gauge.{IsQuiet, bandwidth_logs-IsQuiet}
use packetpony.Proxy.Udp.Balance.{
  Balanced, Yields, emit-Balanced, limiter-Balanced, session-Balanced, cleanup_session-Yields,
}

-- The store after a packet that was forwarded.
forwarded-Balanced :
    {lost : ℕ} (p : UdpProxy) (h n : ℕ) (es : List Effect)
    → IsQuiet es
    → Balanced lost p
    → Balanced lost (
        emit es
          (record p { store = Session.add_packets_sent 1 (Session.add_bytes_sent n p.store h) h }))
unfolding Session.add_packets_sent Session.add_bytes_sent
forwarded-Balanced p h n es q b = emit-Balanced es _ q (
    session-Balanced (λ s. record s { packets_sent = Session.add64 s.packets_sent 1 }) _ h
      (λ s. (refl, refl, refl))
      (session-Balanced (λ s. record s { bytes_sent = Session.add64 s.bytes_sent n }) p h
        (λ s. (refl, refl, refl)) b))

-- After the bandwidth check.
abbrev pub checked : UdpProxy → Text → ℕ → ℕ → UdpProxy
checked p ip len now =
    let m = (Manager.allow_bandwidth p.limiter ip len now).0 in
    emit
      (bandwidth_logs (Manager.is_bandwidth_over_limit m ip len now) (Manager.get_action m)
        (Manager.allow_bandwidth p.limiter ip len now).1)
      (record p { limiter = m })

pub checked-Balanced :
    {lost : ℕ} (p : UdpProxy) (ip : Text) (len now : ℕ)
    → Balanced lost p
    → Balanced lost (checked p ip len now)
checked-Balanced p ip len now b =
    emit-Balanced _ _ (bandwidth_logs-IsQuiet _ _ _)
      (limiter-Balanced _ p (allow_bandwidth-SameCounter p.limiter ip len now) b)

forward_denied :
    (net : Net) (p : UdpProxy) (h : ℕ) (ip : Text) (len now : ℕ) (write : Write)
    → (Manager.allow_bandwidth p.limiter ip len now).1 ≡ false
    → forward net p h ip len now write
      ≡ some (emit (rate_limit_drop bandwidth_limit ∷ []) (checked p ip len now))
unfolding forward
forward_denied net p h ip len now write e = rw (e, forward) refl

forward_wrote :
    (net : Net) (p : UdpProxy) (h : ℕ) (ip : Text) (len now n : ℕ)
    → (Manager.allow_bandwidth p.limiter ip len now).1 ≡ true
    → forward net p h ip len now (wrote n)
      ≡ some (
          emit
            (bytes_transferred sent n ∷ packets_transferred sent ∷ [])
            (record (checked p ip len now) {
              store = Session.add_packets_sent 1 (Session.add_bytes_sent n p.store h) h;
            }))
unfolding forward
forward_wrote net p h ip len now n e = rw (e, forward) refl

forward_failed :
    (net : Net) (p : UdpProxy) (h : ℕ) (ip : Text) (len now : ℕ)
    → (Manager.allow_bandwidth p.limiter ip len now).1 ≡ true
    → forward net p h ip len now write_error
      ≡ cleanup_session net
          (emit
            (log_error (failed_with target_write) ∷ error_total target_write ∷ [])
            (checked p ip len now))
          h
          now
unfolding forward
forward_failed net p h ip len now e = rw (e, forward) refl

pub forward-Yields :
    {lost : ℕ} (net : Net) (p : UdpProxy) (h : ℕ) (ip : Text) (len now : ℕ) (write : Write)
    (l : UdpLoggingConfig) (s : Session)
    → udp_logging p.config ≡ some l
    → get_elem? p.store.heap h ≡ some s
    → Balanced lost p
    → Yields lost (forward net p h ip len now write)
forward-Yields net p h ip len now (wrote n) l s c g b =
    elim (Bool-cases (Manager.allow_bandwidth p.limiter ip len now).1) [
      | inr e ↦
          subst (Yields _) (sym (forward_denied net p h ip len now (wrote n) e))
            (emit-Balanced _ _ (refl, refl) (checked-Balanced p ip len now b))
      | inl e ↦ subst (Yields _) (sym (forward_wrote net p h ip len now n e)) (
          forwarded-Balanced (checked p ip len now) h n _ (refl, refl)
            (checked-Balanced p ip len now b))
    ]
forward-Yields net p h ip len now write_error l s c g b =
    elim (Bool-cases (Manager.allow_bandwidth p.limiter ip len now).1) [
      | inr e ↦
          subst (Yields _) (sym (forward_denied net p h ip len now write_error e))
            (emit-Balanced _ _ (refl, refl) (checked-Balanced p ip len now b))
      | inl e ↦ subst (Yields _) (sym (forward_failed net p h ip len now e)) (
          cleanup_session-Yields net _ h now l s c g
            (emit-Balanced _ _ (refl, refl) (checked-Balanced p ip len now b)))
    ]
