-- ===== src/Proxy/Tcp/Closing.antt =====
-- A TCP proxy closes none of its limiters, whatever its connections do.
use packetpony.Base.{
  ℕ, ◌≡◌, refl, ◌∙◌, Bool, true, false, List, [], ◌∷◌, Option, arith, get_elem?, Option-cases,
  Bool-cases, inl, inr, if◌then◌else◌,
}
use packetpony.Base.Text.{Text}
use packetpony.Net.{Net, Addr}
use packetpony.Ratelimit.Manager
use packetpony.Ratelimit.Manager.Closing.{
  closed_limiters, allow_connection-closed, allow_bandwidth-closed, release_connection-closed,
  release_total-closed,
}
use packetpony.Proxy.{Direction, sent, received}
use packetpony.Proxy.Tcp.{
  TcpProxy, Chunk, Progress, goes_on, ended, Connection, copy_round, end_copy, open_connection,
  relay, release, finish,
}
use packetpony.Proxy.Tcp.Serve.{Event, arrive, round, step, serve, is_running}

-- Which limiters of a proxy are closed.
abbrev closed : TcpProxy → Bool × Bool × Bool
closed p = closed_limiters p.limiter

copy_round-closed :
    (p : TcpProxy) (ip : Text) (written counter : ℕ) (k : Chunk) (now : ℕ)
    → closed (copy_round p ip written counter k now).0 ≡ closed p
unfolding copy_round
copy_round-closed p ip written counter k now =
    ground (arith, allow_bandwidth-closed p.limiter ip k.read now)

end_copy-closed :
    (d : Direction) (r : Progress) (p : TcpProxy) (c : Connection)
    → closed (end_copy d r p c).0 ≡ closed p
end_copy-closed d goes_on p c = refl
end_copy-closed sent (ended e) p c = refl
end_copy-closed received (ended e) p c = refl

if_closed :
    (z : Bool × Bool × Bool) (b : Bool) (x y : TcpProxy × Connection)
    → closed x.0 ≡ z
    → closed y.0 ≡ z
    → closed (if b then x else y).0 ≡ z
if_closed z true x y s t = s
if_closed z false x y s t = t

relay-closed :
    (net : Net) (p : TcpProxy) (c : Connection) (d : Direction) (k : Chunk) (now : ℕ)
    → closed (relay net p c d k now).0 ≡ closed p
unfolding relay
relay-closed net p c sent k now =
    let r = copy_round p (net.string c.client.ip) c.written_sent c.bytes_sent k now in
    let ended_copy =
      end_copy-closed sent r.3 r.0 (record c { written_sent = r.1; bytes_sent = r.2 })
      ∙ copy_round-closed p (net.string c.client.ip) c.written_sent c.bytes_sent k now in
    if_closed (closed p) c.sending
      (end_copy sent r.3 r.0 (record c { written_sent = r.1; bytes_sent = r.2 })) (p, c) ended_copy
      refl
relay-closed net p c received k now =
    let r = copy_round p (net.string c.client.ip) c.written_received c.bytes_received k now in
    let ended_copy =
      end_copy-closed received r.3 r.0 (record c { written_received = r.1; bytes_received = r.2 })
      ∙ copy_round-closed p (net.string c.client.ip) c.written_received c.bytes_received k now in
    if_closed (closed p) c.receiving
      (end_copy received r.3 r.0 (record c { written_received = r.1; bytes_received = r.2 })) (p, c)
      ended_copy refl

release-closed :
    (net : Net) (p : TcpProxy) (client : Addr) → closed (release net p client) ≡ closed p
release-closed net p client =
    release_connection-closed (Manager.release_total_connection p.limiter) (net.string client.ip)
    ∙ release_total-closed p.limiter

open_connection-closed :
    (net : Net) (p : TcpProxy) (client : Addr) (dial_error : Option Text) (now : ℕ)
    → closed (open_connection net p client dial_error now).0 ≡ closed p
unfolding open_connection
open_connection-closed net p client dial_error now = ground (
  arith,
  allow_connection-closed p.limiter (net.string client.ip) now,
  release_connection-closed
      (Manager.release_total_connection
        (Manager.allow_connection p.limiter (net.string client.ip) now).0)
      (net.string client.ip),
  release_total-closed (Manager.allow_connection p.limiter (net.string client.ip) now).0,
)

step-closed :
    (net : Net) (p : TcpProxy) (cs : List Connection) (e : Event)
    → closed (step net (p, cs) e).0 ≡ closed p
unfolding step finish
step-closed net p cs (arrive client dial_error now) =
    open_connection-closed net p client dial_error now
step-closed net p cs (round i d k now) = elim (Option-cases (get_elem? cs i)) [
  | inl e ↦ rw (e, step) refl
  | inr (c, e) ↦ elim (Bool-cases (is_running (relay net p c d k now).1)) [
    | inl r ↦ rw (e, step) (rw r (relay-closed net p c d k now))
    | inr r ↦
        rw (e, step)
          (rw r (
            release-closed net (relay net p c d k now).0 (relay net p c d k now).1.client
            ∙ relay-closed net p c d k now))
  ]
]

-- Serving connections closes no limiter.
pub serve-closed :
    (net : Net) (es : List Event) (p : TcpProxy) (cs : List Connection)
    → closed_limiters (serve net (p, cs) es).0.limiter ≡ closed_limiters p.limiter
unfolding serve
serve-closed net [] p cs = refl
serve-closed net (e ∷ es) p cs = serve-closed net es _ _ ∙ step-closed net p cs e
