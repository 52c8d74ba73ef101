-- ===== src/Proxy/Tcp/Books.antt =====
-- The books of the TCP proxy: each part of `HandleConnection` keeps the counter of the limiter and the
-- gauge equal to the number of open connections.
use packetpony.Base.{
  ℕ, suc, ◌+◌, ◌≡◌, refl, subst, inl, inr, Bool, true, false, List, [], ◌∷◌, Option, some, none,
  arith, if◌then◌else◌, Bool-cases, Option-cases,
}
use packetpony.Base.Text.{Text, text}
use packetpony.Net.{Net, Addr}
use packetpony.Acl.{is_allowed}
use packetpony.Ratelimit.Manager
use packetpony.Ratelimit.Manager.{RateLimitManager}
use packetpony.Ratelimit.Manager.Places.{Holds, connect-Holds, disconnect-Holds}
use packetpony.Proxy.{
  Effect, connections_active_dec, connections_active_inc, connections_total, accepted,
  log_connection, log_error, failed_with, target_connect, error_total,
}
use packetpony.Proxy.Gauge.{incs, decs, incs-append, decs-append, IsQuiet}
use packetpony.Proxy.Tcp.{
  TcpProxy, emit, Connection, open_connection, release, connection_event, close_event,
}

-- The proxy has `n` connections.
pub record Balanced (p : TcpProxy) (n : ℕ) : Type 0 where
  pub places : Holds p.limiter n
  pub gauge : incs p.trace ≡ decs p.trace + n

pub emit-Balanced :
    (es : List Effect) (p : TcpProxy) (n : ℕ) → IsQuiet es → Balanced p n → Balanced (emit es p) n
emit-Balanced es p n q b = record {
  places = b.places;
  gauge = omega (arith, incs-append p.trace es, decs-append p.trace es, q.0, q.1, b.gauge);
}

pub release-Balanced :
    (net : Net) (p : TcpProxy) (client : Addr) (n : ℕ)
    → Balanced p (suc n)
    → Balanced (release net p client) n
release-Balanced net p client n b = record {
  places = disconnect-Holds p.limiter n (net.string client.ip) b.places;
  gauge = ground (
    arith,
    incs-append p.trace (connections_active_dec ∷ []),
    decs-append p.trace (connections_active_dec ∷ []),
    b.gauge,
  );
}

abbrev pub count_of {ℓ} : {A : Type ℓ} → Option A → ℕ
count_of none = 0
count_of (some a) = 1

-- If the counter of the limiter and the gauge are the number of the open connections, they are so
-- after `HandleConnection` up to its copies: it gives back what it took if it returns before, on
-- whichever branch, and the connection counts as one more if its copies start.
pub open_connection-Balanced :
    (net : Net) (p : TcpProxy) (client : Addr) (dial_error : Option Text) (now n : ℕ)
    → Balanced p n
    → Balanced
        (open_connection net p client dial_error now).0
        (n + count_of (open_connection net p client dial_error now).1)
unfolding open_connection
open_connection-Balanced net p client dial_error now n b =
    elim (Option-cases (net.split_host_port p.config.target_address)) [
      | inl e ↦
          rw (e, open_connection)
            (subst (Balanced _) (omega arith) (emit-Balanced _ p n (refl, refl) b))
      | inr (t, e) ↦ elim (Bool-cases (is_allowed p.allowlist client.ip)) [
        | inr a ↦
            rw (e, open_connection)
              (rw a (subst (Balanced _) (omega arith) (emit-Balanced _ p n (refl, refl) b)))
        | inl a ↦
            elim (Bool-cases (Manager.allow_connection p.limiter (net.string client.ip) now).1) [
              | inr r ↦
                  rw (e, open_connection)
                    (rw a (
                      rw r (
                        subst (Balanced _) (omega arith) (
                          emit-Balanced _
                            (record p { limiter = (Manager.allow_connection p.limiter ip now).0 }) n
                            (refl, refl) (record { places = denied r; gauge = b.gauge })))))
              | inl r ↦ rw (e, open_connection) (rw a (rw r (dialled dial_error r)))
            ]
      ]
    ]
  where
    ip : Text
    ip = net.string client.ip

    denied :
        (Manager.allow_connection p.limiter ip now).1 ≡ false
        → Holds (Manager.allow_connection p.limiter ip now).0 n
    denied r =
        subst
          (λ (a : Bool).
            Holds (Manager.allow_connection p.limiter ip now).0 (if a then n + 1 else n))
          r (connect-Holds p.limiter n ip now b.places)

    admitted :
        (Manager.allow_connection p.limiter ip now).1 ≡ true
        → Holds (Manager.allow_connection p.limiter ip now).0 (n + 1)
    admitted r =
        subst
          (λ (a : Bool).
            Holds (Manager.allow_connection p.limiter ip now).0 (if a then n + 1 else n))
          r (connect-Holds p.limiter n ip now b.places)

    events : List Effect
    events =
        log_connection (connection_event net p.config client (text "open") now)
        ∷ connections_total accepted
        ∷ connections_active_inc
        ∷ []

    opened :
        (Manager.allow_connection p.limiter ip now).1 ≡ true
        → Balanced
            (emit events (record p { limiter = (Manager.allow_connection p.limiter ip now).0 }))
            (n + 1)
    opened r = record {
      places = admitted r;
      gauge = ground (arith, incs-append p.trace events, decs-append p.trace events, b.gauge);
    }

    conn : Connection
    conn = record {
      client = client;
      start_time = now;
      bytes_sent = 0;
      bytes_received = 0;
      written_sent = 0;
      written_received = 0;
      sending = true;
      receiving = true;
      errors = [];
    }

    failure : Text → List Effect
    failure e =
        log_error (failed_with target_connect)
        ∷ error_total target_connect
        ∷ log_connection (close_event net p.config conn e now)
        ∷ []

    dialled :
        (d : Option Text)
        → (Manager.allow_connection p.limiter ip now).1 ≡ true
        → (λ (x : TcpProxy × Option Connection). Balanced x.0 (n + count_of x.1))
            (elim d as (λ x. TcpProxy × Option Connection) [
              | none ↦ (
                emit events (record p { limiter = (Manager.allow_connection p.limiter ip now).0 }),
                some conn,
              )
              | some e ↦ (
                release net
                    (emit (failure e) (
                      emit events
                        (record p { limiter = (Manager.allow_connection p.limiter ip now).0 })))
                    client,
                none,
              )
            ])
    dialled none r = opened r
    dialled (some e) r = subst (Balanced _) (omega arith) (
        release-Balanced net _ client n (
          subst (Balanced _) (omega arith)
            (emit-Balanced (failure e) _ (n + 1) (refl, refl) (opened r))))
