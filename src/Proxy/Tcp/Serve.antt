-- ===== src/Proxy/Tcp/Serve.antt =====
-- Any number of connections of the TCP proxy that come, relay and end in any order.
use packetpony.Base.{
  ℕ, ◌+◌, sym, subst, inl, inr, Bool, ◌||◌, List, [], ◌∷◌, ◌++◌, Option, some, none, arith,
  if◌then◌else◌, length, length-append, get_elem?, set, without, length-without, length-set,
  Bool-cases, Option-cases,
}
use packetpony.Base.Text.{Text}
use packetpony.Net.{Net, Addr}
use packetpony.Proxy.{Direction}
use packetpony.Proxy.Tcp.{TcpProxy, Chunk, Connection, open_connection, relay, finish}
use packetpony.Proxy.Tcp.Books.{Balanced, count_of, open_connection-Balanced}
use packetpony.Proxy.Tcp.Rounds.{relay-Balanced, finish-Balanced}

-- The connections that the proxy handles at once, each in its own goroutine.
pub data Event : Type 0 where
  arrive : Addr → Option Text → ℕ → Event
  round : ℕ → Direction → Chunk → ℕ → Event

abbrev pub is_running : Connection → Bool
is_running c = c.sending || c.receiving

-- One event: a new connection is added if its copies start, and a connection is finished and taken
-- out when neither of its copies runs any more.
unfoldable pub step : Net → TcpProxy × List Connection → Event → TcpProxy × List Connection
step net (p, cs) (arrive client dial_error now) =
    let (q, opened) = open_connection net p client dial_error now in
    (q, elim opened [ none ↦ cs | some c ↦ cs ++ c ∷ [] ])
step net (p, cs) (round i d k now) = elim (get_elem? cs i) [
  | none ↦ (p, cs)
  | some c ↦
      let (q, c') = relay net p c d k now in
      if is_running c' then (q, set cs i c') else (finish net q c' now, without cs i)
]

unfoldable pub serve : Net → TcpProxy × List Connection → List Event → TcpProxy × List Connection
serve net s [] = s
serve net s (e ∷ es) = serve net (step net s e) es

arrive-Balanced :
    (p : TcpProxy) (o : Option Connection) (cs : List Connection)
    → Balanced p (length cs + count_of o)
    → Balanced p (length (elim o as (λ x. List Connection) [ none ↦ cs | some c ↦ cs ++ c ∷ [] ]))
arrive-Balanced p none cs b = subst (Balanced p) (omega arith) b
arrive-Balanced p (some c) cs b = subst (Balanced p) (omega (arith, length-append cs (c ∷ []))) b

step-Balanced :
    (net : Net) (p : TcpProxy) (cs : List Connection) (e : Event)
    → Balanced p (length cs)
    → Balanced (step net (p, cs) e).0 (length (step net (p, cs) e).1)
unfolding step
step-Balanced net p cs (arrive client dial_error now) b =
    arrive-Balanced _ (open_connection net p client dial_error now).1 cs
      (open_connection-Balanced net p client dial_error now (length cs) b)
step-Balanced net p cs (round i d k now) b = elim (Option-cases (get_elem? cs i)) [
  | inl e ↦ rw (e, step) b
  | inr (c, e) ↦ elim (Bool-cases (is_running (relay net p c d k now).1)) [
    | inl r ↦
        rw (e, step)
          (rw r (
            subst (Balanced _) (sym (length-set cs i _))
              (relay-Balanced net p c d k now (length cs) b)))
    | inr r ↦
        rw (e, step)
          (rw r (
            finish-Balanced net _ _ now _ (
              subst (Balanced _) (length-without cs i c e)
                (relay-Balanced net p c d k now (length cs) b))))
  ]
]

-- If the counter of the limiter, where it has a limit, and the gauge of the metrics are the number
-- of the open connections of the TCP proxy, they are so after any list of events, in which
-- connections come, relay in both directions and end in any order.
pub serve-Balanced :
    (net : Net) (es : List Event) (p : TcpProxy) (cs : List Connection)
    → Balanced p (length cs)
    → Balanced (serve net (p, cs) es).0 (length (serve net (p, cs) es).1)
unfolding serve
serve-Balanced net [] p cs b = b
serve-Balanced net (e ∷ es) p cs b = serve-Balanced net es _ _ (step-Balanced net p cs e b)
