-- ===== src/Listener/Stopped.antt =====
-- internal/listener/manager.go: what Start, Stop and GracefulShutdown leave of the listeners.
use packetpony.Base.{
  ℕ, ◌≡◌, refl, subst, Bool, true, false, List, [], ◌∷◌, Option, some, none, All, Bool-cases,
  Option-cases, inl, inr, length, suc, ap, arith,
}
use packetpony.Base.Text.{Text}
use packetpony.Ratelimit.Manager
use packetpony.Ratelimit.Manager.{RateLimitManager}
use packetpony.Listener.{
  Listener, TcpListener, tcp_listener, udp_listener, start_tcp, start_udp, stop_tcp, stop_udp,
  close_all_connections,
}
use packetpony.Listener.Stop.{stop_udp_lem}
use packetpony.Listener.Lifecycle.{
  Bind, binds, unresolved, in_use, start_listener, stop_listener, cancel_listener, cancel_all,
  stop_each, stop_all, start_some, start_all, lets_go, any_blocks, stop_in_turn, graceful_shutdown,
}

-- What was not stopped before.
abbrev pub IsUnstopped : Listener → Type 0
IsUnstopped (tcp_listener l) = (m : RateLimitManager) × (Manager.close l.proxy.limiter ≡ some m)
IsUnstopped (udp_listener l) =
    ((m : RateLimitManager) × (Manager.close l.proxy.limiter ≡ some m))
    × (l.proxy.store.stopped ≡ false)

abbrev pub is_listening : Listener → Bool
is_listening (tcp_listener l) = l.listening
is_listening (udp_listener l) = l.listening

abbrev pub is_cancelled : Listener → Bool
is_cancelled (tcp_listener l) = l.cancelled
is_cancelled (udp_listener l) = l.cancelled

-- It takes no connections or packets any more.
abbrev pub IsDown : Text × Listener → Type 0
IsDown (name, l) = (is_listening l ≡ false) × (is_cancelled l ≡ true)

stop_tcp-some :
    (l : TcpListener) (m : RateLimitManager)
    → Manager.close l.proxy.limiter ≡ some m
    → (r : TcpListener × List ℕ) × (stop_tcp l ≡ some r)
      × (r.0.listening ≡ false)
      × (r.0.cancelled ≡ true)
unfolding stop_tcp close_all_connections
stop_tcp-some l m c = (
  (
    record l {
      proxy = record l.proxy { limiter = m };
      listening = false;
      cancelled = true;
      active_conns = [];
    },
    l.active_conns,
  ),
  rw (c, stop_tcp) refl,
  refl,
  refl,
)

stop_listener-IsDown :
    (name : Text) (l : Listener)
    → IsUnstopped l
    → (l' : Listener) × (stop_listener l ≡ some l') × IsDown (name, l')
unfolding stop_listener stop_udp
stop_listener-IsDown name (tcp_listener l) (m, c) =
    let ((l', conns), e, a, b) = stop_tcp-some l m c in
    (tcp_listener l', rw (e, stop_listener) refl, (a, b))
stop_listener-IsDown name (udp_listener l) ((m, c), s) =
    let (l', e, a, b, ends, again) = stop_udp_lem l m s c in
    (udp_listener l', rw (e, stop_listener) refl, (a, b))

-- The loop stops all listeners that were not stopped before.
stop_each-IsDown :
    (m : List (Text × Listener))
    → All (λ e. IsUnstopped e.1) m
    → (m' : List (Text × Listener)) × (stop_each m ≡ some m') × All IsDown m'
unfolding stop_each
stop_each-IsDown [] h = ([], refl, tt)
stop_each-IsDown ((name, l) ∷ m) h =
    let (l', e, d) = stop_listener-IsDown name l h.0 in
    let (m', e', ds) = stop_each-IsDown m h.1 in
    ((name, l') ∷ m', rw (e, stop_each) (rw (e', stop_each) refl), (d, ds))

-- Its context is cancelled.
abbrev pub IsCancelled : Text × Listener → Type 0
IsCancelled (name, l) = is_cancelled l ≡ true

cancel_listener-IsUnstopped :
    (name : Text) (l : Listener)
    → IsUnstopped l
    → IsUnstopped (cancel_listener l) × IsCancelled (name, cancel_listener l)
unfolding cancel_listener
cancel_listener-IsUnstopped name (tcp_listener l) h = (h, refl)
cancel_listener-IsUnstopped name (udp_listener l) h = (h, refl)

cancel_all-IsUnstopped :
    (m : List (Text × Listener))
    → All (λ e. IsUnstopped e.1) m
    → All (λ e. IsUnstopped e.1) (cancel_all m) × All IsCancelled (cancel_all m)
unfolding cancel_all
cancel_all-IsUnstopped [] h = (tt, tt)
cancel_all-IsUnstopped ((name, l) ∷ m) h =
    let (u, c) = cancel_listener-IsUnstopped name l h.0 in
    let (us, cs) = cancel_all-IsUnstopped m h.1 in ((u, us), (c, cs))

pub length-cancel_all : (m : List (Text × Listener)) → length (cancel_all m) ≡ length m
unfolding cancel_all
length-cancel_all [] = refl
length-cancel_all ((name, l) ∷ m) = ap suc (length-cancel_all m)

-- `Stop` of a manager none of whose listeners was stopped before does not panic and stops all of them:
-- each is cancelled, and its socket closed.
pub stop_all-IsDown :
    (m : List (Text × Listener))
    → All (λ e. IsUnstopped e.1) m
    → (m' : List (Text × Listener)) × (stop_all m ≡ some m') × All IsDown m'
unfolding stop_all
stop_all-IsDown m h = stop_each-IsDown (cancel_all m) (cancel_all-IsUnstopped m h).0

-- How a shutdown has ended: every listener is down, or all are cancelled and one does not let go.
abbrev pub ShutDown : (Text → Bool) → Option (List (Text × Listener) × Bool) → Type 0
ShutDown drains none = ⊥
ShutDown drains (some (m, true)) = All IsDown m
ShutDown drains (some (m, false)) = (any_blocks drains m ≡ true) × All IsCancelled m

pub some_inj : {A : Type 0} (a b : A) → some a ≡ some b → a ≡ b
some_inj a b e = cc

start_listener-IsUnstopped :
    (l l' : Listener) (b : Bind)
    → start_listener l b ≡ some l'
    → IsUnstopped l
    → IsUnstopped l' × (is_listening l' ≡ true)
unfolding start_listener start_tcp start_udp
start_listener-IsUnstopped (tcp_listener l) l' binds e h =
    subst (λ x. IsUnstopped x × (is_listening x ≡ true)) (some_inj _ _ e) (h, refl)
start_listener-IsUnstopped (udp_listener l) l' binds e h =
    subst (λ x. IsUnstopped x × (is_listening x ≡ true)) (some_inj _ _ e) (h, refl)
start_listener-IsUnstopped (tcp_listener l) l' unresolved e h = cc
start_listener-IsUnstopped (udp_listener l) l' unresolved e h = cc
start_listener-IsUnstopped (tcp_listener l) l' in_use e h = cc
start_listener-IsUnstopped (udp_listener l) l' in_use e h = cc

abbrev pub IsUp : Text × Listener → Type 0
IsUp (name, l) = is_listening l ≡ true

pub start_some-IsUnstopped :
    (net : Text → Bind) (m : List (Text × Listener))
    → All (λ e. IsUnstopped e.1) m
    → All (λ e. IsUnstopped e.1) (start_some net m).0
      × ((start_some net m).1 ≡ true → All IsUp (start_some net m).0)
unfolding start_some
start_some-IsUnstopped net [] h = (tt, λ e. tt)
start_some-IsUnstopped net ((name, l) ∷ m) h = elim (Option-cases (start_listener l (net name))) [
  | inl e ↦ rw (e, start_some) (h, λ q. cc)
  | inr (l', e) ↦
      let (u, up) = start_listener-IsUnstopped l l' (net name) e h.0 in
      let (us, ups) = start_some-IsUnstopped net m h.1 in
      rw (e, start_some) ((u, us), λ q. (up, ups q))
]

-- How a start has ended.
abbrev pub Started : Option (List (Text × Listener) × Bool) → Type 0
Started none = ⊥
Started (some (m, true)) = All IsUp m
Started (some (m, false)) = All IsDown m

-- `Start` of a manager none of whose listeners was stopped before leaves either all listeners
-- listening or, with an error, all of them stopped.
pub start_all-Started :
    (net : Text → Bind) (m : List (Text × Listener))
    → All (λ e. IsUnstopped e.1) m
    → Started (start_all net m)
unfolding start_all
start_all-Started net m h =
    let (us, ups) = start_some-IsUnstopped net m h in
    elim (Bool-cases (start_some net m).1) [
      | inl e ↦ rw (e, start_all) (ups e)
      | inr e ↦
          let (m', f, ds) = stop_all-IsDown (start_some net m).0 us in
          rw (e, start_all) (rw (f, start_all) ds)
    ]

lets_go-stop :
    (drains : Text → Bool) (name : Text) (l l' : Listener)
    → stop_listener l ≡ some l'
    → lets_go drains (name, l') ≡ lets_go drains (name, l)
unfolding stop_listener
lets_go-stop drains name (tcp_listener l) (tcp_listener l') e = refl
lets_go-stop drains name (udp_listener l) (udp_listener l') e = refl
lets_go-stop drains name (tcp_listener l) (udp_listener l') e = elim (Option-cases (stop_tcp l)) [
  | inl n ↦ absurd (ground arith)
  | inr (r, n) ↦ absurd (ground arith)
]
lets_go-stop drains name (udp_listener l) (tcp_listener l') e = elim (Option-cases (stop_udp l)) [
  | inl n ↦ absurd (ground arith)
  | inr (r, n) ↦ absurd (ground arith)
]

-- The rest of a shutdown.
rest-ShutDown :
    (drains : Text → Bool) (name : Text) (l : Listener) (o : Option (List (Text × Listener) × Bool))
    → IsDown (name, l)
    → ShutDown drains o
    → ShutDown drains (elim o [ none ↦ none | some (m', ended) ↦ some ((name, l) ∷ m', ended) ])
rest-ShutDown drains name l none d h = absurd h
rest-ShutDown drains name l (some (m, true)) d h = (d, h)
rest-ShutDown drains name l (some (m, false)) d h = (rw h.0 (ground arith), (d.1, h.1))

stop_in_turn-ShutDown :
    (drains : Text → Bool) (m : List (Text × Listener))
    → All (λ e. IsUnstopped e.1) m
    → All IsCancelled m
    → ShutDown drains (stop_in_turn drains m)
unfolding stop_in_turn
stop_in_turn-ShutDown drains [] h c = tt
stop_in_turn-ShutDown drains ((name, l) ∷ m) h c =
    let (l', e, d) = stop_listener-IsDown name l h.0 in
    elim (Bool-cases (lets_go drains (name, l))) [
      | inl g ↦
          rw (e, stop_in_turn)
            (rw g (rest-ShutDown drains name l' _ d (stop_in_turn-ShutDown drains m h.1 c.1)))
      | inr g ↦
          let stays : any_blocks drains ((name, l') ∷ m) ≡ true =
            ground (arith, lets_go-stop drains name l l' e, g) in
          rw (e, stop_in_turn) (rw g (stays, (d.1, c.1)))
    ]

-- The shutdown of listeners that were not stopped does not panic; it stops all of them, or waits for
-- one that does not let go, with the contexts of all of them cancelled.
pub graceful_shutdown-ShutDown :
    (drains : Text → Bool) (m : List (Text × Listener))
    → All (λ e. IsUnstopped e.1) m
    → ShutDown drains (graceful_shutdown drains m)
unfolding graceful_shutdown
graceful_shutdown-ShutDown drains m h =
    let (u, c) = cancel_all-IsUnstopped m h in stop_in_turn-ShutDown drains (cancel_all m) u c
