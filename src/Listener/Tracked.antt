-- ===== src/Listener/Tracked.antt =====
-- internal/listener/tcp.go: which connections a listener tracks, and which ones `Stop` closes.
use packetpony.Base.{
  ℕ, ◌+◌, ◌-◌, ◌≤◌, ◌<◌, ◌≡◌, ap, ◌⊎◌, inl, inr, Bool, true, false, List, [], ◌∷◌, ◌++◌, Option,
  some, none, arith, length, ◌==◌, if◌then◌else◌, Bool-cases, Option-cases, length-append,
}
use packetpony.Ratelimit.Manager
use packetpony.Ratelimit.Manager.{RateLimitManager}
use packetpony.Session.Heap.{is_in}
use packetpony.Listener.{
  TcpListener, track_connection, remove_first, untrack_connection, close_all_connections, stop_tcp,
}
use packetpony.Listener.Accept.{
  Running, Step, Steps, accepts, fails, tracks, returns, stops, done, next, started, accept_error,
  start_handler, end_handler,
}

-- How often a connection occurs.
abbrev count : ℕ → List ℕ → ℕ
count j [] = 0
count j (c ∷ cs) = (if c == j then 1 else 0) + count j cs

count-append :
    (j c : ℕ) (cs : List ℕ) → count j (cs ++ c ∷ []) ≡ count j cs + (if c == j then 1 else 0)
count-append j c [] = omega arith
count-append j c (d ∷ cs) = omega (arith, count-append j c cs)

count-remove_first :
    (j c : ℕ) (cs : List ℕ) → count j (remove_first c cs) ≡ count j cs - (if c == j then 1 else 0)
unfolding remove_first
count-remove_first j c [] = ground arith
count-remove_first j c (d ∷ cs) = ground (arith, count-remove_first j c cs)

is_in-count :
    (j : ℕ) (cs : List ℕ)
    → (is_in j cs ≡ true → 0 < count j cs) × (0 < count j cs → is_in j cs ≡ true)
is_in-count j [] = ((λ h. cc), (λ h. absurd (omega arith)))
is_in-count j (c ∷ cs) = ground (arith, is_in-count j cs)

length-remove_first-le : (conn : ℕ) (cs : List ℕ) → length (remove_first conn cs) ≤ length cs
unfolding remove_first
length-remove_first-le conn [] = omega arith
length-remove_first-le conn (c ∷ cs) = ground (arith, length-remove_first-le conn cs)

holds : Option ℕ → ℕ
holds none = 0
holds (some c) = 1

-- Before `Stop` the tracked connections are those that are served. Afterwards all that are served were
-- closed or are tracked, and the loop tracks at most one more.
record IsTracked (r : Running) : Type 0 where
  before : r.listener.cancelled ≡ false → r.listener.active_conns ≡ r.handlers
  shut : r.listener.cancelled ≡ true → r.listener.listening ≡ false
  late : r.listener.cancelled ≡ true → length r.listener.active_conns + holds r.pending ≤ 1
  closed :
      (c : ℕ)
      → r.listener.cancelled ≡ true
      → count c r.handlers ≤ count c r.closed + count c r.listener.active_conns

stop_tcp-fields :
    (l l' : TcpListener) (conns : List ℕ)
    → stop_tcp l ≡ some (l', conns)
    → (l'.cancelled ≡ true)
      × (l'.listening ≡ false)
      × (l'.active_conns ≡ [])
      × (conns ≡ l.active_conns)
unfolding stop_tcp close_all_connections
stop_tcp-fields l l' conns e = elim (Option-cases (Manager.close l.proxy.limiter)) [
  | inl c ↦ absurd (ground arith)
  | inr (m, c) ↦ (ground arith, ground arith, ground arith, ground arith)
]

holds-le : (o : Option ℕ) → holds o ≤ 1
unfolding holds
holds-le none = omega arith
holds-le (some c) = omega arith

Step-IsTracked : (silent : ℕ → Bool) (r s : Running) → Step silent r s → IsTracked r → IsTracked s
unfolding accept_error start_handler end_handler track_connection untrack_connection holds
Step-IsTracked silent r s (accepts _ conn a b c) t = record {
  before = t.before;
  shut = t.shut;
  late = λ h. absurd (ground (arith, t.shut h));
  closed = t.closed;
}
Step-IsTracked silent r s (fails _ a b) t = either r.listener.cancelled
  where
    either :
        (cancelled : Bool)
        → IsTracked (
            if cancelled
            then record r { looping = false }
            else record r { accept_errors = r.accept_errors + 1 })
    either true = record { before = t.before; shut = t.shut; late = t.late; closed = t.closed }
    either false = record { before = t.before; shut = t.shut; late = t.late; closed = t.closed }
Step-IsTracked silent r s (tracks _ conn a b) t = record {
  before = λ h. ap (λ (x : List ℕ). x ++ conn ∷ []) (t.before h);
  shut = t.shut;
  late = λ h. ground (arith, t.late h, length-append r.listener.active_conns (conn ∷ []));
  closed = λ c h. ground (
    arith,
    t.closed c h,
    count-append c conn r.handlers,
    count-append c conn r.listener.active_conns,
  );
}
Step-IsTracked silent r s (returns _ conn a q) t = record {
  before = λ h. ap (remove_first conn) (t.before h);
  shut = t.shut;
  late = λ h. omega (arith, t.late h, length-remove_first-le conn r.listener.active_conns);
  closed = λ c h. ground (
    arith,
    t.closed c h,
    count-remove_first c conn r.handlers,
    count-remove_first c conn r.listener.active_conns,
  );
}
Step-IsTracked silent r s (stops _ l conns a b) t =
    let (x, y, z, w) = stop_tcp-fields r.listener l conns b in
    record {
      before = λ h. cc;
      shut = λ h. y;
      late = λ h. rw z (omega (arith, holds-le r.pending));
      closed = λ c h. rw (z, w, t.before a) (omega arith);
    }

Steps-IsTracked :
    (silent : ℕ → Bool) (n : ℕ) (r t : Running) → Steps silent n r t → IsTracked r → IsTracked t
Steps-IsTracked silent n r t (done _) h = h
Steps-IsTracked silent n r t (next m _ s _ one more) h =
    Steps-IsTracked silent m s t more (Step-IsTracked silent r s one h)

-- From the start of a listener that was not stopped and tracks nothing, whatever clients, targets and
-- `Stop` do:
-- until `Stop` the tracked connections are exactly those that handlers serve, in their order. After it
-- the socket is closed, and each connection that is still served was closed by `Stop`, but for at most
-- one, which `Accept` had given before `Stop` and which is tracked.
pub Steps-tracked :
    (silent : ℕ → Bool) (n : ℕ) (l : TcpListener) (t : Running)
    → Steps silent n (started l) t
    → l.cancelled ≡ false
    → l.active_conns ≡ []
    → (t.listener.cancelled ≡ false → t.listener.active_conns ≡ t.handlers)
      × (t.listener.cancelled ≡ true
          → (t.listener.listening ≡ false)
            × (length t.listener.active_conns ≤ 1)
            × ((c : ℕ)
                → is_in c t.handlers ≡ true
                → (is_in c t.closed ≡ true) ⊎ (is_in c t.listener.active_conns ≡ true)))
unfolding holds
Steps-tracked silent n l t run fresh none_yet =
    let first : IsTracked (started l) = record {
      before = λ h. none_yet;
      shut = λ h. cc;
      late = λ h. cc;
      closed = λ c h. cc;
    } in
    let k = Steps-IsTracked silent n (started l) t run first in
    (
      k.before,
      λ h. (
        k.shut h,
        omega (arith, k.late h),
        λ c m. served c (omega (arith, k.closed c h, (is_in-count c t.handlers).0 m)),
      ),
    )
  where
    served :
        (c : ℕ)
        → 0 < count c t.closed + count c t.listener.active_conns
        → (is_in c t.closed ≡ true) ⊎ (is_in c t.listener.active_conns ≡ true)
    served c h = elim (Bool-cases (is_in c t.closed)) [
      | inl e ↦ inl e
      | inr e ↦ inr (ground (arith, is_in-count c t.closed, is_in-count c t.listener.active_conns))
    ]
