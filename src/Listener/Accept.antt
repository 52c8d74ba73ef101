-- ===== src/Listener/Accept.antt =====
-- internal/listener/tcp.go, acceptLoop: the loop, the handlers that it starts, and `Stop`, as steps that
-- may come in any order. `Accept` and the tracking of what it gives are two steps.
use packetpony.Base.{
  ℕ, suc, ◌+◌, ◌≡◌, Bool, true, false, List, [], ◌∷◌, ◌++◌, Option, some, none, length,
  if◌then◌else◌,
}
use packetpony.Session.Heap.{is_in}
use packetpony.Listener.{TcpListener, track_connection, remove_first, untrack_connection, stop_tcp}

-- A listener at work: whether the loop runs, the connection that `Accept` gave and that is not yet
-- tracked, the connections that a handler serves, those that `Stop` closed, and the errors logged.
-- The loop and each handler count one in `wg`.
pub record Running : Type 0 where
  pub listener : TcpListener
  pub looping : Bool
  pub pending : Option ℕ
  pub handlers : List ℕ
  pub closed : List ℕ
  pub accept_errors : ℕ

-- After `Start`, of a listener with no connection.
abbrev pub started : TcpListener → Running
started l = record {
  listener = l;
  looping = true;
  pending = none;
  handlers = [];
  closed = [];
  accept_errors = 0;
}

-- An error of `Accept`: the loop ends if the context is done, and else logs the error and goes on.
unfoldable pub accept_error : Running → Running
accept_error r =
    if r.listener.cancelled
    then record r { looping = false }
    else record r { accept_errors = r.accept_errors + 1 }

-- The rest of a round, with a connection: it is tracked, and a handler starts.
unfoldable pub start_handler : ℕ → Running → Running
start_handler conn r = record r {
  listener = track_connection r.listener conn;
  pending = none;
  handlers = r.handlers ++ conn ∷ [];
}

-- The end of a handler, with its deferred calls.
unfoldable pub end_handler : ℕ → Running → Running
end_handler conn r = record r {
  listener = untrack_connection r.listener conn;
  handlers = remove_first conn r.handlers;
}

-- A closed socket gives errors only, and an open one may give one at any time. A handler returns when
-- both of its copies have ended. The copy from the target ends only when the target sends, closes or
-- fails; so the handler of a connection whose target stays silent does not return, also not after
-- `Stop` has closed its connection to the client.
pub data Step (silent : ℕ → Bool) : Running → Running → Type 0 where
  accepts :
      (r : Running) (conn : ℕ)
      → r.looping ≡ true
      → r.pending ≡ none
      → r.listener.listening ≡ true
      → Step silent r (record r { pending = some conn })
  fails : (r : Running) → r.looping ≡ true → r.pending ≡ none → Step silent r (accept_error r)
  tracks :
      (r : Running) (conn : ℕ)
      → r.looping ≡ true
      → r.pending ≡ some conn
      → Step silent r (start_handler conn r)
  returns :
      (r : Running) (conn : ℕ)
      → is_in conn r.handlers ≡ true
      → silent conn ≡ false
      → Step silent r (end_handler conn r)
  stops :
      (r : Running) (l : TcpListener) (conns : List ℕ)
      → r.listener.cancelled ≡ false
      → stop_tcp r.listener ≡ some (l, conns)
      → Step silent r (record r { listener = l; closed = conns })

-- A number of steps.
pub data Steps (silent : ℕ → Bool) : ℕ → Running → Running → Type 0 where
  done : (r : Running) → Steps silent 0 r r
  next : (n : ℕ) (r s t : Running) → Step silent r s → Steps silent n s t → Steps silent (suc n) r t

-- The counter of `wg`.
abbrev pub waiting : Running → ℕ
waiting r = (if r.looping then 1 else 0) + length r.handlers

-- What is left to do after a stop: the loop has at most the connection that it holds, and its end.
abbrev pub work : Running → ℕ
work r =
    (if r.looping then 1 + (elim r.pending [ none ↦ 0 | some c ↦ 2 ]) else 0) + length r.handlers
