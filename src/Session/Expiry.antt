-- ===== src/Session/Expiry.antt =====
-- What the cleanup of expired sessions and `Close` do to a session of the map, and what `GetOrCreate`
-- returns.
use packetpony.Base.{
  ℕ, ◌+◌, ◌≡◌, ◌≢◌, refl, ◌∙◌, Bool, true, false, List, [], ◌∷◌, ◌++◌, some, none, arith, ltb,
  if◌then◌else◌, length, get_elem?, Bool-cases, Option-cases, inl, inr, map,
}
use packetpony.Base.Text.{Text, Text-discrete}
use packetpony.Base.Map.{lookup, insert, lookup-insert_self}
use packetpony.Net.{Addr}
use packetpony.Session.{
  Session, Store, Dial, Obtained, connected, refused, other_kind, found, created, failed, end_all,
  sweep, get_or_create, find_session, create_session, update_activity, new_session, cleanup, close,
}
use packetpony.Session.Heap.{
  get_elem?-push, get_elem?-end_all, lookup-sweep, sweep-expired, sweep-ends, is_in,
}

-- `now.Sub(s.LastActivity) > timeout`.
abbrev pub is_idle : Store → ℕ → Session → Bool
is_idle st now s = ltb (s.last_activity + st.timeout) now

-- The cleanup takes a session of the map out of it, cancels it and closes its connection exactly if
-- it was idle for longer than the timeout; any other it leaves as it is.
pub cleanup_lem :
    (st : Store) (now : ℕ) (key : Text) (h : ℕ) (s : Session)
    → lookup Text-discrete key st.sessions ≡ some h
    → get_elem? st.heap h ≡ some s
    → (lookup Text-discrete key (cleanup st now).sessions
        ≡ (if is_idle st now s then none else some h))
      × (get_elem? (cleanup st now).heap h
          ≡ some (if is_idle st now s then record s { cancelled = true; conn_open = false } else s))
unfolding cleanup
cleanup_lem st now key h s e g = elim (Bool-cases (is_idle st now s)) [
  | inl x ↦ ground (
    arith,
    lookup-sweep st.timeout now st.heap key st.sessions,
    sweep-ends st.timeout now st.heap key st.sessions h,
    get_elem?-end_all (sweep st.timeout now st.heap st.sessions).1 st.heap h,
  )
  | inr x ↦ ground (
    arith,
    lookup-sweep st.timeout now st.heap key st.sessions,
    sweep-expired st.timeout now st.heap st.sessions h,
    get_elem?-end_all (sweep st.timeout now st.heap st.sessions).1 st.heap h,
  )
]

handles-is_in :
    (key : Text) (m : List (Text × ℕ)) (h : ℕ)
    → lookup Text-discrete key m ≡ some h
    → is_in h (map (λ (e : Text × ℕ). e.1) m) ≡ true
unfolding lookup
handles-is_in key [] h e = cc
handles-is_in key ((k, i) ∷ m) h e = ground (arith, handles-is_in key m h)

-- `Close` of a manager that runs empties the map, and cancels every session of it and closes its
-- connection; a second `Close` panics.
pub close_lem :
    (st : Store)
    → st.stopped ≡ false
    → (st' : Store) × (close st ≡ some st')
      × ((key : Text) (h : ℕ) (s : Session)
          → lookup Text-discrete key st.sessions ≡ some h
          → get_elem? st.heap h ≡ some s
          → (lookup Text-discrete key st'.sessions ≡ none)
            × (get_elem? st'.heap h ≡ some (record s { cancelled = true; conn_open = false })))
      × (close st' ≡ none)
unfolding close lookup
close_lem st running = (
  record st { sessions = []; stopped = true; heap = end_all (map (λ e. e.1) st.sessions) st.heap },
  ground arith,
  (λ key h s e g. (
    refl,
    get_elem?-end_all (map (λ e. e.1) st.sessions) st.heap h
        ∙ rw (handles-is_in key st.sessions h e, g) refl,
  )),
  refl,
)

-- What a result of `GetOrCreate` says of the state before and after.
abbrev pub Obtains : Store → Text → Addr → Dial → ℕ → Store × Obtained → Type 0
Obtains st key src_addr dial now (st', found h) =
    (lookup Text-discrete key st.sessions ≡ some h) × (st' ≡ update_activity now st h)
Obtains st key src_addr dial now (st', created h) =
    (lookup Text-discrete key st.sessions ≡ none)
    × (dial ≡ connected)
    × (h ≡ length st.heap)
    × (st'.sessions ≡ insert Text-discrete key h st.sessions)
    × (st'.heap ≡ st.heap ++ new_session key src_addr now ∷ [])
    × (lookup Text-discrete key st'.sessions ≡ some h)
    × (get_elem? st'.heap h ≡ some (new_session key src_addr now))
Obtains st key src_addr dial now (st', failed) =
    (lookup Text-discrete key st.sessions ≡ none) × (dial ≢ connected) × (st' ≡ st)

create_session-Obtains :
    (st : Store) (key : Text) (src_addr : Addr) (dial : Dial) (now : ℕ)
    → lookup Text-discrete key st.sessions ≡ none
    → Obtains st key src_addr dial now (create_session st key src_addr dial now)
unfolding create_session
create_session-Obtains st key src_addr connected now e =
    rw (e, create_session)
      (
        e,
        refl,
        refl,
        refl,
        refl,
        lookup-insert_self Text-discrete key (length st.heap) st.sessions,
        get_elem?-push st.heap (new_session key src_addr now) (length st.heap) ∙ ground arith,
      )
create_session-Obtains st key src_addr refused now e = rw (e, create_session) (e, (λ q. cc), refl)
create_session-Obtains st key src_addr other_kind now e =
    rw (e, create_session) (e, (λ q. cc), refl)

-- `GetOrCreate` for a key of the map finds its session, now active, and dials nothing; for another
-- key it makes a live session under the key, with a handle of its own, if the dial gives a UDP
-- connection, and otherwise changes nothing.
pub get_or_create-Obtains :
    (st : Store) (key : Text) (src_addr : Addr) (dial : Dial) (now : ℕ)
    → Obtains st key src_addr dial now (get_or_create st key src_addr dial now)
unfolding get_or_create find_session
get_or_create-Obtains st key src_addr dial now =
    elim (Option-cases (lookup Text-discrete key st.sessions)) [
      | inr (h, e) ↦ rw (e, get_or_create) (e, refl)
      | inl e ↦ rw (e, get_or_create) (create_session-Obtains st key src_addr dial now e)
    ]
