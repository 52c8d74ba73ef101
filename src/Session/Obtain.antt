-- ===== src/Session/Obtain.antt =====
-- internal/session/udp_session.go, GetOrCreate: what it does to the sessions, field by field.
use packetpony.Base.{
  ℕ, ◌≡◌, ◌≢◌, refl, ◌∙◌, List, [], ◌∷◌, ◌++◌, some, none, get_elem?, ◌==◌, true, false,
  if◌then◌else◌, arith, ap,
}
use mathlib.Core.Option
use packetpony.Base.Text.{Text, Text-discrete}
use packetpony.Base.Map.{lookup, insert, lookup-insert}
use packetpony.Net.{Addr}
use packetpony.Session.{
  Session, Store, Dial, Obtained, connected, found, created, failed, get_or_create, new_session,
  update_activity,
}
use packetpony.Session.Heap.{get_elem?-modify, get_elem?-length}
use packetpony.Session.Expiry.{Obtains, get_or_create-Obtains}

-- A session of that key that can be used and has moved nothing yet.
abbrev pub IsFresh : Text → Addr → ℕ → Session → Type 0
IsFresh key src_addr now s =
    (s.id ≡ key)
    × (s.source_addr ≡ src_addr)
    × (s.conn_open ≡ true)
    × (s.cancelled ≡ false)
    × (s.created_at ≡ now)
    × (s.last_activity ≡ now)
    × (s.last_periodic_log ≡ now)
    × (s.bytes_sent ≡ 0)
    × (s.bytes_received ≡ 0)
    × (s.packets_sent ≡ 0)
    × (s.packets_received ≡ 0)
    × (s.last_periodic_log_bytes ≡ 0)

-- What a result of `GetOrCreate` says of the sessions before and after.
abbrev pub Gives : Store → Text → Addr → Dial → ℕ → Store × Obtained → Type 0
Gives st key src_addr dial now (st', found h) =
    (lookup Text-discrete key st.sessions ≡ some h)
    × (st'.sessions ≡ st.sessions)
    × ((i : ℕ)
        → get_elem? st'.heap i ≡ (
            if h == i
            then Option.map (λ (s : Session). record s { last_activity = now })
                (get_elem? st.heap i)
            else get_elem? st.heap i))
Gives st key src_addr dial now (st', created h) =
    (lookup Text-discrete key st.sessions ≡ none)
    × (dial ≡ connected)
    × (get_elem? st.heap h ≡ none)
    × (lookup Text-discrete key st'.sessions ≡ some h)
    × ((other : Text)
        → key ≢ other
        → lookup Text-discrete other st'.sessions ≡ lookup Text-discrete other st.sessions)
    × ((s : Session) × (get_elem? st'.heap h ≡ some s)
        × (st'.heap ≡ st.heap ++ s ∷ [])
        × IsFresh key src_addr now s)
Gives st key src_addr dial now (st', failed) =
    (lookup Text-discrete key st.sessions ≡ none) × (dial ≢ connected) × (st' ≡ st)

fresh :
    (key : Text) (src_addr : Addr) (now : ℕ)
    → IsFresh key src_addr now (new_session key src_addr now)
unfolding new_session
fresh key src_addr now = (refl, refl, refl, refl, refl, refl, refl, refl, refl, refl, refl, refl)

others :
    (key other : Text) (h : ℕ) (m : List (Text × ℕ))
    → key ≢ other
    → lookup Text-discrete other (insert Text-discrete key h m) ≡ lookup Text-discrete other m
others key other h m d = ground (arith, lookup-insert Text-discrete key other h m)

gives :
    (st : Store) (key : Text) (src_addr : Addr) (dial : Dial) (now : ℕ) (r : Store × Obtained)
    → Obtains st key src_addr dial now r
    → Gives st key src_addr dial now r
unfolding update_activity
gives st key src_addr dial now (st', found h) (present, same) = (
  present,
  ap (λ (x : Store). x.sessions) same,
  λ i. ap (λ (x : Store). get_elem? x.heap i) same ∙ get_elem?-modify h i _ st.heap,
)
gives st key src_addr dial now (st', created h) (absent, dialled, next, ins, pushed, present, g) = (
  absent,
  dialled,
  get_elem?-length st.heap h (omega (arith, next)),
  present,
  (λ other d. ap (lookup Text-discrete other) ins ∙ others key other h st.sessions d),
  (new_session key src_addr now, g, pushed, fresh key src_addr now),
)
gives st key src_addr dial now (st', failed) h = h

-- `GetOrCreate` for a key of the map finds its session, leaves the map as it is, and of all sessions
-- changes only that one, whose last activity is now. For another key, if the dial gives a UDP
-- connection, it makes a session with a handle that was not used before: with the key, the address
-- and the open connection, not cancelled, with all its times now and all its counters at zero; the
-- key has it in the map, where every other key and every other session is as before. If the dial
-- gives none, it changes nothing.
pub get_or_create-Gives :
    (st : Store) (key : Text) (src_addr : Addr) (dial : Dial) (now : ℕ)
    → Gives st key src_addr dial now (get_or_create st key src_addr dial now)
get_or_create-Gives st key src_addr dial now =
    gives st key src_addr dial now (get_or_create st key src_addr dial now)
      (get_or_create-Obtains st key src_addr dial now)
