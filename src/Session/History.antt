-- ===== src/Session/History.antt =====
-- internal/session/udp_session.go: the calls of a session manager in any order, with the ticks of its
-- cleanup loop among them.
use packetpony.Base.{ℕ, ◌≡◌, refl, List, [], ◌∷◌, Option, some, none}
use packetpony.Base.Text.{Text, Text-discrete}
use packetpony.Base.Map.{lookup}
use packetpony.Net.{Addr}
use packetpony.Session.{
  Session, Store, Dial, new_session_manager, get_or_create, get, remove, cleanup, update_activity,
  update_periodic_log, add_bytes_sent, add_bytes_received, add_packets_sent, add_packets_received,
  touch,
}
use packetpony.Session.Live.{
  AllLive, handle_unique, modify-AllLive, get_or_create-AllLive, remove-AllLive, cleanup-AllLive,
  new_session_manager-AllLive,
}

-- `GetStats`.
unfoldable pub get_stats : Session → ℕ × ℕ × ℕ × ℕ
get_stats s = (s.bytes_sent, s.bytes_received, s.packets_sent, s.packets_received)

unfoldable pub get_last_activity : Session → ℕ
get_last_activity s = s.last_activity

unfoldable pub get_created_at : Session → ℕ
get_created_at s = s.created_at

-- A call of the manager, or of the session behind a handle.
pub data Operation : Type 0 where
  obtain : Text → Addr → Dial → Operation
  look_up drop : Text → Operation
  tick : Operation
  touched logged : ℕ → Operation
  bytes_sent bytes_received packets_sent packets_received : ℕ → ℕ → Operation

unfoldable pub apply : Store → Operation → ℕ → Store
apply st (obtain key src dial) now = (get_or_create st key src dial now).0
apply st (look_up key) now = (get st key now).0
apply st (drop id) now = (remove st id).0
apply st tick now = cleanup st now
apply st (touched h) now = update_activity now st h
apply st (logged h) now = update_periodic_log now st h
apply st (bytes_sent h n) now = add_bytes_sent n st h
apply st (bytes_received h n) now = add_bytes_received n st h
apply st (packets_sent h n) now = add_packets_sent n st h
apply st (packets_received h n) now = add_packets_received n st h

unfoldable pub run : Store → List (Operation × ℕ) → Store
run st [] = st
run st ((o, now) ∷ os) = run (apply st o now) os

get-AllLive : (st : Store) (key : Text) (now : ℕ) → AllLive st → AllLive (get st key now).0
unfolding get update_activity
get-AllLive st key now live = found (lookup Text-discrete key st.sessions)
  where
    found :
        (o : Option ℕ)
        → AllLive (
            let r : Store × Option ℕ = elim o [
              | none ↦ (st, none)
              | some h ↦ (update_activity now st h, some h)
            ] in
            r.0)
    found none = live
    found (some h) = modify-AllLive (touch now) st h (λ s. (refl, refl, refl)) live

apply-AllLive : (st : Store) (o : Operation) (now : ℕ) → AllLive st → AllLive (apply st o now)
unfolding apply update_activity update_periodic_log add_bytes_sent add_bytes_received
    add_packets_sent add_packets_received
apply-AllLive st (obtain key src dial) now live = get_or_create-AllLive st key src dial now live
apply-AllLive st (look_up key) now live = get-AllLive st key now live
apply-AllLive st (drop id) now live = remove-AllLive st id live
apply-AllLive st tick now live = cleanup-AllLive st now live
apply-AllLive st (touched h) now live = modify-AllLive _ st h (λ s. (refl, refl, refl)) live
apply-AllLive st (logged h) now live = modify-AllLive _ st h (λ s. (refl, refl, refl)) live
apply-AllLive st (bytes_sent h n) now live = modify-AllLive _ st h (λ s. (refl, refl, refl)) live
apply-AllLive st (bytes_received h n) now live =
    modify-AllLive _ st h (λ s. (refl, refl, refl)) live
apply-AllLive st (packets_sent h n) now live = modify-AllLive _ st h (λ s. (refl, refl, refl)) live
apply-AllLive st (packets_received h n) now live =
    modify-AllLive _ st h (λ s. (refl, refl, refl)) live

run-AllLive : (st : Store) (os : List (Operation × ℕ)) → AllLive st → AllLive (run st os)
unfolding run
run-AllLive st [] live = live
run-AllLive st ((o, now) ∷ os) live = run-AllLive (apply st o now) os (apply-AllLive st o now live)

-- After any calls of a new manager and of its sessions and any ticks of its cleanup loop, at any times,
-- each key of the map has a session that is not cancelled, whose connection is open and that has the
-- key for its name; and no two keys have the same session.
pub run-new_session_manager :
    (timeout : ℕ) (os : List (Operation × ℕ))
    → AllLive (run (new_session_manager timeout) os)
      × ((key other : Text) (h : ℕ)
          → lookup Text-discrete key (run (new_session_manager timeout) os).sessions ≡ some h
          → lookup Text-discrete other (run (new_session_manager timeout) os).sessions ≡ some h
          → key ≡ other)
run-new_session_manager timeout os =
    let live = run-AllLive (new_session_manager timeout) os (new_session_manager-AllLive timeout) in
    (
      live,
      λ key other h a b. handle_unique (run (new_session_manager timeout) os) key other h live a b,
    )
