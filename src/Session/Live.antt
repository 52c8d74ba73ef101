-- ===== src/Session/Live.antt =====
-- The sessions of the map are live, and each under its own key; every operation keeps it so.
use packetpony.Base.{
  ℕ, ◌<◌, ◌≡◌, ◌≢◌, refl, ap, ◌∙◌, sym, inl, inr, true, false, [], ◌∷◌, ◌++◌, Option, some, none,
  arith, dec_lt, ◌==◌, ==_iff, length, get_elem?, Bool-cases, Option-cases,
}
use mathlib.Core.Option
use packetpony.Base.Text.{Text, Text-discrete}
use packetpony.Base.Map.{lookup, insert, delete, lookup-insert, lookup-delete}
use packetpony.Net.{Addr}
use packetpony.Session.{
  Session, Store, Dial, Obtained, connected, refused, other_kind, created, failed, modify, sweep,
  is_expired, touch, cancel, update_activity, find_session, create_session, get_or_create,
  new_session, remove, cleanup, close, new_session_manager,
}
use packetpony.Session.Heap.{
  get_elem?-modify, get_elem?-push, get_elem?-length, get_elem?-end_all, lookup-sweep,
  sweep-expired, unless_expired, is_in,
}

-- What the object behind a handle of the map is.
abbrev pub IsLive : Text → Option Session → Type 0
IsLive key none = ⊥
IsLive key (some s) = (s.id ≡ key) × (s.conn_open ≡ true) × (s.cancelled ≡ false)

abbrev pub AllLive : Store → Type 0
AllLive st =
    (key : Text) (h : ℕ)
    → lookup Text-discrete key st.sessions ≡ some h
    → IsLive key (get_elem? st.heap h)

-- The changes that leave the identity and the state of a session alone.
abbrev pub Keeps : (Session → Session) → Type 0
Keeps f =
    (s : Session)
    → ((f s).id ≡ s.id) × ((f s).conn_open ≡ s.conn_open) × ((f s).cancelled ≡ s.cancelled)

IsLive-map :
    (key : Text) (f : Session → Session) (o : Option Session)
    → Keeps f
    → IsLive key o
    → IsLive key (Option.map f o)
IsLive-map key f none k h = h
IsLive-map key f (some s) k h = ground (arith, k s)

different : (a b : ℕ) → a ≢ b → (a == b) ≡ false
different a b h = ground arith

-- Two keys have no handle in common.
pub handle_unique :
    (st : Store) (key other : Text) (h : ℕ)
    → AllLive st
    → lookup Text-discrete key st.sessions ≡ some h
    → lookup Text-discrete other st.sessions ≡ some h
    → key ≡ other
handle_unique st key other h live a b = same (get_elem? st.heap h) (live key h a) (live other h b)
  where
    same : (o : Option Session) → IsLive key o → IsLive other o → key ≡ other
    same none p q = absurd p
    same (some s) p q = sym p.0 ∙ q.0

pub modify-AllLive :
    (f : Session → Session) (st : Store) (h : ℕ)
    → Keeps f
    → AllLive st
    → AllLive (record st { heap = modify h f st.heap })
modify-AllLive f st h k live key j e =
    rw (get_elem?-modify h j f st.heap) (elim (Bool-cases (h == j)) [
      | inl m ↦ rw m (IsLive-map key f (get_elem? st.heap j) k (live key j e))
      | inr m ↦ rw m (live key j e)
    ])

update_activity-AllLive :
    (now : ℕ) (st : Store) (h : ℕ) → AllLive st → AllLive (update_activity now st h)
unfolding update_activity
update_activity-AllLive now st h live =
    modify-AllLive (touch now) st h (λ s. (refl, refl, refl)) live

handle-lt :
    (st : Store) (key : Text) (h : ℕ)
    → AllLive st
    → lookup Text-discrete key st.sessions ≡ some h
    → h < length st.heap
handle-lt st key h live e = go (live key h e)
  where
    go : IsLive key (get_elem? st.heap h) → h < length st.heap
    go l = elim (dec_lt h (length st.heap)) [
      | yes p ↦ p
      | no p ↦ absurd (rw (get_elem?-length st.heap h (omega arith)) at l)
    ]

created-AllLive :
    (st : Store) (key : Text) (src_addr : Addr) (now : ℕ)
    → AllLive st
    → AllLive (record st {
      sessions = insert Text-discrete key (length st.heap) st.sessions;
      heap = st.heap ++ new_session key src_addr now ∷ [];
    })
unfolding new_session
created-AllLive st key src_addr now live j h e = elim (Text-discrete key j) [
  | yes p ↦
      let at_end : length st.heap ≡ h =
        ground (arith, lookup-insert Text-discrete key j (length st.heap) st.sessions) in
      rw
        (
          get_elem?-push st.heap (new_session key src_addr now) h,
          (==_iff (length st.heap) h).1 at_end,
        )
        (p, refl, refl)
  | no p ↦
      let old : lookup Text-discrete j st.sessions ≡ some h =
        ground (arith, lookup-insert Text-discrete key j (length st.heap) st.sessions) in
      let apart : (length st.heap == h) ≡ false = ground (arith, handle-lt st j h live old) in
      rw (get_elem?-push st.heap (new_session key src_addr now) h, apart) (live j h old)
]

create_session-AllLive :
    (st : Store) (key : Text) (src_addr : Addr) (dial : Dial) (now : ℕ)
    → AllLive st
    → AllLive (create_session st key src_addr dial now).0
unfolding create_session
create_session-AllLive st key src_addr dial now live =
    elim (Option-cases (lookup Text-discrete key st.sessions)) [
      | inr (h, e) ↦ rw (e, create_session) (update_activity-AllLive now st h live)
      | inl e ↦ rw (e, create_session) (dialled dial)
    ]
  where
    dialled :
        (d : Dial)
        → AllLive
            (elim d as (λ x. Store × Obtained) [
              | refused ↦ (st, failed)
              | other_kind ↦ (st, failed)
              | connected ↦ (
                record st {
                  sessions = insert Text-discrete key (length st.heap) st.sessions;
                  heap = st.heap ++ new_session key src_addr now ∷ [];
                },
                created (length st.heap),
              )
            ]).0
    dialled connected = created-AllLive st key src_addr now live
    dialled refused = live
    dialled other_kind = live

-- If the sessions of the map are live, each under its own key, they are so after `GetOrCreate`, whatever
-- the dial gives.
pub get_or_create-AllLive :
    (st : Store) (key : Text) (src_addr : Addr) (dial : Dial) (now : ℕ)
    → AllLive st
    → AllLive (get_or_create st key src_addr dial now).0
unfolding get_or_create find_session
get_or_create-AllLive st key src_addr dial now live =
    elim (Option-cases (lookup Text-discrete key st.sessions)) [
      | inl e ↦ rw (e, get_or_create) (create_session-AllLive st key src_addr dial now live)
      | inr (h, e) ↦ rw (e, get_or_create) (update_activity-AllLive now st h live)
    ]

-- If the sessions of the map are live, each under its own key, they are so after `Remove`, which ends
-- none but the one under its key.
pub remove-AllLive : (st : Store) (id : Text) → AllLive st → AllLive (remove st id).0
unfolding remove
remove-AllLive st id live = elim (Option-cases (lookup Text-discrete id st.sessions)) [
  | inl e ↦ rw (e, remove) live
  | inr (h, e) ↦ rw (e, remove) (others h e)
]
  where
    others :
        (h : ℕ)
        → lookup Text-discrete id st.sessions ≡ some h
        → AllLive (record st {
          sessions = delete Text-discrete id st.sessions;
          heap = modify h cancel st.heap;
        })
    others h e key j f = elim (Text-discrete id key) [
      | yes p ↦ absurd (ground (arith, lookup-delete Text-discrete id key st.sessions))
      | no p ↦
          let old : lookup Text-discrete key st.sessions ≡ some j =
            ground (arith, lookup-delete Text-discrete id key st.sessions) in
          let apart : (h == j) ≡ false =
            different h j (λ q. p (handle_unique st id key j live (e ∙ ap some q) old)) in
          rw (get_elem?-modify h j cancel st.heap, apart) (live key j old)
    ]

-- If the sessions of the map are live, each under its own key, those that a sweep of the idle ones
-- leaves in the map are so.
pub cleanup-AllLive : (st : Store) (now : ℕ) → AllLive st → AllLive (cleanup st now)
unfolding cleanup
cleanup-AllLive st now live key h e =
    let split = lookup-sweep st.timeout now st.heap key st.sessions in
    let old : lookup Text-discrete key st.sessions ≡ some h =
      kept (lookup Text-discrete key st.sessions) (sym split ∙ e) in
    let stays : is_in h (sweep st.timeout now st.heap st.sessions).1 ≡ false = ground (
      arith,
      sweep-expired st.timeout now st.heap st.sessions h,
      fresh (lookup Text-discrete key st.sessions) (sym split ∙ e),
    ) in
    rw (get_elem?-end_all (sweep st.timeout now st.heap st.sessions).1 st.heap h, stays)
      (live key h old)
  where
    kept : (o : Option ℕ) → unless_expired st.timeout now st.heap o ≡ some h → o ≡ some h
    kept none q = cc
    kept (some i) q = ground arith

    fresh :
        (o : Option ℕ)
        → unless_expired st.timeout now st.heap o ≡ some h
        → is_expired st.timeout now (get_elem? st.heap h) ≡ false
    fresh none q = cc
    fresh (some i) q = ground arith

pub close-AllLive : (st st' : Store) → close st ≡ some st' → AllLive st'
unfolding close lookup
close-AllLive st st' e key h f = absurd (ground arith)

pub new_session_manager-AllLive : (timeout : ℕ) → AllLive (new_session_manager timeout)
unfolding new_session_manager lookup
new_session_manager-AllLive timeout key h e = absurd (ground arith)
