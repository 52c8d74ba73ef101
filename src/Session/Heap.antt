-- ===== src/Session/Heap.antt =====
-- Reading the heap of sessions after a change, and the map after a sweep.
use packetpony.Base.{
  ℕ, zero, suc, ◌≤◌, ◌≡◌, refl, ◌∙◌, Bool, true, false, ◌||◌, List, [], ◌∷◌, ◌++◌, Option, some,
  none, arith, ◌==◌, if◌then◌else◌, length, get_elem?,
}
use mathlib.Core.Option
use packetpony.Base.Text.{Text, Text-discrete}
use packetpony.Base.Map.{lookup, lookup-delete}
use packetpony.Session.{Session, modify, end_session, end_all, sweep, is_expired}

pub get_elem?-modify :
    (h j : ℕ) (f : Session → Session) (heap : List Session)
    → get_elem? (modify h f heap) j
      ≡ (if h == j then Option.map f (get_elem? heap j) else get_elem? heap j)
unfolding modify
get_elem?-modify h j f [] = ground arith
get_elem?-modify zero zero f (s ∷ heap) = refl
get_elem?-modify zero (suc j) f (s ∷ heap) = ground arith
get_elem?-modify (suc h) zero f (s ∷ heap) = ground arith
get_elem?-modify (suc h) (suc j) f (s ∷ heap) = get_elem?-modify h j f heap ∙ ground arith

pub get_elem?-push :
    (heap : List Session) (s : Session) (j : ℕ)
    → get_elem? (heap ++ s ∷ []) j ≡ (if length heap == j then some s else get_elem? heap j)
get_elem?-push [] s zero = refl
get_elem?-push [] s (suc j) = ground arith
get_elem?-push (t ∷ heap) s zero = ground arith
get_elem?-push (t ∷ heap) s (suc j) = get_elem?-push heap s j ∙ ground arith

pub get_elem?-length : (heap : List Session) (j : ℕ) → length heap ≤ j → get_elem? heap j ≡ none
get_elem?-length [] j h = refl
get_elem?-length (s ∷ heap) zero h = absurd (omega arith)
get_elem?-length (s ∷ heap) (suc j) h = get_elem?-length heap j (omega arith)

abbrev pub is_in : ℕ → List ℕ → Bool
is_in j [] = false
is_in j (h ∷ hs) = h == j || is_in j hs

pub get_elem?-end_all :
    (hs : List ℕ) (heap : List Session) (j : ℕ)
    → get_elem? (end_all hs heap) j
      ≡ (if is_in j hs then Option.map end_session (get_elem? heap j) else get_elem? heap j)
unfolding end_all
get_elem?-end_all [] heap j = refl
get_elem?-end_all (h ∷ hs) heap j =
    get_elem?-modify h j end_session (end_all hs heap)
    ∙ rw (get_elem?-end_all hs heap j) (ended_once (h == j) (is_in j hs) (get_elem? heap j))
  where
    ended_once :
        (a b : Bool) (o : Option Session)
        → (if a
            then Option.map end_session (if b then Option.map end_session o else o)
            else (if b then Option.map end_session o else o))
          ≡ (if a || b then Option.map end_session o else o)
    ended_once a b o = ground arith

-- What is left of the value of a key.
abbrev pub unless_expired : ℕ → ℕ → List Session → Option ℕ → Option ℕ
unless_expired timeout now heap none = none
unless_expired timeout now heap (some h) =
    if is_expired timeout now (get_elem? heap h) then none else some h

pub lookup-sweep :
    (timeout now : ℕ) (heap : List Session) (key : Text) (m : List (Text × ℕ))
    → lookup Text-discrete key (sweep timeout now heap m).0
      ≡ unless_expired timeout now heap (lookup Text-discrete key m)
unfolding sweep lookup
lookup-sweep timeout now heap key [] = refl
lookup-sweep timeout now heap key ((k, h) ∷ m) = ground (
  arith,
  lookup-sweep timeout now heap key m,
  lookup-delete Text-discrete k key (sweep timeout now heap m).0,
)

-- Only expired sessions end.
pub sweep-expired :
    (timeout now : ℕ) (heap : List Session) (m : List (Text × ℕ)) (j : ℕ)
    → is_in j (sweep timeout now heap m).1 ≡ true
    → is_expired timeout now (get_elem? heap j) ≡ true
unfolding sweep
sweep-expired timeout now heap [] j e = cc
sweep-expired timeout now heap ((k, h) ∷ m) j e = ground (arith, sweep-expired timeout now heap m j)

-- All expired sessions of the map end.
pub sweep-ends :
    (timeout now : ℕ) (heap : List Session) (key : Text) (m : List (Text × ℕ)) (h : ℕ)
    → lookup Text-discrete key m ≡ some h
    → is_expired timeout now (get_elem? heap h) ≡ true
    → is_in h (sweep timeout now heap m).1 ≡ true
unfolding sweep lookup
sweep-ends timeout now heap key [] h e x = cc
sweep-ends timeout now heap key ((k, i) ∷ m) h e x =
    ground (arith, sweep-ends timeout now heap key m h)
