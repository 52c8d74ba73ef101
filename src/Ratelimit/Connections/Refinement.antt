-- ===== src/Ratelimit/Connections/Refinement.antt =====
-- The connection limiter against an ideal one that has a queue of times for each address, no counts
-- and no sweeps.
use packetpony.Base.{
  ℕ, ◌+◌, ◌≤◌, ◌≡◌, refl, ap, ap₂, fun_ext, ◌∙◌, sym, Bool, true, List, [], ◌∷◌, ◌++◌, get_or,
  arith, length, leb, ltb, if◌then◌else◌, inl, inr, tail, length-append, length-keep-le,
}
use packetpony.Base.Text.{Text, Text-discrete}
use packetpony.Base.Map.{lookup, insert}
use packetpony.Ratelimit.Window.{live}
use packetpony.Ratelimit.Ledger.{update, update_cases, value_of-insert, value_of-delete_where}
use packetpony.Ratelimit.Connections.{
  ConnectionLimiter, ConnEntry, new_entry, new_connection_limiter, allow, release, released,
  cleanup, is_unused,
}

abbrev pub entry_of : ConnectionLimiter → Text → ConnEntry
entry_of l ip = get_or (lookup Text-discrete ip l.connections) new_entry

-- The count of an entry is the length of its list, and within the maximum.
pub record IsEntry (max : ℕ) (e : ConnEntry) : Type 0 where
  pub counted : e.count ≡ length e.timestamps
  pub bounded : length e.timestamps ≤ max

abbrev pub IsConsistent : ConnectionLimiter → Type 0
IsConsistent l = (ip : Text) → IsEntry l.max_per_ip (entry_of l ip)

released-IsEntry : (max : ℕ) (e : ConnEntry) → IsEntry max e → IsEntry max (released e)
released-IsEntry max e h = go e.count e.timestamps h.counted h.bounded
  where
    go :
        (n : ℕ) (ts : List ℕ)
        → n ≡ length ts
        → length ts ≤ max
        → IsEntry max (released (record { count = n; timestamps = ts }))
    go n [] c b = ground arith
    go n (t ∷ ts) c b = ground arith

-- What `allow` leaves for the address.
abbrev pub allowed_entry : ConnectionLimiter → Text → ℕ → ConnEntry
allowed_entry l ip now =
    let q = live {A = ℕ} (λ t. t) l.window now (entry_of l ip).timestamps in
    if leb l.max_per_ip (length q)
    then record { count = length q; timestamps = q }
    else record { count = length q + 1; timestamps = q ++ now ∷ [] }

pub allow_lem :
    (l : ConnectionLimiter) (ip : Text) (now : ℕ)
    → allow l ip now ≡ (
      record l { connections = insert Text-discrete ip (allowed_entry l ip now) l.connections },
      ltb (length (live {A = ℕ} (λ t. t) l.window now (entry_of l ip).timestamps)) l.max_per_ip,
    )
unfolding allow
allow_lem l ip now = ground arith

allowed_entry-IsEntry :
    (l : ConnectionLimiter) (ip : Text) (now : ℕ)
    → IsEntry l.max_per_ip (entry_of l ip)
    → IsEntry l.max_per_ip (allowed_entry l ip now)
allowed_entry-IsEntry l ip now h = ground (
  arith,
  length-append (live {A = ℕ} (λ t. t) l.window now (entry_of l ip).timestamps) (now ∷ []),
  length-keep-le (λ t. ltb now (t + l.window)) (entry_of l ip).timestamps,
)

-- A released entry takes the place of the old one; for an address with none nothing changes.
release-entry_of :
    (l : ConnectionLimiter) (ip j : Text)
    → entry_of (release l ip) j ≡ update (entry_of l) ip (released (entry_of l ip)) j
unfolding release
release-entry_of l ip j =
    ground (arith, value_of-insert new_entry l.connections ip j (released (entry_of l ip)))

-- A sweep deletes only what is empty, so it cannot be seen.
pub cleanup-entry_of :
    (l : ConnectionLimiter) (now : ℕ)
    → IsConsistent l
    → (ip : Text) → entry_of (cleanup l now) ip ≡ entry_of l ip
unfolding cleanup
cleanup-entry_of l now h ip =
    elim (value_of-delete_where new_entry (is_unused l.window now) l.connections ip) [
      | inl e ↦ e
      | inr (p, e) ↦ e ∙ sym (empty (entry_of l ip) (h ip) p)
    ]
  where
    empty :
        (e : ConnEntry) → IsEntry l.max_per_ip e → is_unused l.window now e ≡ true → e ≡ new_entry
    empty e c p = go e.count e.timestamps c.counted p
      where
        go :
            (n : ℕ) (ts : List ℕ)
            → n ≡ length ts
            → is_unused l.window now (record { count = n; timestamps = ts }) ≡ true
            → ◌≡◌ {A = ConnEntry} (record { count = n; timestamps = ts }) new_entry
        go n [] c p = ground arith
        go n (t ∷ ts) c p = absurd (ground arith)

allow-IsConsistent :
    (l : ConnectionLimiter) (ip : Text) (now : ℕ) → IsConsistent l → IsConsistent (allow l ip now).0
allow-IsConsistent l ip now h j =
    rw (allow_lem l ip now, value_of-insert new_entry l.connections ip j (allowed_entry l ip now))
      (update_cases (λ k e. IsEntry l.max_per_ip e) (entry_of l) ip _
        (allowed_entry-IsEntry l ip now (h ip)) h j)

release-max_per_ip :
    (l : ConnectionLimiter) (ip : Text)
    → ((release l ip).max_per_ip ≡ l.max_per_ip) × ((release l ip).window ≡ l.window)
unfolding release
release-max_per_ip l ip = ground arith

release-IsConsistent :
    (l : ConnectionLimiter) (ip : Text) → IsConsistent l → IsConsistent (release l ip)
release-IsConsistent l ip h j =
    rw (release-entry_of l ip j, (release-max_per_ip l ip).0)
      (update_cases (λ k e. IsEntry l.max_per_ip e) (entry_of l) ip _
        (released-IsEntry l.max_per_ip (entry_of l ip) (h ip)) h j)

cleanup-IsConsistent :
    (l : ConnectionLimiter) (now : ℕ) → IsConsistent l → IsConsistent (cleanup l now)
unfolding cleanup
cleanup-IsConsistent l now h j = rw (cleanup-entry_of l now h j) (h j)

-- A call of the limiter: a connection is opened or closed, or the ticker fires.
pub data Call : Type 0 where
  open_conn : Text → ℕ → Call
  close_conn : Text → Call
  tick : ℕ → Call

-- The answers of the calls of `allow`, in order.
pub answers : ConnectionLimiter → List Call → List Bool
answers l [] = []
answers l (open_conn ip now ∷ cs) = let (l', allowed) = allow l ip now in allowed ∷ answers l' cs
answers l (close_conn ip ∷ cs) = answers (release l ip) cs
answers l (tick now ∷ cs) = answers (cleanup l now) cs

-- The ideal limiter: `open_at ip` lists the times of the connections that it counts for `ip`.
pub ideal_answers : ℕ → ℕ → (Text → List ℕ) → List Call → List Bool
ideal_answers max window open_at [] = []
ideal_answers max window open_at (open_conn ip now ∷ cs) =
    let counted = live {A = ℕ} (λ t. t) window now (open_at ip) in
    ltb (length counted) max
    ∷ ideal_answers max window
        (update open_at ip (if ltb (length counted) max then counted ++ now ∷ [] else counted)) cs
ideal_answers max window open_at (close_conn ip ∷ cs) =
    ideal_answers max window (update open_at ip (tail (open_at ip))) cs
ideal_answers max window open_at (tick now ∷ cs) = ideal_answers max window open_at cs

abbrev pub times_of : ConnectionLimiter → Text → List ℕ
times_of l ip = (entry_of l ip).timestamps

times_of-allow :
    (l : ConnectionLimiter) (ip : Text) (now : ℕ) (j : Text)
    → times_of (allow l ip now).0 j
      ≡ update
          (times_of l)
          ip
          (let q = live {A = ℕ} (λ t. t) l.window now (times_of l ip) in
            if ltb (length q) l.max_per_ip then q ++ now ∷ [] else q)
          j
times_of-allow l ip now j = rw (allow_lem l ip now) (
    ap (λ (e : ConnEntry). e.timestamps)
      (value_of-insert new_entry l.connections ip j (allowed_entry l ip now))
    ∙ ground arith)

released-timestamps :
    (n : ℕ) (ts : List ℕ)
    → n ≡ length ts
    → (released (record { count = n; timestamps = ts })).timestamps ≡ tail ts
released-timestamps n [] e = ground arith
released-timestamps n (t ∷ ts) e = ground arith

times_of-release :
    (l : ConnectionLimiter) (ip j : Text)
    → IsConsistent l
    → times_of (release l ip) j ≡ update (times_of l) ip (tail (times_of l ip)) j
times_of-release l ip j h =
    ap (λ (e : ConnEntry). e.timestamps) (release-entry_of l ip j)
    ∙ ground (arith, released-timestamps (entry_of l ip).count (times_of l ip) (h ip).counted)

answers-times_of :
    (cs : List Call) (l : ConnectionLimiter)
    → IsConsistent l
    → answers l cs ≡ ideal_answers l.max_per_ip l.window (times_of l) cs
unfolding answers ideal_answers cleanup
answers-times_of [] l h = refl
answers-times_of (open_conn ip now ∷ cs) l h =
    ap₂ (λ (b : Bool) (bs : List Bool). b ∷ bs)
      (ap (λ (r : ConnectionLimiter × Bool). r.1) (allow_lem l ip now))
      (answers-times_of cs (allow l ip now).0 (allow-IsConsistent l ip now h)
        ∙ rw (fun_ext (times_of-allow l ip now), allow_lem l ip now) refl)
answers-times_of (close_conn ip ∷ cs) l h =
    answers-times_of cs (release l ip) (release-IsConsistent l ip h)
    ∙ rw
        (
          fun_ext (λ j. times_of-release l ip j h),
          (release-max_per_ip l ip).0,
          (release-max_per_ip l ip).1,
        )
        refl
answers-times_of (tick now ∷ cs) l h =
    answers-times_of cs _ (cleanup-IsConsistent l now h)
    ∙ ap (λ s. ideal_answers l.max_per_ip l.window s cs)
        (fun_ext (λ ip. ap (λ (e : ConnEntry). e.timestamps) (cleanup-entry_of l now h ip)))

-- A new connection limiter gives the answers of the ideal one, which never sweeps, whatever the
-- calls of `Allow`, `Release` and `cleanup` and their times.
pub answers-new_connection_limiter :
    (max window : ℕ) (cs : List Call)
    → answers (new_connection_limiter max window) cs ≡ ideal_answers max window (λ ip. []) cs
unfolding new_connection_limiter lookup
answers-new_connection_limiter max window cs = answers-times_of cs _ (λ ip. ground arith)
