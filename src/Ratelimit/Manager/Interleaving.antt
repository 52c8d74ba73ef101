-- ===== src/Ratelimit/Manager/Interleaving.antt =====
-- internal/ratelimit/limiter.go, AllowTotalConnection and ReleaseTotalConnection by any number of
-- goroutines at once, for a limit above 0: `atomic.AddInt64` is a step of its own, and so are the
-- comparison that follows it and the roll-back.
use packetpony.Base.{
  ℕ, zero, suc, ◌+◌, ◌-◌, ◌≤◌, ◌≡◌, refl, true, false, List, [], ◌∷◌, some, arith, ltb,
  if◌then◌else◌, length, get_elem?, without, length-without,
}

-- The counter; what the goroutines got that have added 1 and not yet compared; how many have failed
-- and not yet rolled back; and how many hold a place.
pub record Shared : Type 0 where
  pub total_conns : ℕ
  pub pending : List ℕ
  pub failing : ℕ
  pub holding : ℕ

abbrev pub start : Shared
start = record { total_conns = 0; pending = []; failing = 0; holding = 0 }

module _ (max_total_conns : ℕ) where
  pub data Step : Shared → Shared → Type 0 where
    add :
        (s : Shared)
        → Step s (record s {
          total_conns = s.total_conns + 1;
          pending = (s.total_conns + 1) ∷ s.pending;
        })
    pass :
        (s : Shared) (i current : ℕ)
        → get_elem? s.pending i ≡ some current
        → ltb max_total_conns current ≡ false
        → Step s (record s { pending = without s.pending i; holding = s.holding + 1 })
    refuse :
        (s : Shared) (i current : ℕ)
        → get_elem? s.pending i ≡ some current
        → ltb max_total_conns current ≡ true
        → Step s (record s { pending = without s.pending i; failing = s.failing + 1 })
    roll_back :
        (s : Shared) (n : ℕ)
        → s.failing ≡ suc n
        → Step s (record s { total_conns = s.total_conns - 1; failing = n })
    release :
        (s : Shared) (n : ℕ)
        → s.holding ≡ suc n
        → Step s (record s { total_conns = s.total_conns - 1; holding = n })

  pub data Steps : Shared → Shared → Type 0 where
    done : (s : Shared) → Steps s s
    next : (s t u : Shared) → Step s t → Steps t u → Steps s u

  -- The goroutines that will pass.
  passing : List ℕ → ℕ
  passing [] = 0
  passing (c ∷ cs) = if ltb max_total_conns c then passing cs else passing cs + 1

  passing-le : (cs : List ℕ) → passing cs ≤ length cs
  unfolding passing
  passing-le [] = omega arith
  passing-le (c ∷ cs) = ground (arith, passing-le cs)

  passing-without :
      (cs : List ℕ) (i c : ℕ)
      → get_elem? cs i ≡ some c
      → passing cs
        ≡ (if ltb max_total_conns c then passing (without cs i) else passing (without cs i) + 1)
  unfolding passing without
  passing-without [] i c e = cc
  passing-without (x ∷ xs) zero c e = ground arith
  passing-without (x ∷ xs) (suc i) c e = ground (arith, passing-without xs i c e)

  -- The counter counts every goroutine that has added and not yet given back, and those that hold or
  -- will get a place are within the limit.
  record Counts (s : Shared) : Type 0 where
    all : s.total_conns ≡ length s.pending + s.failing + s.holding
    within : passing s.pending + s.holding ≤ max_total_conns

  Step-Counts : (s t : Shared) → Step s t → Counts s → Counts t
  unfolding passing
  Step-Counts s t (add _) h = record {
    all = omega (arith, h.all);
    within = ground (arith, h.all, h.within, passing-le s.pending);
  }
  Step-Counts s t (pass _ i c e p) h = record {
    all = omega (arith, h.all, length-without s.pending i c e);
    within = ground (arith, h.within, passing-without s.pending i c e);
  }
  Step-Counts s t (refuse _ i c e p) h = record {
    all = omega (arith, h.all, length-without s.pending i c e);
    within = ground (arith, h.within, passing-without s.pending i c e);
  }
  Step-Counts s t (roll_back _ n e) h = record { all = omega (arith, h.all, e); within = h.within }
  Step-Counts s t (release _ n e) h = record {
    all = omega (arith, h.all, e);
    within = omega (arith, h.within, e);
  }

  Steps-Counts : (s t : Shared) → Steps s t → Counts s → Counts t
  Steps-Counts s t (done _) h = h
  Steps-Counts s u (next _ t _ x xs) h = Steps-Counts t u xs (Step-Counts s t x h)

  -- From a counter at 0, however the atomic steps of the goroutines interleave, no more connections
  -- hold a place than the limit allows, and once all calls have returned the counter is the number
  -- of those that hold one.
  pub Steps-bounded :
      (t : Shared)
      → Steps start t
      → (t.holding ≤ max_total_conns) × (t.pending ≡ [] → t.failing ≡ 0 → t.total_conns ≡ t.holding)
  unfolding passing
  Steps-bounded t xs =
      let h = Steps-Counts start t xs (record { all = refl; within = omega arith }) in
      (omega (arith, h.within), λ p f. ground (arith, h.all, p, f))
