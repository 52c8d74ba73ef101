-- ===== src/Ratelimit/Window.antt =====
-- The sliding windows of internal/ratelimit: which entries of a list a window still holds.
-- `time.Time` is a number of nanoseconds, so `now.Add(-d)` may lie before 0: the two tests are
-- written with the duration on the other side.
use packetpony.Base.{
  ℕ, ◌+◌, ◌*◌, ◌≤◌, ◌≡◌, refl, Bool, true, List, [], ◌∷◌, ◌++◌, some, none, arith, ltb, keep, last?,
  inl, inr, Option-cases, ap, sym, subst, ◌∙◌, keep-append,
}

-- `t.After(now.Add(-d))`.
abbrev pub is_after_cutoff : ℕ → ℕ → ℕ → Bool
is_after_cutoff d now t = ltb now (t + d)

-- `t.Before(now.Add(-d))`.
abbrev pub is_before_cutoff : ℕ → ℕ → ℕ → Bool
is_before_cutoff d now t = ltb (t + d) now

module _ {A : Type 0} (stamp : A → ℕ) where
  -- The loops that rebuild `validTimestamps` and `validEntries`.
  abbrev pub live : ℕ → ℕ → List A → List A
  live window now = keep (λ x. is_after_cutoff window now (stamp x))

  -- What the loops of `cleanup` delete: an entry with nothing in it, or nothing younger than twice
  -- the window.
  abbrev pub is_stale : ℕ → ℕ → List A → Bool
  is_stale window now xs = elim (last? xs) [
    | none ↦ true
    | some x ↦ is_before_cutoff (window * 2) now (stamp x)
  ]

  -- The stamps do not fall, and lie between two times.
  abbrev pub Ascending : ℕ → List A → ℕ → Type 0
  Ascending lo [] hi = lo ≤ hi
  Ascending lo (x ∷ xs) hi = (lo ≤ stamp x) × Ascending (stamp x) xs hi

  Ascending-le : (lo : ℕ) (xs : List A) (hi : ℕ) → Ascending lo xs hi → lo ≤ hi
  Ascending-le lo [] hi h = h
  Ascending-le lo (x ∷ xs) hi h = omega (arith, Ascending-le (stamp x) xs hi h.1)

  pub Ascending-mono :
      (lo lo' hi hi' : ℕ) (xs : List A)
      → lo' ≤ lo
      → hi ≤ hi'
      → Ascending lo xs hi
      → Ascending lo' xs hi'
  Ascending-mono lo lo' hi hi' [] p q h = omega arith
  Ascending-mono lo lo' hi hi' (x ∷ xs) p q h =
      (omega arith, Ascending-mono (stamp x) (stamp x) hi hi' xs (omega arith) q h.1)

  pub Ascending-push :
      (lo hi : ℕ) (x : A) (xs : List A)
      → Ascending lo xs hi
      → hi ≤ stamp x
      → Ascending lo (xs ++ x ∷ []) (stamp x)
  Ascending-push lo hi x [] h q = (omega arith, omega arith)
  Ascending-push lo hi x (y ∷ ys) h q = (h.0, Ascending-push (stamp y) hi x ys h.1 q)

  pub Ascending-live :
      (window now lo hi : ℕ) (xs : List A)
      → Ascending lo xs hi
      → Ascending lo (live window now xs) hi
  Ascending-live window now lo hi [] h = h
  Ascending-live window now lo hi (x ∷ xs) h = ground (
    arith,
    Ascending-live window now (stamp x) hi xs h.1,
    Ascending-mono (stamp x) lo hi hi (live window now xs),
  )

  pub Ascending-tail :
      (lo hi : ℕ) (x : A) (xs : List A) → Ascending lo (x ∷ xs) hi → Ascending lo xs hi
  Ascending-tail lo hi x xs h = Ascending-mono (stamp x) lo hi hi xs h.0 (omega arith) h.1

  -- Pruning early changes nothing that a later prune keeps.
  pub live-live :
      (window now later : ℕ) (xs : List A)
      → now ≤ later
      → live window later (live window now xs) ≡ live window later xs
  live-live window now later [] h = refl
  live-live window now later (x ∷ xs) h = ground (arith, live-live window now later xs)

  -- If the last entry is out of the window, so are all.
  pub live-nil_of_last :
      (window now lo hi : ℕ) (x : A) (xs : List A)
      → Ascending lo xs hi
      → last? xs ≡ some x
      → stamp x + window ≤ now
      → live window now xs ≡ []
  live-nil_of_last window now lo hi x [] h e q = refl
  live-nil_of_last window now lo hi x (y ∷ []) h e q = ground arith
  live-nil_of_last window now lo hi x (y ∷ z ∷ zs) h e q = ground (
    arith,
    live-nil_of_last window now (stamp y) hi x (z ∷ zs) h.1 e q,
    stamp-le-last y (z ∷ zs) x h.1 e,
  )
    where
      stamp-le-last :
          (y : A) (ys : List A) (x : A)
          → Ascending (stamp y) ys hi
          → last? ys ≡ some x
          → stamp y ≤ stamp x
      stamp-le-last y [] x h e = cc
      stamp-le-last y (w ∷ []) x h e = ground arith
      stamp-le-last y (w ∷ v ∷ vs) x h e = omega (arith, stamp-le-last w (v ∷ vs) x h.1 e)

  last-ne-none : (y : A) (ys : List A) → ¬ (last? (y ∷ ys) ≡ none)
  last-ne-none y [] g = cc
  last-ne-none y (z ∷ zs) g = last-ne-none z zs g

  pub live-nil_of_stale :
      (window now later hi : ℕ) (xs : List A)
      → Ascending 0 xs hi
      → is_stale window now xs ≡ true
      → now ≤ later
      → live window later xs ≡ []
  live-nil_of_stale window now later hi xs h e q = elim (Option-cases (last? xs)) [
    | inl empty ↦ nil_of_last xs empty
    | inr (x, l) ↦ live-nil_of_last window later 0 hi x xs h l (bound x (rw (l, is_stale) at e))
  ]
    where
      nil_of_last : (ys : List A) → last? ys ≡ none → live window later ys ≡ []
      nil_of_last [] g = refl
      nil_of_last (y ∷ []) g = cc
      nil_of_last (y ∷ z ∷ zs) g = absurd (last-ne-none z zs g)

      bound :
          (x : A) → is_before_cutoff (window * 2) now (stamp x) ≡ true → stamp x + window ≤ later
      bound x g = ground arith

  -- A pruned list agrees with a list that forgets nothing, from `clock` on.
  pub record Agrees (window clock : ℕ) (xs ys : List A) : Type 0 where
    pub ordered : Ascending 0 xs clock
    pub same : (now : ℕ) → clock ≤ now → live window now xs ≡ live window now ys

  pub Agrees-later :
      (window clock now : ℕ) (xs ys : List A)
      → Agrees window clock xs ys
      → clock ≤ now
      → Agrees window now xs ys
  Agrees-later window clock now xs ys a q = record {
    ordered = Ascending-mono 0 0 clock now xs (omega arith) q a.ordered;
    same = λ later h. a.same later (omega arith);
  }

  pub Agrees-live :
      (window clock now : ℕ) (xs ys : List A)
      → Agrees window clock xs ys
      → clock ≤ now
      → Agrees window now (live window now xs) ys
  Agrees-live window clock now xs ys a q = record {
    ordered = Ascending-live window now 0 now xs (Agrees-later window clock now xs ys a q).ordered;
    same = λ later h. live-live window now later xs h ∙ a.same later (omega arith);
  }

  pub Agrees-push :
      (window clock now : ℕ) (x : A) (xs ys : List A)
      → Agrees window clock xs ys
      → clock ≤ now
      → stamp x ≡ now
      → Agrees window now (xs ++ x ∷ []) (ys ++ x ∷ [])
  Agrees-push window clock now x xs ys a q e = record {
    ordered =
        subst (Ascending 0 (xs ++ x ∷ [])) e (Ascending-push 0 clock x xs a.ordered (omega arith));
    same = λ later h.
        keep-append _ xs (x ∷ [])
        ∙ ap (λ zs. zs ++ live window later (x ∷ [])) (a.same later (omega arith))
        ∙ sym (keep-append _ ys (x ∷ []));
  }

  pub Agrees-nil :
      (window clock now : ℕ) (xs ys : List A)
      → Agrees window clock xs ys
      → is_stale window now xs ≡ true
      → clock ≤ now
      → Agrees window now [] ys
  Agrees-nil window clock now xs ys a e q = record {
    ordered = omega arith;
    same = λ later h.
        sym (live-nil_of_stale window now later clock xs a.ordered e h)
        ∙ a.same later (omega arith);
  }
