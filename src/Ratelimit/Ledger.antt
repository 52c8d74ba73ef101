-- ===== src/Ratelimit/Ledger.antt =====
-- A map from client addresses to lists of stamped entries, pruned as it is used, against a view that
-- forgets nothing. The attempt and the bandwidth limiter keep such a map.
use packetpony.Base.{
  ℕ, ◌≤◌, ◌≡◌, refl, Bool, true, List, [], ◌∷◌, ◌++◌, get_or, ite, arith, inl, inr, if_pos, if_neg,
  subst, ◌⊎◌,
}
use packetpony.Base.Text.{Text, Text-discrete}
use packetpony.Base.Map.{lookup, insert, delete_where, lookup-insert, lookup-delete_where}
use packetpony.Ratelimit.Window.{
  live, is_stale, Agrees, Agrees-later, Agrees-live, Agrees-push, Agrees-nil,
}

-- A view with the entry of one address replaced.
abbrev pub update {ℓ} : {A : Type ℓ} → (Text → A) → Text → A → Text → A
update view ip a j = ite (Text-discrete ip j) a (view j)

-- What holds of every address but one, and of that one's new entry, holds of the updated view.
pub update_cases {ℓ κ} :
    {A : Type ℓ} (P : Text → A → Type κ) (view : Text → A) (ip : Text) (a : A)
    → P ip a
    → ((j : Text) → P j (view j))
    → (j : Text) → P j (update view ip a j)
update_cases P view ip a new old j = elim (Text-discrete ip j) [
  | yes p ↦ rw (if_pos _ p) (subst (λ k. P k a) p new)
  | no p ↦ rw (if_neg _ p) (old j)
]

module _ {V : Type 0} (d : V) where
  -- `m[k]` with the value that a missing key gives.
  abbrev pub value_of : List (Text × V) → Text → V
  value_of m k = get_or (lookup Text-discrete k m) d

  pub value_of-insert :
      (m : List (Text × V)) (ip j : Text) (v : V)
      → value_of (insert Text-discrete ip v m) j ≡ update (value_of m) ip v j
  value_of-insert m ip j v = ground (arith, lookup-insert Text-discrete ip j v m)

  -- After a sweep the value is the old one, or the default where the sweep deletes.
  pub value_of-delete_where :
      (p : V → Bool) (m : List (Text × V)) (k : Text)
      → (value_of (delete_where Text-discrete p m) k ≡ value_of m k)
        ⊎ ((p (value_of m k) ≡ true) × (value_of (delete_where Text-discrete p m) k ≡ d))
  value_of-delete_where p m k = ground (arith, lookup-delete_where Text-discrete p k m)

module _ {A : Type 0} where
  -- `m[ip]`, or a new entry with nothing in it.
  abbrev pub entry : List (Text × List A) → Text → List A
  entry = value_of []

module _ {A : Type 0} (stamp : A → ℕ) (window : ℕ) where
  abbrev pub Tracks : ℕ → List (Text × List A) → (Text → List A) → Type 0
  Tracks clock m view = (ip : Text) → Agrees stamp window clock (entry m ip) (view ip)

  pub Tracks-empty : Tracks 0 [] (λ ip. [])
  unfolding lookup
  Tracks-empty ip = record { ordered = omega arith; same = λ now q. refl }

  pub Tracks-later :
      (clock now : ℕ) (m : List (Text × List A)) (view : Text → List A)
      → Tracks clock m view
      → clock ≤ now
      → Tracks now m view
  Tracks-later clock now m view t q j = Agrees-later stamp window clock now _ _ (t j) q

  -- A pruned entry takes the place of the old one.
  pub Tracks-prune :
      (clock now : ℕ) (m : List (Text × List A)) (view : Text → List A) (ip : Text)
      → Tracks clock m view
      → clock ≤ now
      → Tracks now (insert Text-discrete ip (live stamp window now (entry m ip)) m) view
  Tracks-prune clock now m view ip t q j =
      rw (value_of-insert [] m ip j (live stamp window now (entry m ip))) (
        update_cases (λ k xs. Agrees stamp window now xs (view k)) (entry m) ip _
          (Agrees-live stamp window clock now _ _ (t ip) q) (Tracks-later clock now m view t q) j)

  -- So does a pruned entry with one more at its end.
  pub Tracks-push :
      (clock now : ℕ) (m : List (Text × List A)) (view : Text → List A) (ip : Text) (x : A)
      → Tracks clock m view
      → clock ≤ now
      → stamp x ≡ now
      → Tracks now
          (insert Text-discrete ip (live stamp window now (entry m ip) ++ x ∷ []) m)
          (update view ip (view ip ++ x ∷ []))
  Tracks-push clock now m view ip x t q e j =
      rw (value_of-insert [] m ip j (live stamp window now (entry m ip) ++ x ∷ []))
        (elim (Text-discrete ip j) [
          | yes p ↦ rw (if_pos _ p) (
              rw (if_pos _ p) (
                Agrees-push stamp window now now x _ _
                  (Agrees-live stamp window clock now _ _ (t ip) q) (omega arith) e))
          | no p ↦ rw (if_neg _ p) (rw (if_neg _ p) (Tracks-later clock now m view t q j))
        ])

  -- And the sweep of the stale entries.
  pub Tracks-delete_where :
      (clock now : ℕ) (m : List (Text × List A)) (view : Text → List A)
      → Tracks clock m view
      → clock ≤ now
      → Tracks now (delete_where Text-discrete (is_stale stamp window now) m) view
  Tracks-delete_where clock now m view t q j =
      elim (value_of-delete_where [] (is_stale stamp window now) m j) [
        | inl e ↦ rw e (Tracks-later clock now m view t q j)
        | inr (e, f) ↦ rw f (Agrees-nil stamp window clock now _ _ (t j) e q)
      ]
