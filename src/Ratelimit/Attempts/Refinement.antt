-- ===== src/Ratelimit/Attempts/Refinement.antt =====
-- The attempt limiter against an ideal one that keeps every attempt for ever and never sweeps.
use packetpony.Base.{ℕ, ◌≤◌, ◌≡◌, refl, ap, ap₂, Bool, List, [], ◌∷◌, ◌++◌, arith, length, ltb}
use packetpony.Base.Text.{Text, Text-discrete}
use packetpony.Base.Map.{insert}
use packetpony.Ratelimit.Window.{live}
use packetpony.Ratelimit.Ledger.{
  entry, update, Tracks, Tracks-empty, Tracks-push, Tracks-delete_where,
}
use packetpony.Ratelimit.Attempts.{AttemptLimiter, new_attempt_limiter, record_attempt, cleanup}

-- A call of the limiter, with the time at which it is made.
pub data Call : Type 0 where
  attempt : Text → ℕ → Call
  tick : ℕ → Call

abbrev pub time_of : Call → ℕ
time_of (attempt ip now) = now
time_of (tick now) = now

-- The times of the calls do not fall.
abbrev pub Chronological : ℕ → List Call → Type 0
Chronological clock [] = Unit {0}
Chronological clock (c ∷ cs) = (clock ≤ time_of c) × Chronological (time_of c) cs

-- The answers of the attempts of a list of calls, in order.
pub answers : AttemptLimiter → List Call → List Bool
answers l [] = []
answers l (attempt ip now ∷ cs) =
    let (l', allowed) = record_attempt l ip now in allowed ∷ answers l' cs
answers l (tick now ∷ cs) = answers (cleanup l now) cs

-- How many of the times lie in the window that ends now.
abbrev pub count_in_window : ℕ → ℕ → List ℕ → ℕ
count_in_window window now ts = length (live {A = ℕ} (λ t. t) window now ts)

-- The ideal limiter: `seen ip` lists all attempts of `ip` so far. An attempt is allowed exactly if
-- fewer than the maximum of them lie in the window.
pub ideal_answers : ℕ → ℕ → (Text → List ℕ) → List Call → List Bool
ideal_answers max window seen [] = []
ideal_answers max window seen (attempt ip now ∷ cs) =
    ltb (count_in_window window now (seen ip)) max
    ∷ ideal_answers max window (update seen ip (seen ip ++ now ∷ [])) cs
ideal_answers max window seen (tick now ∷ cs) = ideal_answers max window seen cs

-- One call, with its branches joined.
pub record_attempt_lem :
    (l : AttemptLimiter) (ip : Text) (now : ℕ)
    → record_attempt l ip now ≡ (
      record l {
        attempts =
            insert Text-discrete ip
              (live {A = ℕ} (λ t. t) l.window now (entry l.attempts ip) ++ now ∷ [])
              l.attempts;
      },
      ltb (count_in_window l.window now (entry l.attempts ip)) l.max_per_ip,
    )
unfolding record_attempt
record_attempt_lem l ip now = ground arith

answers-ideal :
    (cs : List Call) (clock : ℕ) (l : AttemptLimiter) (seen : Text → List ℕ)
    → Tracks {A = ℕ} (λ t. t) l.window clock l.attempts seen
    → Chronological clock cs
    → answers l cs ≡ ideal_answers l.max_per_ip l.window seen cs
unfolding answers ideal_answers cleanup
answers-ideal [] clock l seen t h = refl
answers-ideal (attempt ip now ∷ cs) clock l seen t h = rw (record_attempt_lem l ip now) (
    ap₂ (λ (b : Bool) (bs : List Bool). b ∷ bs)
      (ap (λ ts. ltb (length {A = ℕ} ts) l.max_per_ip) ((t ip).same now h.0))
      (answers-ideal cs now _ _
        (Tracks-push {A = ℕ} (λ t. t) l.window clock now l.attempts seen ip now t h.0 refl) h.1))
answers-ideal (tick now ∷ cs) clock l seen t h =
    answers-ideal cs now _ seen
      (Tracks-delete_where {A = ℕ} (λ t. t) l.window clock now l.attempts seen t h.0) h.1

-- For calls of `RecordAttempt` and `cleanup` in the order of time, a new attempt limiter gives the
-- answers of the ideal one, which keeps every attempt: pruning and sweeping lose none that still
-- counts.
pub answers-new_attempt_limiter :
    (max window : ℕ) (cs : List Call)
    → Chronological 0 cs
    → answers (new_attempt_limiter max window) cs ≡ ideal_answers max window (λ ip. []) cs
unfolding new_attempt_limiter
answers-new_attempt_limiter max window cs h =
    answers-ideal cs 0 _ (λ ip. []) (Tracks-empty {A = ℕ} (λ t. t) window) h
