-- ===== src/Acl/Rules.antt =====
-- What an allowlist allows.
use packetpony.Base.{◌≡◌, refl, ◌⊎◌, ◌↔◌, inl, inr, true, List, [], ◌∷◌, arith}
use packetpony.Base.Text.{Text}
use packetpony.Net.{Ip, IpNet, Net}
use packetpony.Acl.{
  Allowlist, ParseError, Result, ok, invalid_entry, contains, parse_cidr_or_ip, parse_entries,
  new_allowlist, matches_any, is_allowed,
}

-- Some rule of the list contains the address.
abbrev pub SomeContains : List IpNet → Ip → Type 0
SomeContains [] ip = ⊥
SomeContains (r ∷ rs) ip = (contains r ip ≡ true) ⊎ SomeContains rs ip

matches_any_iff : (rs : List IpNet) (ip : Ip) → (matches_any rs ip ≡ true) ↔ SomeContains rs ip
unfolding matches_any
matches_any_iff [] ip = (λ h. cc, λ h. absurd h)
matches_any_iff (r ∷ rs) ip = ground (arith, matches_any_iff rs ip)

-- An allowlist allows an address exactly if one of its rules contains it; so an empty one allows none.
pub is_allowed_iff : (a : Allowlist) (ip : Ip) → (is_allowed a ip ≡ true) ↔ SomeContains a.rules ip
unfolding is_allowed
is_allowed_iff a ip = go a.rules
  where
    go : (rs : List IpNet) → (is_allowed (record { rules = rs }) ip ≡ true) ↔ SomeContains rs ip
    go [] = (λ h. cc, λ h. absurd h)
    go (r ∷ rs) = ground (arith, matches_any_iff (r ∷ rs) ip)

-- Each entry parses to the rule at its place.
abbrev pub ParseTo : Net → List Text → List IpNet → Type 0
ParseTo net [] [] = Unit
ParseTo net [] (r ∷ rs) = ⊥
ParseTo net (e ∷ es) [] = ⊥
ParseTo net (e ∷ es) (r ∷ rs) = (parse_cidr_or_ip net e ≡ inl r) × ParseTo net es rs

-- `e` is the first entry that does not parse.
abbrev pub FirstInvalid : Net → List Text → Text → ParseError → Type 0
FirstInvalid net [] e x = ⊥
FirstInvalid net (f ∷ fs) e x =
    ((e ≡ f) × (parse_cidr_or_ip net f ≡ inr x))
    ⊎ (((r : IpNet) × (parse_cidr_or_ip net f ≡ inl r)) × FirstInvalid net fs e x)

-- What an outcome of `NewAllowlist` says of the entries.
abbrev pub Outcome : Net → List Text → Result Allowlist → Type 0
Outcome net es (ok a) = ParseTo net es a.rules
Outcome net es (invalid_entry e x) = FirstInvalid net es e x

abbrev EntriesOutcome : Net → List Text → Result (List IpNet) → Type 0
EntriesOutcome net es (ok rs) = ParseTo net es rs
EntriesOutcome net es (invalid_entry e x) = FirstInvalid net es e x

EntriesOutcome-cons :
    (net : Net) (e : Text) (es : List Text) (p : IpNet ⊎ ParseError) (r : Result (List IpNet))
    → parse_cidr_or_ip net e ≡ p
    → EntriesOutcome net es r
    → EntriesOutcome net (e ∷ es) (elim p [
      | inr x ↦ invalid_entry e x
      | inl n ↦ elim r [ ok ns ↦ ok (n ∷ ns) | invalid_entry f x ↦ invalid_entry f x ]
    ])
EntriesOutcome-cons net e es (inr x) r q h = inl (refl, q)
EntriesOutcome-cons net e es (inl n) (ok ns) q h = (q, h)
EntriesOutcome-cons net e es (inl n) (invalid_entry f x) q h = inr ((n, q), h)

parse_entries-Outcome : (net : Net) (es : List Text) → EntriesOutcome net es (parse_entries net es)
unfolding parse_entries
parse_entries-Outcome net [] = tt
parse_entries-Outcome net (e ∷ es) =
    EntriesOutcome-cons net e es _ _ refl (parse_entries-Outcome net es)

-- `NewAllowlist` gives a rule for each entry, in order, or the first entry that does not parse with
-- its error.
pub new_allowlist-Outcome : (net : Net) (es : List Text) → Outcome net es (new_allowlist net es)
unfolding new_allowlist
new_allowlist-Outcome net es = go (parse_entries net es) (parse_entries-Outcome net es)
  where
    go :
        (r : Result (List IpNet))
        → EntriesOutcome net es r
        → Outcome net es
            (elim r [ ok ns ↦ ok (record { rules = ns }) | invalid_entry e x ↦ invalid_entry e x ])
    go (ok ns) h = h
    go (invalid_entry e x) h = h
