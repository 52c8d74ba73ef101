-- ===== src/Config/Accepted.antt =====
-- What a configuration that `Validate` accepts promises to the other parts of the program.
use packetpony.Base.{
  ℕ, ◌+◌, ◌≡◌, ◌≢◌, refl, inl, inr, Bool, true, false, List, [], ◌∷◌, Option, some, none, arith,
  if◌then◌else◌, map, All, All-map, Bool-cases, Option-cases,
}
use packetpony.Base.Int.{pos, ◌≤ℤ◌}
use packetpony.Base.Text.{Text, trim_space, contains_char}
use packetpony.Net.{Net, IpNet}
use packetpony.Acl.{Allowlist, ok, single_address, parse_cidr_or_ip, parse_entries, new_allowlist}
use packetpony.Ratelimit.Manager.{new_rate_limit_manager}
use packetpony.Ratelimit.Manager.Places.{Holds}
use packetpony.Config.{Config, ListenerConfig, RateLimitConfig}
use packetpony.Config.Validate.{
  Fault, ◌then◌, fails, within, is_text, is_empty, has, validate_protocol, validate_cidr_or_ip,
  validate_entries, validate_rate_limits, validate_listener, validate_listeners, validate,
}

pub then-none : (a b : Option Fault) → (a then b) ≡ none → (a ≡ none) × (b ≡ none)
unfolding ◌then◌
then-none none b e = (refl, e)
then-none (some x) b e = cc

pub within-none : (f : Fault → Fault) (a : Option Fault) → within f a ≡ none → a ≡ none
unfolding within
within-none f none e = refl
within-none f (some x) e = cc

pub fails-none : (b : Bool) (x : Fault) → fails b x ≡ none → b ≡ false
unfolding fails
fails-none true x e = cc
fails-none false x e = refl

parses :
    (net : Net) (s : Text)
    → validate_cidr_or_ip net s ≡ none
    → (n : IpNet) × (parse_cidr_or_ip net s ≡ inl n)
unfolding validate_cidr_or_ip parse_cidr_or_ip
parses net s e = elim (Bool-cases (is_empty (trim_space s))) [
  | inl m ↦ absurd (ground arith)
  | inr m ↦ elim (Bool-cases (contains_char (trim_space s) b'/')) [
    | inl c ↦ elim (Option-cases (net.parse_cidr (trim_space s))) [
      | inl p ↦ absurd (ground arith)
      | inr (n, p) ↦ (n, ground arith)
    ]
    | inr c ↦ elim (Option-cases (net.parse_ip (trim_space s))) [
      | inl p ↦ absurd (ground arith)
      | inr (ip, p) ↦ (single_address net ip, ground arith)
    ]
  ]
]

entries-parse :
    (net : Net) (i : ℕ) (es : List Text)
    → validate_entries net i es ≡ none
    → (ns : List IpNet) × (parse_entries net es ≡ ok ns)
unfolding validate_entries parse_entries
entries-parse net i [] e = ([], refl)
entries-parse net i (s ∷ es) e =
    let (head, rest) =
      then-none (within _ (validate_cidr_or_ip net s)) (validate_entries net (i + 1) es) e in
    let (n, p) = parses net s (within-none _ (validate_cidr_or_ip net s) head) in
    let (ns, q) = entries-parse net (i + 1) es rest in
    (n ∷ ns, rw (p, parse_entries) (rw (q, parse_entries) refl))

-- An allowlist that passes the checks never fails to load: `NewAllowlist` gives a list of its rules.
pub new_allowlist-validate_entries :
    (net : Net) (es : List Text)
    → validate_entries net 0 es ≡ none
    → (a : Allowlist) × (new_allowlist net es ≡ ok a)
unfolding new_allowlist
new_allowlist-validate_entries net es e =
    let (ns, q) = entries-parse net 0 es e in (record { rules = ns }, rw (q, new_allowlist) refl)

limit_nonneg :
    (r : RateLimitConfig) → validate_rate_limits r ≡ none → pos 0 ≤ℤ r.max_total_connections
unfolding validate_rate_limits
limit_nonneg r e =
    let (a, e₁) = then-none _ _ e in
    let (b, e₂) = then-none _ _ e₁ in
    let (c, e₃) = then-none _ _ e₂ in
    let (d, e₄) = then-none _ _ e₃ in
    let (f, e₅) = then-none _ _ e₄ in
    let (g, e₆) = then-none _ _ e₅ in
    let (h, e₇) = then-none _ _ e₆ in ground (arith, fails-none _ _ h)

-- Rate limits that pass the checks give a manager whose counter starts within its limit, so it keeps
-- its bound from then on.
pub new_rate_limit_manager-Holds :
    (r : RateLimitConfig) → validate_rate_limits r ≡ none → Holds (new_rate_limit_manager r) 0
unfolding validate_rate_limits new_rate_limit_manager
new_rate_limit_manager-Holds r e = record {
  limited = limit_nonneg r e;
  counted = ground arith;
  bounded = inr (omega arith);
}

-- A listener that passes the checks has an allowlist that loads, and rate limits whose counter starts
-- within its limit.
pub validate_listener-none :
    (net : Net) (l : ListenerConfig)
    → validate_listener net l ≡ none
    → (validate_entries net 0 l.allowlist ≡ none) × (validate_rate_limits l.rate_limits ≡ none)
unfolding validate_listener
validate_listener-none net l e =
    let (a, e₁) = then-none _ _ e in
    let (b, e₂) = then-none _ _ e₁ in
    let (c, e₃) = then-none _ _ e₂ in
    let (d, e₄) = then-none _ _ e₃ in
    let (f, e₅) = then-none _ _ e₄ in
    let (g, e₆) = then-none _ _ e₅ in
    let (h, e₇) = then-none _ _ e₆ in
    let (k, e₈) = then-none _ _ e₇ in (within-none _ _ h, within-none _ _ k)

pub validate_listener-protocol :
    (net : Net) (l : ListenerConfig)
    → validate_listener net l ≡ none
    → validate_protocol l.protocol ≡ none
unfolding validate_listener
validate_listener-protocol net l e = (then-none _ _ (then-none _ _ e).1).0

-- No text is in a list twice.
abbrev pub AreUnique : List Text → Type 0
AreUnique [] = Unit {0}
AreUnique (s ∷ ss) = (has s ss ≡ false) × AreUnique ss

-- No text of a list is in another.
abbrev pub AreNew : List Text → List Text → Type 0
AreNew seen ss = All (λ s. has s seen ≡ false) ss

is_text_sym : (s t : Text) → is_text s t ≡ is_text t s
is_text_sym s t = ground arith

AreNew-cons :
    (s : Text) (seen ss : List Text) → AreNew (s ∷ seen) ss → (has s ss ≡ false) × AreNew seen ss
AreNew-cons s seen [] h = (refl, tt)
AreNew-cons s seen (t ∷ ts) h = ground (arith, AreNew-cons s seen ts h.1, is_text_sym s t)

-- What the loop over the listeners has seen when it ends without an error.
listeners-valid :
    (net : Net) (i : ℕ) (names addrs : List Text) (ls : List ListenerConfig)
    → validate_listeners net i names addrs ls ≡ none
    → All (λ l. validate_listener net l ≡ none) ls
      × (AreUnique (map (λ (l : ListenerConfig). l.name) ls)
          × AreNew names (map (λ (l : ListenerConfig). l.name) ls))
      × (AreUnique (map (λ (l : ListenerConfig). l.listen_address) ls)
          × AreNew addrs (map (λ (l : ListenerConfig). l.listen_address) ls))
unfolding validate_listeners
listeners-valid net i names addrs [] e = (tt, (tt, tt), (tt, tt))
listeners-valid net i names addrs (l ∷ ls) e =
    let (a, e₁) = then-none _ _ e in
    let (b, e₂) = then-none _ _ e₁ in
    let (c, e₃) = then-none _ _ e₂ in
    let (valid, (un, nn), (ua, na)) =
      listeners-valid net (i + 1) (l.name ∷ names) (l.listen_address ∷ addrs) ls e₃ in
    let (n₁, n₂) = AreNew-cons l.name names (map (λ (l : ListenerConfig). l.name) ls) nn in
    let (a₁, a₂) =
      AreNew-cons l.listen_address addrs (map (λ (l : ListenerConfig). l.listen_address) ls) na in
    (
      (within-none _ _ a, valid),
      ((n₁, un), (fails-none _ _ b, n₂)),
      ((a₁, ua), (fails-none _ _ c, a₂)),
    )

pub validate-listeners :
    (net : Net) (c : Config)
    → validate net c ≡ none
    → All (λ l. validate_listener net l ≡ none) c.listeners
      × AreUnique (map (λ (l : ListenerConfig). l.name) c.listeners)
unfolding validate
validate-listeners net c e =
    let listed = (then-none _ _ (then-none _ _ (then-none _ _ (then-none _ _ e).1).1).1).1 in
    let (valid, (names, n), (addrs, m)) = listeners-valid net 0 [] [] c.listeners listed in
    (valid, names)

-- A configuration that `Validate` accepts has at least one listener, each with an allowlist that loads
-- and with rate limits whose counter starts within its limit; no two listeners share a name or a
-- listen address.
pub validate-none :
    (net : Net) (c : Config)
    → validate net c ≡ none
    → (c.listeners ≢ [])
      × All
          (λ (l : ListenerConfig).
            ((a : Allowlist) × (new_allowlist net l.allowlist ≡ ok a))
            × Holds (new_rate_limit_manager l.rate_limits) 0)
          c.listeners
      × AreUnique (map (λ (l : ListenerConfig). l.name) c.listeners)
      × AreUnique (map (λ (l : ListenerConfig). l.listen_address) c.listeners)
unfolding validate
validate-none net c e =
    let (a, e₁) = then-none _ _ e in
    let (b, e₂) = then-none _ _ e₁ in
    let (d, e₃) = then-none _ _ e₂ in
    let (some_listener, e₄) = then-none _ _ e₃ in
    let (valid, (names, n), (addrs, m)) = listeners-valid net 0 [] [] c.listeners e₄ in
    (
      (λ q. ground (arith, fails-none _ _ some_listener, q)),
      All-map _ _
          (λ l v.
            let (es, rs) = validate_listener-none net l v in
            (
              new_allowlist-validate_entries net l.allowlist es,
              new_rate_limit_manager-Holds l.rate_limits rs,
            ))
          c.listeners valid,
      names,
      addrs,
    )
