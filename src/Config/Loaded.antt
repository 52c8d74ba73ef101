-- ===== src/Config/Loaded.antt =====
-- What `LoadConfig` establishes.
use packetpony.Base.{
  ◌≡◌, refl, subst, ◌⊎◌, inl, inr, List, [], ◌∷◌, Option, some, none, ite, arith, ◌>>=◌, All,
}
use packetpony.Base.Int.{ℤ}
use packetpony.Base.Text.{Text, Text-discrete, text}
use packetpony.Config.{Config, ListenerConfig, RateLimitConfig, UdpConfig, UdpLoggingConfig}
use packetpony.Config.Load.{
  parsed, load_rate_limits, or_default, load_logging, load_udp, load_listener, load_listeners,
  load_config,
}
use packetpony.Proxy.Udp.{udp_logging}

-- A step of a chain that gives a result.
bind-some :
    {A B : Type 0} (o : Option A) (f : A → Option B) (b : B)
    → (o >>= f) ≡ some b
    → (a : A) × (o ≡ some a) × (f a ≡ some b)
bind-some none f b e = cc
bind-some (some a) f b e = (a, refl, e)

parsed_again : (s : Text) (old v : ℤ) → parsed s old ≡ some v → parsed s v ≡ some v
unfolding parsed
parsed_again s old v e = elim (Text-discrete s []) [ yes p ↦ ground arith | no p ↦ ground arith ]

rate_limits_again :
    (r r' : RateLimitConfig) → load_rate_limits r ≡ some r' → load_rate_limits r' ≡ some r'
unfolding load_rate_limits
rate_limits_again r r' e =
    let (bytes, e₁, f) = bind-some (parsed r.max_bandwidth_per_ip r.max_bandwidth_bytes) _ r' e in
    let (minimum, e₂, g) =
      bind-some (parsed r.throttle_minimum_bandwidth r.throttle_minimum_bytes) _ r' f in
    ground (arith, parsed_again _ _ _ e₁, parsed_again _ _ _ e₂, g)

logging_again : (l l' : UdpLoggingConfig) → load_logging l ≡ some l' → load_logging l' ≡ some l'
unfolding load_logging
logging_again l l' e =
    let (period, e₁, f) =
      bind-some (parsed l.periodic_log_bytes l.periodic_log_bytes_value) _ l' e in
    let (minimum, e₂, g) =
      bind-some
        (ite (Text-discrete l.min_log_bytes (text "0")) (some l.min_log_bytes_value)
          (parsed l.min_log_bytes l.min_log_bytes_value))
        _ l' f in
    let again = parsed_again _ _ _ e₁ in
    let again' = minimum_again l.min_log_bytes l.min_log_bytes_value minimum e₂ in
    ground (arith, again, again', g)
  where
    minimum_again :
        (s : Text) (old v : ℤ)
        → ite (Text-discrete s (text "0")) (some old) (parsed s old) ≡ some v
        → ite (Text-discrete s (text "0")) (some v) (parsed s v) ≡ some v
    minimum_again s old v h = elim (Text-discrete s (text "0")) [
      | yes p ↦ ground arith
      | no p ↦ ground (arith, parsed_again s old v)
    ]

-- A listener has a `udp.logging` section where it has a `udp` section.
abbrev pub HasLogging : ListenerConfig → Type 0
HasLogging l = (l.udp ≡ none) ⊎ ((lg : UdpLoggingConfig) × (udp_logging l ≡ some lg))

-- What the loading of a `udp` section gives: loading it again changes nothing.
udp_again : (u u' : Option UdpConfig) → load_udp u ≡ some u' → load_udp u' ≡ some u'
unfolding load_udp
udp_again none u' e = ground arith
udp_again (some u) u' e =
    let (l, e₁, f) = bind-some (load_logging (or_default u.logging)) _ u' e in
    ground (arith, logging_again _ l e₁, f)

udp-HasLogging :
    (u u' : Option UdpConfig)
    → load_udp u ≡ some u'
    → (u' ≡ none) ⊎ ((lg : UdpLoggingConfig) × ((u' >>= λ (x : UdpConfig). x.logging) ≡ some lg))
unfolding load_udp
udp-HasLogging none u' e = inl (ground arith)
udp-HasLogging (some u) u' e =
    let (l, e₁, f) = bind-some (load_logging (or_default u.logging)) _ u' e in
    inr (l, ground (arith, f))

listener_again :
    (l l' : ListenerConfig)
    → load_listener l ≡ some l'
    → (load_listener l' ≡ some l') × HasLogging l'
unfolding load_listener
listener_again l l' e =
    let (r, e₁, f) = bind-some (load_rate_limits l.rate_limits) _ l' e in
    let (u, e₂, g) = bind-some (load_udp l.udp) _ l' f in
    (
      ground (arith, rate_limits_again _ r e₁, udp_again _ u e₂, g),
      subst
          (λ (x : Option UdpConfig).
            (x ≡ none)
            ⊎ ((lg : UdpLoggingConfig) × ((x >>= λ (y : UdpConfig). y.logging) ≡ some lg)))
          (same_udp r u g) (udp-HasLogging l.udp u e₂),
    )
  where
    same_udp :
        (r : RateLimitConfig) (u : Option UdpConfig)
        → some (record l { rate_limits = r; udp = u }) ≡ some l'
        → u ≡ l'.udp
    same_udp r u g = ground arith

some_inj : {A : Type 0} (a b : A) → some a ≡ some b → a ≡ b
some_inj a b e = cc

listeners_again :
    (ls ls' : List ListenerConfig)
    → load_listeners ls ≡ some ls'
    → (load_listeners ls' ≡ some ls') × All HasLogging ls'
unfolding load_listeners
listeners_again [] ls' e =
    subst (λ xs. (load_listeners xs ≡ some xs) × All HasLogging xs) (some_inj _ _ e) (refl, tt)
listeners_again (l ∷ ls) ls' e =
    let (l', e₁, f) = bind-some (load_listener l) _ ls' e in
    let (rest, e₂, g) = bind-some (load_listeners ls) _ ls' f in
    let (again, logs) = listener_again l l' e₁ in
    let (agains, logss) = listeners_again ls rest e₂ in
    subst (λ xs. (load_listeners xs ≡ some xs) × All HasLogging xs) (some_inj _ _ g)
      (rw (again, load_listeners) (rw (agains, load_listeners) refl), (logs, logss))

-- A configuration that `LoadConfig` returns is complete: to load it again changes nothing, and each of
-- its listeners with a `udp` section has a `udp.logging` section.
pub load_config_again :
    (c c' : Config)
    → load_config c ≡ some c'
    → (load_config c' ≡ some c') × All HasLogging c'.listeners
unfolding load_config
load_config_again c c' e =
    let (ls, e₁, f) = bind-some (load_listeners c.listeners) _ c' e in
    let (again, logs) = listeners_again c.listeners ls e₁ in
    (ground (arith, again, f), subst (All HasLogging) (same ls f) logs)
  where
    same :
        (ls : List ListenerConfig)
        → some (record c { listeners = ls }) ≡ some c'
        → ls ≡ c'.listeners
    same ls f = ground arith
