-- ===== src/Metrics/Routes.antt =====
-- internal/metrics/prometheus.go: which handler answers on which path.
use packetpony.Base.{
  ◌≡◌, ◌≢◌, refl, ◌∙◌, fun_ext, ◌⊎◌, inl, inr, true, List, [], ◌∷◌, Option, some, none, arith,
  ◌>>=◌, Option-cases,
}
use packetpony.Base.Text.{Text, Text-discrete, text}
use packetpony.Base.Map.{lookup, insert}
use packetpony.Config.{PrometheusConfig}
use packetpony.Metrics.{
  Handler, prometheus_handler, health_handler, Server, handle, start_metrics_server,
}

abbrev pub no_server : Server
no_server = record { mux = []; listen_address = none }

-- The handler that a pattern has, by its normal form.
abbrev pub route : Server → Text → Option Handler
route s p = lookup Text-discrete p s.mux

-- `handle` of a pattern in normal form.
abbrev put : Text → Handler → List (Text × Handler) → Option (List (Text × Handler))
put p h mux = elim (lookup Text-discrete p mux) [
  | some _ ↦ none
  | none ↦ some (insert Text-discrete p h mux)
]

handle-put :
    (normal : Text → Option Text) (pattern p : Text) (h : Handler)
    → normal pattern ≡ some p
    → handle normal pattern h ≡ put p h
unfolding handle
handle-put normal pattern p h e = fun_ext (λ mux. rw (e, handle) refl)

-- The three checks, beside a pattern that may be one of them.
checks : Text → Text → Text → Text → Option (List (Text × Handler))
checks p a b c = do
  m₂ ← put a health_handler ((p, prometheus_handler) ∷ [])
  m₃ ← put b health_handler m₂
  put c health_handler m₃

module _ (p a b c : Text) (ab : a ≢ b) (ac : a ≢ c) (bc : b ≢ c) where
  checks_fresh :
      p ≢ a
      → p ≢ b
      → p ≢ c
      → checks p a b c
        ≡ some (
            (p, prometheus_handler)
            ∷ (a, health_handler)
            ∷ (b, health_handler)
            ∷ (c, health_handler)
            ∷ [])
  unfolding checks lookup insert
  checks_fresh pa pb pc = ground arith

  checks_routes :
      p ≢ a
      → p ≢ b
      → p ≢ c
      → let m : List (Text × Handler) =
          (p, prometheus_handler)
          ∷ (a, health_handler)
          ∷ (b, health_handler)
          ∷ (c, health_handler)
          ∷ [] in
        (lookup Text-discrete p m ≡ some prometheus_handler)
        × (lookup Text-discrete a m ≡ some health_handler)
        × (lookup Text-discrete b m ≡ some health_handler)
        × (lookup Text-discrete c m ≡ some health_handler)
  unfolding lookup
  checks_routes pa pb pc = (ground arith, ground arith, ground arith, ground arith)

  checks_taken : (p ≡ a) ⊎ ((p ≡ b) ⊎ (p ≡ c)) → checks p a b c ≡ none
  unfolding checks lookup insert
  checks_taken h = ground arith

-- The normal forms of the three patterns of the checks.
abbrev pub KeepsChecks : (Text → Option Text) → Type 0
KeepsChecks normal =
    (normal (text "/health") ≡ some (text "/health"))
    × (normal (text "/healthz") ≡ some (text "/healthz"))
    × (normal (text "/ready") ≡ some (text "/ready"))

abbrev pub IsCheck : Text → Type 0
IsCheck p = (p ≡ text "/health") ⊎ ((p ≡ text "/healthz") ⊎ (p ≡ text "/ready"))

>>=-assoc :
    {A B C D : Type 0} (o : Option A) (f : A → Option B) (g : B → Option C) (k : C → Option D)
    → (o >>= λ a. f a >>= λ b. g b >>= k) ≡ ((o >>= λ a. f a >>= g) >>= k)
>>=-assoc none f g k = refl
>>=-assoc {B} (some a) f g k = by_cases (f a)
  where
    by_cases : (o : Option B) → (o >>= λ b. g b >>= k) ≡ ((o >>= g) >>= k)
    by_cases none = refl
    by_cases (some b) = refl

server_checks :
    (normal : Text → Option Text) (cfg : PrometheusConfig) (p : Text)
    → KeepsChecks normal
    → cfg.enabled ≡ true
    → normal cfg.path ≡ some p
    → start_metrics_server normal cfg no_server ≡ (do
      m ← checks p (text "/health") (text "/healthz") (text "/ready")
      some (record { mux = m; listen_address = some cfg.listen_address }))
unfolding start_metrics_server checks lookup insert
server_checks normal cfg p (h, z, r) on e = rw on (
    rw (handle-put normal cfg.path p prometheus_handler e) (
      rw (handle-put normal _ _ health_handler h) (
        rw (handle-put normal _ _ health_handler z) (
          rw (handle-put normal _ _ health_handler r) (
            >>=-assoc (put (text "/health") health_handler ((p, prometheus_handler) ∷ []))
              (put (text "/healthz") health_handler) (put (text "/ready") health_handler)
              (λ (m : List (Text × Handler)).
                some (record { mux = m; listen_address = some cfg.listen_address })))))))

decide-IsCheck :
    (p : Text) → IsCheck p ⊎ ((p ≢ text "/health") × (p ≢ text "/healthz") × (p ≢ text "/ready"))
decide-IsCheck p = elim (Text-discrete p (text "/health")) [
  | yes a ↦ inl (inl a)
  | no a ↦ elim (Text-discrete p (text "/healthz")) [
    | yes b ↦ inl (inr (inl b))
    | no b ↦ elim (Text-discrete p (text "/ready")) [
      | yes c ↦ inl (inr (inr c))
      | no c ↦ inr (a, b, c)
    ]
  ]
]

-- What the server that is enabled comes to, by the normal form of its path, if it has one.
abbrev pub Answers : (Text → Option Text) → PrometheusConfig → Option Text → Type 0
Answers normal cfg none = start_metrics_server normal cfg no_server ≡ none
Answers normal cfg (some p) =
    IsCheck p × (start_metrics_server normal cfg no_server ≡ none)
    ⊎ (¬ IsCheck p
        × ((s : Server) × (start_metrics_server normal cfg no_server ≡ some s)
            × (s.listen_address ≡ some cfg.listen_address)
            × (route s p ≡ some prometheus_handler)
            × (route s (text "/health") ≡ some health_handler)
            × (route s (text "/healthz") ≡ some health_handler)
            × (route s (text "/ready") ≡ some health_handler)))

no_pattern :
    (normal : Text → Option Text) (cfg : PrometheusConfig)
    → cfg.enabled ≡ true
    → normal cfg.path ≡ none
    → start_metrics_server normal cfg no_server ≡ none
unfolding start_metrics_server handle
no_pattern normal cfg on e = rw on (rw e refl)

routes :
    (normal : Text → Option Text) (cfg : PrometheusConfig) (p : Text)
    → KeepsChecks normal
    → cfg.enabled ≡ true
    → normal cfg.path ≡ some p
    → Answers normal cfg (some p)
routes normal cfg p k on e =
    let ab : text "/health" ≢ text "/healthz" = λ q. cc in
    let ac : text "/health" ≢ text "/ready" = λ q. cc in
    let bc : text "/healthz" ≢ text "/ready" = λ q. cc in
    let chain = server_checks normal cfg p k on e in
    elim (decide-IsCheck p) [
      | inl c ↦ inl (c, chain ∙ rw (checks_taken p _ _ _ ab ac bc c) refl)
      | inr (a, b, c) ↦
          let (r, x, y, z) = checks_routes p _ _ _ ab ac bc a b c in
          inr (
            (λ h. ground arith),
            (
              record {
                mux =
                    (p, prometheus_handler)
                    ∷ (text "/health", health_handler)
                    ∷ (text "/healthz", health_handler)
                    ∷ (text "/ready", health_handler)
                    ∷ [];
                listen_address = some cfg.listen_address;
              },
              chain ∙ rw (checks_fresh p _ _ _ ab ac bc a b c) refl,
              refl,
              r,
              x,
              y,
              z,
            ),
          )
    ]

-- If the paths of the three checks are their own normal forms, the metrics server that is enabled
-- panics exactly if package http takes its path for no pattern or for the same as one of the three,
-- neither of which the checks of a configuration exclude; else it serves the metrics on its path and
-- the health check on the three.
pub start_metrics_server-routes :
    (normal : Text → Option Text) (cfg : PrometheusConfig)
    → KeepsChecks normal
    → cfg.enabled ≡ true
    → Answers normal cfg (normal cfg.path)
start_metrics_server-routes normal cfg k on = elim (Option-cases (normal cfg.path)) [
  | inl e ↦ rw e (no_pattern normal cfg on e)
  | inr (p, e) ↦ rw e (routes normal cfg p k on e)
]
