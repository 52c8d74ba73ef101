-- ===== src/Metrics/Registry.antt =====
-- internal/metrics/prometheus.go: the registration of the collectors.
use packetpony.Base.{
  ◌≡◌, refl, subst, sym, ◌∙◌, Bool, true, false, ◌&&◌, ◌||◌, List, [], ◌∷◌, Option, some, none, All,
  leb, ◌==◌, not,
}
use packetpony.Base.Text.{Text, Text-discrete}
use packetpony.Config.Validate.{has}
use packetpony.Metrics.{Collector, proxy_metrics, collectors, must_register, new_proxy_metrics}

-- What is documented of names: `[a-zA-Z_][a-zA-Z0-9_]*`, which is also a name of a label where it does
-- not start with two underscores.
abbrev is_letter : Text → Bool
is_letter [] = false
is_letter (c ∷ s) = (leb b'a' c && leb c b'z') || (leb b'A' c && leb c b'Z') || c == b'_'

abbrev are_word : Text → Bool
are_word [] = true
are_word (c ∷ s) =
    ((leb b'a' c && leb c b'z')
      || (leb b'A' c && leb c b'Z')
      || c == b'_'
      || (leb b'0' c && leb c b'9'))
    && are_word s

abbrev is_name : Text → Bool
is_name s = is_letter s && are_word s

abbrev is_reserved : Text → Bool
is_reserved (c ∷ d ∷ s) = c == b'_' && d == b'_'
is_reserved _ = false

abbrev are_labels : List Text → Bool
are_labels [] = true
are_labels (l ∷ ls) = is_name l && not (is_reserved l) && not (has l ls) && are_labels ls

-- A description that the library accepts.
abbrev pub is_well_formed : Collector → Bool
is_well_formed c = is_name c.name && are_labels c.labels

-- The names that a registry has after it has taken collectors, the last one first.
abbrev names_after : List Text → List Collector → List Text
names_after ns [] = ns
names_after ns (c ∷ cs) = names_after (c.name ∷ ns) cs

abbrev AreFresh : List Text → List Collector → Type 0
AreFresh ns [] = Unit
AreFresh ns (c ∷ cs) = (has c.name ns ≡ false) × AreFresh (c.name ∷ ns) cs

module _ {R : Type 0} (register : Collector → R → Option R) (names : R → List Text)
    (register_new : (c : Collector) (r : R)
      → is_well_formed c ≡ true
      → has c.name (names r) ≡ false
      → (r' : R) × (register c r ≡ some r') × (names r' ≡ c.name ∷ names r))
    (register_again : (c : Collector) (r : R)
      → has c.name (names r) ≡ true
      → register c r ≡ none) where
  must_register_fresh :
      (cs : List Collector) (r : R) (ns : List Text)
      → names r ≡ ns
      → All (λ c. is_well_formed c ≡ true) cs
      → AreFresh ns cs
      → (r' : R) × (must_register register cs r ≡ some r') × (names r' ≡ names_after ns cs)
  unfolding must_register
  must_register_fresh [] r ns e w f = (r, refl, e)
  must_register_fresh (c ∷ cs) r ns e w f =
      let (r₁, e₁, n₁) =
        register_new c r w.0 (subst (λ (x : List Text). has c.name x ≡ false) (sym e) f.0) in
      let (r₂, e₂, n₂) = must_register_fresh cs r₁ (c.name ∷ ns) (n₁ ∙ rw e refl) w.1 f.1 in
      (r₂, rw (e₁, must_register) e₂, n₂)

  -- In a registry that takes each well-formed collector with a new name and refuses a name that it
  -- has, and that has none of the eight names yet, `NewProxyMetrics` registers all eight collectors;
  -- called once more it panics.
  pub new_proxy_metrics_once :
      (r : R)
      → All (λ (c : Collector). has c.name (names r) ≡ false) (collectors proxy_metrics)
      → (r' : R) × (new_proxy_metrics register r ≡ some (r', proxy_metrics))
        × All (λ (c : Collector). has c.name (names r') ≡ true) (collectors proxy_metrics)
        × (new_proxy_metrics register r' ≡ none)
  unfolding new_proxy_metrics proxy_metrics Text-discrete
  new_proxy_metrics_once r new =
      let (r', e, n) =
        must_register_fresh (collectors proxy_metrics) r (names r) refl
          (refl, (refl, (refl, (refl, (refl, (refl, (refl, (refl, tt)))))))) new in
      let has_them : All (λ (c : Collector). has c.name (names r') ≡ true)
          (collectors proxy_metrics) =
        rw n (refl, (refl, (refl, (refl, (refl, (refl, (refl, (refl, tt)))))))) in
      (
        r',
        rw (e, new_proxy_metrics) refl,
        has_them,
        rw (register_again proxy_metrics.connections_total r' has_them.0, new_proxy_metrics) refl,
      )
