-- ===== src/Acl/Tests.antt =====
-- Allowlists on concrete addresses.
use packetpony.Base.{ℕ, ◌≡◌, refl, true, false, map, ◌<◌, List, [], ◌∷◌, arith}
use packetpony.Base.Text.{Text, text}
use packetpony.Net.Sample.{home, away, ten, sample_net}
use packetpony.Net.{Ip}
use packetpony.Acl.{Allowlist, contains, matches_any, is_allowed, new_allowlist}
use packetpony.Acl.Rules.{Outcome, new_allowlist-Outcome}
use packetpony.Acl.Prefix.{Bytes, mapped, prefix_rule, is_allowed-prefixes}

abbrev office : Allowlist
office = record { rules = ten ∷ [] }

allowed_and_denied :
    (is_allowed office home ≡ true)
    × (is_allowed office away ≡ false)
    × (is_allowed (record { rules = [] }) home ≡ false)
unfolding is_allowed matches_any contains
allowed_and_denied = (refl, refl, refl)

abbrev entries : List Text
entries = text "10.0.0.0/8" ∷ text "nonsense" ∷ []

new_allowlist_example : Outcome sample_net entries (new_allowlist sample_net entries)
new_allowlist_example = new_allowlist-Outcome sample_net entries

four : (a b c d : ℕ) → a < 256 → b < 256 → c < 256 → d < 256 → Bytes (a ∷ b ∷ c ∷ d ∷ [])
four a b c d ha hb hc hd = (ha, (hb, (hc, (hd, tt))))

abbrev offices : List (ℕ × Ip)
offices = (8, 10 ∷ 0 ∷ 0 ∷ 0 ∷ []) ∷ (24, 192 ∷ 0 ∷ 3 ∷ 0 ∷ []) ∷ []

is_allowed-prefixes_example :
    (is_allowed (record { rules = map prefix_rule offices }) home ≡ true)
    × (is_allowed (record { rules = map prefix_rule offices }) (mapped home) ≡ true)
is_allowed-prefixes_example =
    is_allowed-prefixes offices home
      (
        (omega arith, refl, four 10 0 0 0 (omega arith) (omega arith) (omega arith) (omega arith)),
        (
          (
            omega arith,
            refl,
            four 192 0 3 0 (omega arith) (omega arith) (omega arith) (omega arith),
          ),
          tt,
        ),
      )
      refl (four 10 0 0 7 (omega arith) (omega arith) (omega arith) (omega arith))
