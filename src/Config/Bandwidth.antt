-- ===== src/Config/Bandwidth.antt =====
-- internal/config/config.go, ParseBandwidth: the regular expression as a scanner, and the float64
-- arithmetic by its definition, on numbers scaled by 2^1100.
use packetpony.Base.{
  ℕ, zero, suc, ◌+◌, ◌-◌, ◌*◌, ◌/◌, ◌%◌, ◌^◌, ◌≡◌, refl, Bool, ◌&&◌, ◌||◌, List, [], ◌∷◌, Option,
  some, none, ltb, leb, ◌==◌, if◌then◌else◌, length, map, ◌>>=◌,
}
use packetpony.Base.Int.{ℤ, pos, negsuc}
use packetpony.Base.Text.{Text, text, trim_space}

abbrev pub is_digit : ℕ → Bool
is_digit c = leb b'0' c && leb c b'9'

-- `\s` of package regexp.
abbrev pub is_blank : ℕ → Bool
is_blank c = c == 32 || c == 9 || c == 10 || c == 12 || c == 13

-- `strings.ToUpper`, as far as the regular expression can see.
abbrev pub to_upper_char : ℕ → ℕ
to_upper_char c = if leb b'a' c && leb c b'z' then c - 32 else c

-- The digits at the front, and the rest.
unfoldable pub span_digits : Text → List ℕ × Text
span_digits [] = ([], [])
span_digits (c ∷ s) =
    let (ds, rest) = span_digits s in if is_digit c then ((c - b'0') ∷ ds, rest) else ([], c ∷ s)

unfoldable pub skip_blank : Text → Text
skip_blank [] = []
skip_blank (c ∷ s) = let rest = skip_blank s in if is_blank c then rest else c ∷ s

-- `[KMGT]?B` and the end of the text, as the power of two of the multiplier.
abbrev pub unit_bits : Text → Option ℕ
unit_bits (b ∷ []) = if b == b'B' then some 0 else none
unit_bits (u ∷ b ∷ []) =
    if b == b'B'
    then (if u == b'K'
        then some 10
        else (if u == b'M'
            then some 20
            else (if u == b'G' then some 30 else (if u == b'T' then some 40 else none))))
    else none
unit_bits _ = none

abbrev pub decimal : ℕ → List ℕ → ℕ
decimal acc [] = acc
decimal acc (d ∷ ds) = decimal (acc * 10 + d) ds

-- A match: the digits as one number, how many of them stand behind the point, and the unit.
pub record Match : Type 0 where
  pub digits : ℕ
  pub scale : ℕ
  pub bits : ℕ

abbrev pub with_unit : ℕ → ℕ → Text → Option Match
with_unit n d s = elim (unit_bits (skip_blank s)) [
  | none ↦ none
  | some b ↦ some (record { digits = n; scale = d; bits = b })
]

-- What follows the digits before the point. Where a point has no digit behind it, nothing matches.
abbrev pub match_fraction : List ℕ → Text → Option Match
match_fraction whole [] = none
match_fraction whole (c ∷ s) =
    let (fraction, rest) = span_digits s in
    if c == b'.'
    then (if length fraction == 0
        then none
        else with_unit (decimal (decimal 0 whole) fraction) (length fraction) rest)
    else with_unit (decimal 0 whole) 0 (c ∷ s)

-- `re.FindStringSubmatch`.
unfoldable pub match_bandwidth : Text → Option Match
match_bandwidth s =
    let (whole, rest) = span_digits s in
    if length whole == 0 then none else match_fraction whole rest

-- `a / b` to the nearest integer, ties to even.
abbrev pub round_half_even : ℕ → ℕ → ℕ
round_half_even a b =
    let q = a / b in
    let r = a % b in if ltb (r * 2) b then q else (if ltb b (r * 2) then q + 1 else q + q % 2)

-- The least `w` up to the bound with `num * 2^1100 < den * 2^w`, or the bound.
unfoldable pub width : ℕ → ℕ → ℕ → ℕ
width num den zero = 0
width num den (suc w) =
    let rest = width num den w in if leb (den * 2 ^ w) (num * 2 ^ 1100) then suc w else rest

-- The float64 next to `num / den`, times 2^1100; `none` where it is infinite. Below 2^-1047 the result
-- is finer than a float64, which the product with a multiplier of at most 2^40 does not show.
unfoldable pub float64 : ℕ → ℕ → Option ℕ
float64 num den =
    let last_place = 2 ^ (width num den 2200 - 53) in
    if leb (den * (2 ^ 1024 - 2 ^ 970)) num
    then none
    else some (round_half_even (num * 2 ^ 1100) (den * last_place) * last_place)

-- `int64(f)`, which cuts the fraction off; out of range, what amd64 gives.
abbrev pub to_int64 : ℕ → ℤ
to_int64 n = if ltb n (2 ^ 63) then pos n else negsuc (2 ^ 63 - 1)

-- `ParseBandwidth`; `none` is an error.
unfoldable pub parse_bandwidth : Text → Option ℤ
unfolding match_bandwidth skip_blank float64
parse_bandwidth s =
    let t = trim_space s in
    if length t == 0 then some (pos 0) else (do
      m ← match_bandwidth (map to_upper_char t)
      f ← float64 m.digits (10 ^ m.scale)
      some (to_int64 (f * 2 ^ m.bits / 2 ^ 1100)))

units :
    (parse_bandwidth (text "10MB") ≡ some (pos 10_485_760))
    × (parse_bandwidth (text " 1.5 kb ") ≡ some (pos 1536))
    × (parse_bandwidth (text "0.1GB") ≡ some (pos 107_374_182))
    × (parse_bandwidth (text "10") ≡ none)
    × (parse_bandwidth (text "9007199254740993B") ≡ some (pos 9_007_199_254_740_992))
unfolding parse_bandwidth trim_space span_digits width
units = (refl, refl, refl, refl, refl)
