-- ===== src/Base/Show.antt =====
-- The verb `%d` of package fmt.
use packetpony.Base.{
  ℕ, zero, suc, ◌+◌, ◌*◌, ◌/◌, ◌%◌, ◌≤◌, ◌≡◌, refl, ◌∙◌, true, false, List, [], ◌∷◌, ◌++◌, arith,
  ltb, map, Bool-cases, inl, inr,
}
use packetpony.Base.Int.{ℤ, pos, negsuc}
use packetpony.Base.Text.{Text}

-- The decimal digits, the first one first. The number itself is fuel enough, as it is above its tenth.
unfoldable pub digits_of : ℕ → ℕ → List ℕ
digits_of zero n = n ∷ []
digits_of (suc fuel) n = elim (ltb n 10) [
  | true ↦ n ∷ []
  | false ↦ digits_of fuel (n / 10) ++ n % 10 ∷ []
]

-- The number that digits are read as.
unfoldable pub value : List ℕ → ℕ → ℕ
value [] acc = acc
value (d ∷ ds) acc = value ds (acc * 10 + d)

value-append : (ds : List ℕ) (d acc : ℕ) → value (ds ++ d ∷ []) acc ≡ value ds acc * 10 + d
unfolding value
value-append [] d acc = refl
value-append (e ∷ ds) d acc = value-append ds d (acc * 10 + e)

-- The digits of a number are read as the number.
pub value-digits_of : (fuel n : ℕ) → n ≤ fuel → value (digits_of fuel n) 0 ≡ n
unfolding value digits_of
value-digits_of zero n h = omega (arith, h)
value-digits_of (suc fuel) n h = elim (Bool-cases (ltb n 10)) [
  | inl e ↦ rw (e, digits_of) (omega arith)
  | inr e ↦
      rw (e, digits_of)
        (value-append (digits_of fuel (n / 10)) (n % 10) 0
          ∙ rw (value-digits_of fuel (n / 10) (ground arith)) (omega arith))
]

unfoldable pub show : ℕ → Text
show n = map (λ d. d + b'0') (digits_of n n)

unfoldable pub show_ℤ : ℤ → Text
show_ℤ (pos n) = show n
show_ℤ (negsuc n) = b'-' ∷ show (suc n)
