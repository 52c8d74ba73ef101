-- ===== src/Config/Roundtrip.antt =====
-- internal/config/config.go, ParseBandwidth: numbers of bytes as they are printed.
use mathlib.Core.List.{append_assoc, map-append}
use native.Mathlib.Nat.{mul-div_cancel, mul_right_comm}
use packetpony.Base.{
  ℕ, zero, suc, ◌+◌, ◌*◌, ◌/◌, ◌%◌, ◌^◌, ◌≤◌, ◌<◌, ◌≡◌, refl, sym, ◌∙◌, ap, subst, true, false,
  List, [], ◌∷◌, ◌++◌, Option, some, none, arith, ltb, ◌==◌, if◌then◌else◌, Bool-cases, inl, inr,
  All, All-append, length, map, ◌>>=◌,
}
use packetpony.Base.Int.{ℤ, pos}
use packetpony.Base.Text.{Text, text, is_space, trim_space, trim_space_fixed}
use packetpony.Base.Show.{show, digits_of, value, value-digits_of}
use packetpony.Config.Bandwidth.{
  is_digit, to_upper_char, Match, span_digits, skip_blank, decimal, match_fraction, match_bandwidth,
  float64, to_int64, parse_bandwidth,
}
use packetpony.Config.Exact.{float64_exact}

-- The letters before the `B`.
pub data Multiple : Type 0 where
  bytes kilo mega giga tera : Multiple

abbrev pub letters : Multiple → Text
letters bytes = []
letters kilo = text "K"
letters mega = text "M"
letters giga = text "G"
letters tera = text "T"

abbrev pub bits_of : Multiple → ℕ
bits_of bytes = 0
bits_of kilo = 10
bits_of mega = 20
bits_of giga = 30
bits_of tera = 40

abbrev AreDigits : List ℕ → Type 0
AreDigits = All (λ d. d < 10)

digits_of-AreDigits : (fuel n : ℕ) → n ≤ fuel → AreDigits (digits_of fuel n)
unfolding digits_of
digits_of-AreDigits zero n h = (omega arith, tt)
digits_of-AreDigits (suc fuel) n h = elim (Bool-cases (ltb n 10)) [
  | inl e ↦ rw (e, digits_of) (ground arith, tt)
  | inr e ↦
      rw (e, digits_of)
        (All-append (λ d. d < 10) (digits_of fuel (n / 10)) (n % 10 ∷ [])
          (digits_of-AreDigits fuel (n / 10) (ground arith)) (omega arith, tt))
]

digits_of-cons : (fuel n : ℕ) → (d : ℕ) × ((ds : List ℕ) × (digits_of fuel n ≡ d ∷ ds))
unfolding digits_of
digits_of-cons zero n = (n, ([], refl))
digits_of-cons (suc fuel) n = elim (Bool-cases (ltb n 10)) [
  | inl e ↦ (n, ([], rw (e, digits_of) refl))
  | inr e ↦
      let (d, (ds, f)) = digits_of-cons fuel (n / 10) in
      (d, (ds ++ n % 10 ∷ [], rw (e, digits_of) (rw f refl)))
]

decimal-value : (ds : List ℕ) (acc : ℕ) → decimal acc ds ≡ value ds acc
unfolding value
decimal-value [] acc = refl
decimal-value (d ∷ ds) acc = decimal-value ds (acc * 10 + d)

abbrev chars : List ℕ → Text
chars ds = map (λ d. d + b'0') ds

span_digits-chars :
    (ds : List ℕ) (rest : Text)
    → AreDigits ds
    → span_digits rest ≡ ([], rest)
    → span_digits (chars ds ++ rest) ≡ (ds, rest)
unfolding span_digits
span_digits-chars [] rest a e = e
span_digits-chars (d ∷ ds) rest a e =
    let digit : is_digit (d + b'0') ≡ true = ground arith in
    rw (digit, span_digits, span_digits-chars ds rest a.1 e)
      (ap (λ (x : ℕ). (x ∷ ds, rest)) (omega arith))

upper-chars : (ds : List ℕ) → AreDigits ds → map to_upper_char (chars ds) ≡ chars ds
upper-chars [] a = refl
upper-chars (d ∷ ds) a = ground (arith, upper-chars ds a.1)

-- The match of the regular expression.
matched :
    (d : ℕ) (ds : List ℕ) (u : Multiple)
    → AreDigits (d ∷ ds)
    → match_bandwidth (chars (d ∷ ds) ++ (letters u ++ text "B"))
      ≡ some (record { digits = decimal 0 (d ∷ ds); scale = 0; bits = bits_of u })
unfolding match_bandwidth span_digits skip_blank
matched d ds u a =
    let some_digit : (suc (length ds) == 0) ≡ false = ground arith in
    ap (λ (r : List ℕ × Text). if length r.0 == 0 then none else match_fraction r.0 r.1)
      (span_digits-chars (d ∷ ds) (letters u ++ text "B") a (no_digits u))
    ∙ rw some_digit (by_unit u)
  where
    no_digits : (v : Multiple) → span_digits (letters v ++ text "B") ≡ ([], letters v ++ text "B")
    no_digits bytes = refl
    no_digits kilo = refl
    no_digits mega = refl
    no_digits giga = refl
    no_digits tera = refl

    by_unit :
        (v : Multiple)
        → match_fraction (d ∷ ds) (letters v ++ text "B")
          ≡ some (record { digits = decimal 0 (d ∷ ds); scale = 0; bits = bits_of v })
    by_unit bytes = refl
    by_unit kilo = refl
    by_unit mega = refl
    by_unit giga = refl
    by_unit tera = refl

-- The text starts with a digit and ends in the `B`.
trimmed :
    (d : ℕ) (ds : List ℕ) (u : Multiple)
    → AreDigits (d ∷ ds)
    → trim_space (chars (d ∷ ds) ++ (letters u ++ text "B"))
      ≡ chars (d ∷ ds) ++ (letters u ++ text "B")
unfolding is_space
trimmed d ds u a =
    subst (λ t. trim_space t ≡ t) (append_assoc (chars (d ∷ ds)) (letters u) (text "B"))
      (trim_space_fixed (d + b'0') (chars ds ++ letters u) b'B' (ground arith) refl)

upper :
    (ds : List ℕ) (u : Multiple)
    → AreDigits ds
    → map to_upper_char (chars ds ++ (letters u ++ text "B")) ≡ chars ds ++ (letters u ++ text "B")
upper ds u a =
    map-append to_upper_char (chars ds) (letters u ++ text "B")
    ∙ (ap (λ t. t ++ map to_upper_char (letters u ++ text "B")) (upper-chars ds a)
        ∙ ap (λ t. chars ds ++ t) (by_unit u))
  where
    by_unit : (v : Multiple) → map to_upper_char (letters v ++ text "B") ≡ letters v ++ text "B"
    by_unit bytes = refl
    by_unit kilo = refl
    by_unit mega = refl
    by_unit giga = refl
    by_unit tera = refl

product :
    (n b : ℕ) → n * 2 ^ b < 2 ^ 63 → to_int64 (n * 2 ^ 1100 * 2 ^ b / 2 ^ 1100) ≡ pos (n * 2 ^ b)
product n b h =
    let whole : n * 2 ^ 1100 * 2 ^ b / 2 ^ 1100 ≡ n * 2 ^ b =
      ap (λ x. x / 2 ^ 1100) (mul_right_comm n (2 ^ 1100) (2 ^ b))
      ∙ mul-div_cancel (n * 2 ^ b) {n = 2 ^ 1100} (omega arith) in
    rw whole (ground arith)

-- What `ParseBandwidth` does with a match.
abbrev converted : Option Match → Option ℤ
converted o = do
  m ← o
  f ← float64 m.digits (10 ^ m.scale)
  some (to_int64 (f * 2 ^ m.bits / 2 ^ 1100))

parse_bandwidth_lem :
    (s : Text)
    → parse_bandwidth s ≡ (
        if length (trim_space s) == 0
        then some (pos 0)
        else converted (match_bandwidth (map to_upper_char (trim_space s))))
unfolding parse_bandwidth
parse_bandwidth_lem s = refl

converted_lem :
    (n b : ℕ)
    → n < 2 ^ 53
    → n * 2 ^ b < 2 ^ 63
    → converted (some (record { digits = n; scale = 0; bits = b })) ≡ some (pos (n * 2 ^ b))
converted_lem n b small fits =
    ap (λ (o : Option ℕ). o >>= λ f. some (to_int64 (f * 2 ^ b / 2 ^ 1100))) (float64_exact n small)
    ∙ ap (λ (x : ℤ). some x) (product n b fits)

parse_digits :
    (n d : ℕ) (ds : List ℕ) (u : Multiple)
    → AreDigits (d ∷ ds)
    → decimal 0 (d ∷ ds) ≡ n
    → n < 2 ^ 53
    → n * 2 ^ bits_of u < 2 ^ 63
    → parse_bandwidth (chars (d ∷ ds) ++ (letters u ++ text "B")) ≡ some (pos (n * 2 ^ bits_of u))
parse_digits n d ds u a same small fits =
    let t : Text = chars (d ∷ ds) ++ (letters u ++ text "B") in
    let full : (length t == 0) ≡ false = ground arith in
    parse_bandwidth_lem t
    ∙ (ap
          (λ x.
            if length x == 0
            then some (pos 0)
            else converted (match_bandwidth (map to_upper_char x)))
          (trimmed d ds u a)
        ∙ (ap (λ b. if b then some (pos 0) else converted (match_bandwidth (map to_upper_char t)))
              full
            ∙ (ap (λ x. converted (match_bandwidth x)) (upper (d ∷ ds) u a)
                ∙ (ap converted (matched d ds u a)
                    ∙ (ap
                          (λ k.
                            converted (some (record { digits = k; scale = 0; bits = bits_of u })))
                          same
                        ∙ converted_lem n (bits_of u) small fits)))))

-- Of a number of bytes below 2^53, printed with a multiple, `ParseBandwidth` gives exactly the number
-- times the multiple, if that is an `int64`: no rounding shows.
pub parse_bandwidth-show :
    (n : ℕ) (u : Multiple)
    → n < 2 ^ 53
    → n * 2 ^ bits_of u < 2 ^ 63
    → parse_bandwidth (show n ++ (letters u ++ text "B")) ≡ some (pos (n * 2 ^ bits_of u))
unfolding show
parse_bandwidth-show n u small fits =
    let (d, (ds, e)) = digits_of-cons n n in
    let digits : AreDigits (d ∷ ds) = subst AreDigits e (digits_of-AreDigits n n (omega arith)) in
    let same : decimal 0 (d ∷ ds) ≡ n =
      decimal-value (d ∷ ds) 0
      ∙ (ap (λ x. value x 0) (sym e) ∙ value-digits_of n n (omega arith)) in
    ap (λ x. parse_bandwidth (chars x ++ (letters u ++ text "B"))) e
    ∙ parse_digits n d ds u digits same small fits
