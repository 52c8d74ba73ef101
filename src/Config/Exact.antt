-- ===== src/Config/Exact.antt =====
-- internal/config/config.go, ParseBandwidth: which numbers its float64 arithmetic holds exactly.
use native.Mathlib.Nat.{
  add-zero, add-suc, pow-zero, pow-le-pow_right, pow-suc, mul-div_cancel, mul-mod_left, one-le-pow,
  mul-le-mul_left, mul_assoc, mul-one, one-mul,
}
use mathlib.Core.Path.{◌≡⟨◌⟩◌, ◌∎}
use packetpony.Base.{
  ℕ, zero, suc, ◌+◌, ◌-◌, ◌*◌, ◌^◌, ◌≤◌, ◌<◌, ◌≡◌, refl, sym, ◌∙◌, ap, false, some, arith, leb,
  lt→ltb, Bool-cases, inl, inr, leb→le,
}
use packetpony.Config.Bandwidth.{width, round_half_even, float64}

pub pow_add : (b m n : ℕ) → b ^ (m + n) ≡ b ^ m * b ^ n
pow_add b m zero = rw (add-zero m, pow-zero b) (sym (mul-one (b ^ m)))
pow_add b m (suc n) =
    b ^ (m + suc n)
    ≡⟨ ap (λ k. b ^ k) (add-suc m n) ⟩ b ^ suc (m + n)
    ≡⟨ pow-suc b (m + n) ⟩ b ^ (m + n) * b
    ≡⟨ ap (λ t. t * b) (pow_add b m n) ⟩ b ^ m * b ^ n * b
    ≡⟨ mul_assoc (b ^ m) (b ^ n) b ⟩ b ^ m * (b ^ n * b)
    ≡⟨ ap (λ t. b ^ m * t) (sym (pow-suc b n)) ⟩ b ^ m * b ^ suc n ∎

-- The width is at most that of any power of two above the number.
width_le : (num den k bound : ℕ) → num * 2 ^ 1100 < den * 2 ^ k → width num den bound ≤ k
unfolding width
width_le num den k zero h = omega arith
width_le num den k (suc w) h = elim (Bool-cases (leb (den * 2 ^ w) (num * 2 ^ 1100))) [
  | inr e ↦ rw (e, width) (width_le num den k w h)
  | inl e ↦
      rw (e, width)
        (elim (Bool-cases (leb k w)) [
          | inl b ↦ absurd (
              omega (
                arith,
                leb→le _ _ e,
                h,
                mul-le-mul_left den (pow-le-pow_right {n = 2} (omega arith) (leb→le k w b)),
              ))
          | inr b ↦ ground arith
        ])
]

round_exact : (q b : ℕ) → 0 < b → round_half_even (q * b) b ≡ q
round_exact q b h =
    rw (mul-div_cancel q h) (rw (mul-mod_left q b) (rw (lt→ltb (0 * 2) b (omega arith)) refl))

scaled : (n t k p : ℕ) → t ≡ k * p → 0 < p → round_half_even (n * t) (1 * p) * p ≡ n * t
scaled n t k p e h =
    let whole : n * t ≡ n * k * p = ap (λ x. n * x) e ∙ sym (mul_assoc n k p) in
    rw (one-mul p) (
      ap (λ x. round_half_even x p * p) whole
      ∙ (ap (λ x. x * p) (round_exact (n * k) p h) ∙ sym whole))

-- A whole number below 2^53 is a float64.
pub float64_exact : (n : ℕ) → n < 2 ^ 53 → float64 n 1 ≡ some (n * 2 ^ 1100)
unfolding float64
float64_exact n h =
    let e = width n 1 2200 - 53 in
    let small : e ≤ 1100 = omega (arith, width_le n 1 1153 2200 (omega arith)) in
    let back : 1100 - e + e ≡ 1100 = omega (arith, small) in
    let split : 2 ^ 1100 ≡ 2 ^ (1100 - e) * 2 ^ e =
      sym (ap (λ k. 2 ^ k) back) ∙ pow_add 2 (1100 - e) e in
    let finite : leb (1 * (2 ^ 1024 - 2 ^ 970)) n ≡ false = ground arith in
    rw (finite, float64)
      (ap (λ x. some x)
        (scaled n (2 ^ 1100) (2 ^ (1100 - e)) (2 ^ e) split (one-le-pow e 2 (omega arith))))
