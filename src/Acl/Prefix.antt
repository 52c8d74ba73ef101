-- ===== src/Acl/Prefix.antt =====
-- A rule whose mask has the form that `ParseCIDR` gives contains the addresses with the same prefix.
use Prim.Native.Nat.{bit_and}
use native.Mathlib.Nat.{pow-suc, mul-lt-mul_of_pos_right}
use packetpony.Base.{
  ℕ, map, zero, suc, ◌-◌, ◌*◌, ◌/◌, ◌^◌, ◌≤◌, ◌<◌, ◌≡◌, refl, ap₂, ◌∙◌, inl, inr, Bool, true, false,
  ◌&&◌, ◌||◌, List, [], ◌∷◌, arith, ◌==◌, ==_iff, leb, dec_lt, if◌then◌else◌, length, All,
  Bool-cases,
}
use packetpony.Net.{Ip, IpNet}
use packetpony.Acl.{matches_any, is_allowed, agree, contains}

-- `CIDRMask(ones, 8*l)`.
abbrev pub cidr_mask : ℕ → ℕ → List ℕ
cidr_mask ones zero = []
cidr_mask ones (suc l) =
    if leb 8 ones then 255 ∷ cidr_mask (ones - 8) l else (255 - 255 / 2 ^ ones) ∷ cidr_mask 0 l

-- The address of 16 bytes that maps one of 4.
abbrev pub mapped : Ip → Ip
mapped ip = 0 ∷ 0 ∷ 0 ∷ 0 ∷ 0 ∷ 0 ∷ 0 ∷ 0 ∷ 0 ∷ 0 ∷ 255 ∷ 255 ∷ ip

-- The first `ones` bits of two lists of bytes are the same.
abbrev pub same_prefix : ℕ → List ℕ → List ℕ → Bool
same_prefix ones (a ∷ as') (b ∷ bs) =
    if leb 8 ones
    then a == b && same_prefix (ones - 8) as' bs
    else a / 2 ^ (8 - ones) == b / 2 ^ (8 - ones)
same_prefix ones _ _ = true

each_under : (ℕ → Bool) → ℕ → Bool
each_under test zero = true
each_under test (suc bound) = each_under test bound && test bound

at_each : (test : ℕ → Bool) (bound i : ℕ) → i < bound → each_under test bound ≡ true → test i ≡ true
unfolding each_under
at_each test zero i below e = absurd (omega arith)
at_each test (suc bound) i below e = ground (arith, at_each test bound i)

-- To mask a byte is to drop its low bits, and with them their value: all 256 bytes, for all prefixes.
keeps_high_bits : ℕ → ℕ → Bool
keeps_high_bits k x = bit_and x (255 - 255 / 2 ^ k) == x / 2 ^ (8 - k) * 2 ^ (8 - k)

mask_table : each_under (λ k. each_under (keeps_high_bits k) 256) 9 ≡ true
unfolding each_under keeps_high_bits
mask_table = refl

bit_and-mask :
    (k x : ℕ) → k ≤ 8 → x < 256 → bit_and x (255 - 255 / 2 ^ k) ≡ x / 2 ^ (8 - k) * 2 ^ (8 - k)
unfolding keeps_high_bits
bit_and-mask k x hk hx = (==_iff _ _).0 (
    at_each (keeps_high_bits k) 256 x hx
      (at_each (λ j. each_under (keeps_high_bits j) 256) 9 k (omega arith) mask_table))

scale-eq : (x y p : ℕ) → 0 < p → (x * p == y * p) ≡ (x == y)
scale-eq x y p h = elim (dec_lt x y) [
  | yes q ↦ let below : x * p < y * p = mul-lt-mul_of_pos_right q h in ground arith
  | no n ↦ elim (dec_lt y x) [
    | yes q ↦ let below : y * p < x * p = mul-lt-mul_of_pos_right q h in ground arith
    | no m ↦ let e : x ≡ y = omega arith in rw e (ground arith)
  ]
]

pow-pos : (n : ℕ) → 0 < 2 ^ n
pow-pos zero = omega arith
pow-pos (suc n) = rw pow-suc (omega (arith, pow-pos n))

-- The masked bytes are equal exactly if the leading bits are.
mask-eq :
    (k x y : ℕ)
    → k ≤ 8
    → x < 256
    → y < 256
    → (bit_and x (255 - 255 / 2 ^ k) == bit_and y (255 - 255 / 2 ^ k))
      ≡ (x / 2 ^ (8 - k) == y / 2 ^ (8 - k))
mask-eq k x y hk hx hy =
    rw (bit_and-mask k x hk hx, bit_and-mask k y hk hy)
      (scale-eq _ _ (2 ^ (8 - k)) (pow-pos (8 - k)))

mask-eq_whole : (x y : ℕ) → x < 256 → y < 256 → (bit_and x 255 == bit_and y 255) ≡ (x == y)
mask-eq_whole x y hx hy = mask-eq 8 x y (omega arith) hx hy ∙ ground arith

mask-eq_none : (x y : ℕ) → x < 256 → y < 256 → (bit_and x 0 == bit_and y 0) ≡ true
mask-eq_none x y hx hy = mask-eq 0 x y (omega arith) hx hy ∙ ground arith

abbrev pub Bytes : List ℕ → Type 0
Bytes = All (λ b. b < 256)

agree-zero : (l : ℕ) (xs ys : List ℕ) → Bytes xs → Bytes ys → agree (cidr_mask 0 l) xs ys ≡ true
agree-zero zero xs ys hx hy = refl
agree-zero (suc l) [] ys hx hy = refl
agree-zero (suc l) (x ∷ xs) [] hx hy = refl
agree-zero (suc l) (x ∷ xs) (y ∷ ys) hx hy =
    rw (mask-eq_none x y hx.0 hy.0) (agree-zero l xs ys hx.1 hy.1)

and-true : (b : Bool) → (b && true) ≡ b
and-true true = refl
and-true false = refl

agree-same_prefix :
    (l ones : ℕ) (xs ys : List ℕ)
    → ones ≤ 8 * l
    → length xs ≡ l
    → length ys ≡ l
    → Bytes xs
    → Bytes ys
    → agree (cidr_mask ones l) xs ys ≡ same_prefix ones xs ys
agree-same_prefix zero ones [] [] h ex ey hx hy = refl
agree-same_prefix zero ones (x ∷ xs) ys h ex ey hx hy = absurd (omega arith)
agree-same_prefix zero ones [] (y ∷ ys) h ex ey hx hy = absurd (omega arith)
agree-same_prefix (suc l) ones [] ys h ex ey hx hy = absurd (omega arith)
agree-same_prefix (suc l) ones (x ∷ xs) [] h ex ey hx hy = absurd (omega arith)
agree-same_prefix (suc l) ones (x ∷ xs) (y ∷ ys) h ex ey hx hy = elim (Bool-cases (leb 8 ones)) [
  | inl e ↦
      rw (e, cidr_mask)
        (rw
          (
            mask-eq_whole x y hx.0 hy.0,
            agree-same_prefix l (ones - 8) xs ys (omega arith) (omega arith) (omega arith) hx.1
                hy.1,
          )
          refl)
  | inr e ↦
      rw (e, cidr_mask)
        (rw (mask-eq ones x y (ground arith) hx.0 hy.0, agree-zero l xs ys hx.1 hy.1) (and-true _))
]

length-cidr_mask : (ones l : ℕ) → length (cidr_mask ones l) ≡ l
length-cidr_mask ones zero = refl
length-cidr_mask ones (suc l) = ground (arith, length-cidr_mask (ones - 8) l, length-cidr_mask 0 l)

contains_four :
    (mask net ip : List ℕ)
    → length mask ≡ 4
    → length net ≡ 4
    → length ip ≡ 4
    → (contains (record { ip = net; mask = mask }) ip ≡ agree mask net ip)
      × (contains (record { ip = net; mask = mask }) (mapped ip) ≡ agree mask net ip)
unfolding contains
contains_four mask net ip em en ei = ground arith

-- A rule of 4 bytes with a mask of `ones` leading ones contains an address of 4 bytes, or the one of 16
-- bytes that maps it, exactly if the first `ones` bits are those of the rule's address.
pub contains-same_prefix :
    (ones : ℕ) (net ip : Ip)
    → ones ≤ 32
    → length net ≡ 4
    → length ip ≡ 4
    → Bytes net
    → Bytes ip
    → (contains (record { ip = net; mask = cidr_mask ones 4 }) ip ≡ same_prefix ones net ip)
      × (contains (record { ip = net; mask = cidr_mask ones 4 }) (mapped ip)
          ≡ same_prefix ones net ip)
contains-same_prefix ones net ip h en ei hn hi =
    let (direct, through) =
      contains_four (cidr_mask ones 4) net ip (length-cidr_mask ones 4) en ei in
    let same = agree-same_prefix 4 ones net ip (omega arith) en ei hn hi in
    (direct ∙ same, through ∙ same)

-- A rule of 4 bytes, as `ParseCIDR` gives it for a prefix of `ones` bits.
abbrev pub prefix_rule : ℕ × Ip → IpNet
prefix_rule (ones, net) = record { ip = net; mask = cidr_mask ones 4 }

-- 4 bytes with a prefix of at most 32 bits.
abbrev pub IsPrefix : ℕ × Ip → Type 0
IsPrefix (ones, net) = (ones ≤ 32) × (length net ≡ 4) × Bytes net

abbrev pub any_prefix : List (ℕ × Ip) → Ip → Bool
any_prefix [] ip = false
any_prefix ((ones, net) ∷ rs) ip = same_prefix ones net ip || any_prefix rs ip

matches_any-prefixes :
    (rs : List (ℕ × Ip)) (ip : Ip)
    → All IsPrefix rs
    → length ip ≡ 4
    → Bytes ip
    → (matches_any (map prefix_rule rs) ip ≡ any_prefix rs ip)
      × (matches_any (map prefix_rule rs) (mapped ip) ≡ any_prefix rs ip)
unfolding matches_any
matches_any-prefixes [] ip h ei hi = (refl, refl)
matches_any-prefixes ((ones, net) ∷ rs) ip h ei hi =
    let (direct, through) = contains-same_prefix ones net ip h.0.0 h.0.1 ei h.0.2 hi in
    let (directs, throughs) = matches_any-prefixes rs ip h.1 ei hi in
    (ap₂ (λ a b. a || b) direct directs, ap₂ (λ a b. a || b) through throughs)

is_allowed-matches_any :
    (rs : List IpNet) (ip : Ip) → is_allowed (record { rules = rs }) ip ≡ matches_any rs ip
unfolding is_allowed matches_any
is_allowed-matches_any [] ip = refl
is_allowed-matches_any (r ∷ rs) ip = ground arith

-- An allowlist of IPv4 prefixes of at most 32 bits allows an address of 4 bytes, and the one of 16
-- bytes that maps it, exactly if its leading bits are those of one of the prefixes.
pub is_allowed-prefixes :
    (rs : List (ℕ × Ip)) (ip : Ip)
    → All IsPrefix rs
    → length ip ≡ 4
    → Bytes ip
    → (is_allowed (record { rules = map prefix_rule rs }) ip ≡ any_prefix rs ip)
      × (is_allowed (record { rules = map prefix_rule rs }) (mapped ip) ≡ any_prefix rs ip)
is_allowed-prefixes rs ip h ei hi =
    let (direct, through) = matches_any-prefixes rs ip h ei hi in
    (
      is_allowed-matches_any (map prefix_rule rs) ip ∙ direct,
      is_allowed-matches_any (map prefix_rule rs) (mapped ip) ∙ through,
    )
