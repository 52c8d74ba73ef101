-- ===== src/Base/Text.antt =====
-- Go strings as lists of code points.
use Prim.Native.Nat.{ℕ, ◌+◌}
use Prim.Native.Char.{code}
use Prim.Native.String.{String}
use mathlib.Core.Path.{◌≡◌, refl, sym, ap, ap₂, ◌∙◌}
use mathlib.Core.Bool.{Bool, true, false, ◌&&◌, ◌||◌}
use mathlib.Core.List.{List, [], ◌∷◌, ◌++◌, map, reverse, reverse-append, reverse-reverse}
use native.Mathlib.Decide.{ℕ_discrete}
use packetpony.Base.Tests.{leb, ◌==◌, if◌then◌else◌}

abbrev pub Text : Type 0
Text = List ℕ

unfoldable pub Text-discrete : Discrete Text
unfolding ℕ_discrete
Text-discrete [] [] = yes refl
Text-discrete [] (d ∷ t) = no (λ e. cc)
Text-discrete (c ∷ s) [] = no (λ e. cc)
Text-discrete (c ∷ s) (d ∷ t) =
    let same_rest = Text-discrete s t in
    elim (ℕ_discrete c d) [
      | yes p ↦ elim same_rest [
        | yes q ↦ yes (ap₂ (λ (a : ℕ) (r : Text). a ∷ r) p q)
        | no q ↦ no (λ e. q (cc))
      ]
      | no p ↦ no (λ e. p (cc))
    ]

-- The text of a literal.
abbrev pub text : String → Text
text String.[] = []
text (String.◌∷◌ c s) = code c ∷ text s

-- `unicode.IsSpace`.
unfoldable pub is_space : ℕ → Bool
is_space c =
    (leb 9 c && leb c 13)
    || c == 32
    || c == 0x85
    || c == 0xa0
    || c == 0x1680
    || (leb 0x2000 c && leb c 0x200a)
    || c == 0x2028
    || c == 0x2029
    || c == 0x202f
    || c == 0x205f
    || c == 0x3000

trim_left : Text → Text
trim_left [] = []
trim_left (c ∷ s) = let rest = trim_left s in if is_space c then rest else c ∷ s

-- `strings.TrimSpace`.
unfoldable pub trim_space : Text → Text
unfolding is_space trim_left
trim_space s = reverse (trim_left (reverse (trim_left s)))

-- A text that starts and ends without a space.
pub trim_space_fixed :
    (c : ℕ) (s : Text) (d : ℕ)
    → is_space c ≡ false
    → is_space d ≡ false
    → trim_space ((c ∷ s) ++ d ∷ []) ≡ (c ∷ s) ++ d ∷ []
unfolding trim_left trim_space
trim_space_fixed c s d start end =
    rw (start, trim_left)
      (ap (λ t. reverse (trim_left t)) (reverse-append (c ∷ s) (d ∷ []))
        ∙ (rw (end, trim_left)
            (ap reverse (sym (reverse-append (c ∷ s) (d ∷ [])))
              ∙ reverse-reverse ((c ∷ s) ++ d ∷ []))))

-- `strings.Contains(s, c)` for a text of one character.
unfoldable pub contains_char : Text → ℕ → Bool
contains_char [] c = false
contains_char (d ∷ s) c = d == c || contains_char s c

-- `unicode.ToLower` where it gives an ASCII letter. All other letters keep outside ASCII, which is all
-- that a comparison with an ASCII text can see.
to_lower_char : ℕ → ℕ
to_lower_char c =
    if leb b'A' c && leb c b'Z'
    then c + 32
    else (if c == 0x130 then b'i' else (if c == 0x212a then b'k' else c))

-- `strings.ToLower`, for comparisons with ASCII texts.
unfoldable pub to_lower : Text → Text
unfolding to_lower_char
to_lower s = map to_lower_char s

test :
    (trim_space (text " ab c ") ≡ text "ab c")
    × (to_lower (text "LoG_x") ≡ text "log_x")
    × (contains_char (text "a/b") b'/' ≡ true)
unfolding trim_space contains_char to_lower
test = (refl, refl, refl)
