-- ===== src/Client/Allow/Trim.antt =====
-- strings.TrimSpace on the bytes of UTF-8: the characters of Unicode's White_Space, from both ends.
use mathlib.Core.List.{reverse}
use aamio_go.Prelude.{ℕ, Bool, ◌&&◌, ◌||◌, [], ◌∷◌, Text, leb, ◌==◌, if◌then◌else◌}

abbrev is_space_1 : ℕ → Bool
is_space_1 c = (leb 9 c && leb c 13) || c == 32

-- U+0085 and U+00A0
abbrev is_space_2 : ℕ → ℕ → Bool
is_space_2 a b = a == 0xC2 && (b == 0x85 || b == 0xA0)

-- U+1680, U+2000 to U+200A, U+2028, U+2029, U+202F, U+205F and U+3000
abbrev is_space_3 : ℕ → ℕ → ℕ → Bool
is_space_3 a b c =
    (a == 0xE1 && b == 0x9A && c == 0x80)
    || (a == 0xE2
        && b == 0x80
        && ((leb 0x80 c && leb c 0x8A) || c == 0xA8 || c == 0xA9 || c == 0xAF))
    || (a == 0xE2 && b == 0x81 && c == 0x9F)
    || (a == 0xE3 && b == 0x80 && c == 0x80)

-- The spaces at the head go, for tests of the characters of two and three bytes.
trim_head : (ℕ → ℕ → Bool) → (ℕ → ℕ → ℕ → Bool) → Text → Text
trim_head two three [] = []
trim_head two three (a ∷ []) = if is_space_1 a then [] else a ∷ []
trim_head two three (a ∷ b ∷ []) =
    let one = trim_head two three (b ∷ []) in
    if is_space_1 a then one else if two a b then [] else a ∷ b ∷ []
trim_head two three (a ∷ b ∷ c ∷ s) =
    let after_1 = trim_head two three (b ∷ c ∷ s) in
    let after_2 = trim_head two three (c ∷ s) in
    let after_3 = trim_head two three s in
    if is_space_1 a
    then after_1
    else if two a b
    then after_2
    else if three a b c
    then after_3
    else a ∷ b ∷ c ∷ s

unfoldable pub trim_space : Text → Text
unfolding trim_head
trim_space s =
    let left = trim_head is_space_2 is_space_3 s in
    reverse (trim_head (λ b a. is_space_2 a b) (λ c b a. is_space_3 a b c) (reverse left))
